-- ===== src/Gtest/Text.antt =====
-- The reader of text files in gtest/dpdkSource/hrzrParserTest.cc: a file is its bytes, a line holds
-- two numbers in parentheses with a comma between them.
pub mod Lines
use rs_jerry_driver.Common.{
  ℕ, zero, suc, ◌+◌, ◌-◌, ◌^◌, ◌≤◌, ◌<◌, ◌≡◌, ◌≢◌, refl, ap, sym, ◌∙◌, Bool, true, false, List, [],
  ◌∷◌, ◌++◌, Option, none, some, Result, ok, err, ◌>>=◌, runtime_error, out_of_range, ◌==◌, ltb,
  if◌then◌else◌, u64, length, length-append, take, drop, take_all, arith,
}

abbrev pub newline : ℕ
newline = 10

abbrev pub comma : ℕ
comma = 44

-- A stream behind its last read: what is left, and whether the end was met.
pub record Stream : Type 0 where
  pub rest : List ℕ
  pub eof : Bool

abbrev pub in_front : ℕ → List ℕ × Stream → List ℕ × Stream
in_front c r = (c ∷ r.0, r.1)

-- `getline`
unfoldable pub get_line : List ℕ → List ℕ × Stream
get_line [] = ([], record { rest = []; eof = true })
get_line (c ∷ rest) =
    let later = get_line rest in
    if c == newline then ([], record { rest = rest; eof = false }) else in_front c later

abbrev pub next_index : Option ℕ → Option ℕ
next_index none = none
next_index (some i) = some (suc i)

-- `line.find(',')`
unfoldable pub find : List ℕ → Option ℕ
find [] = none
find (c ∷ rest) = let later = find rest in if c == comma then some 0 else next_index later

-- `line.substr(pos, count)`
unfoldable pub substr : List ℕ → ℕ → ℕ → Result (List ℕ)
substr line pos count =
    if ltb (length line) pos then err out_of_range else ok (take count (drop pos line))

-- What a line adds to the input.
unfoldable pub split_line : List ℕ → Option ℕ → Result (List (List ℕ))
unfolding substr
split_line line none = ok []
split_line line (some index_of_separator) = do
  first_substring ← substr line 1 index_of_separator
  second_substring ← substr line (index_of_separator + 1) (u64 (length line + 2 ^ 64 - 2))
  ok (first_substring ∷ second_substring ∷ [])

-- The loop, with the rounds that are left.
unfoldable pub read_lines : ℕ → Stream → Result (List (List ℕ))
unfolding get_line find split_line
read_lines zero fs = ok []
read_lines (suc left) fs = elim fs.eof [
  | true ↦ err runtime_error
  | false ↦
      let line = (get_line fs.rest).0 in
      split_line line (find line) >>= λ entries.
      read_lines left (get_line fs.rest).1 >>= λ others. ok (entries ++ others)
]

abbrev pub number_of_samples : ℕ
number_of_samples = 10

-- A file that cannot be opened is not good.
unfoldable pub fill_input_from_file : Option (List ℕ) → Result (List (List ℕ))
fill_input_from_file none = err runtime_error
fill_input_from_file (some bytes) =
    read_lines number_of_samples (record { rest = bytes; eof = false })

-- No byte of a text is this one.
abbrev pub Lacks : ℕ → List ℕ → Type 0
Lacks b [] = Unit {0}
Lacks b (c ∷ text) = (c ≢ b) × Lacks b text

-- The two texts of a line.
pub record Entry : Type 0 where
  pub left : List ℕ
  pub right : List ℕ
  pub one_line : Lacks newline (left ++ right)
  pub one_comma : Lacks comma left

abbrev pub line_of : Entry → List ℕ
line_of e = 40 ∷ (e.left ++ comma ∷ (e.right ++ 41 ∷ []))

abbrev pub lines_of : List Entry → List ℕ → List ℕ
lines_of [] tail = tail
lines_of (e ∷ entries) tail = line_of e ++ newline ∷ lines_of entries tail

-- What the reader makes of them: the comma and the parenthesis stay.
abbrev pub texts_of : List Entry → List (List ℕ)
texts_of [] = []
texts_of (e ∷ entries) = (e.left ++ comma ∷ []) ∷ (e.right ++ 41 ∷ []) ∷ texts_of entries
