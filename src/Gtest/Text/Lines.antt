-- ===== src/Gtest/Text/Lines.antt =====
-- The lines of a text file, read back.
use rs_jerry_driver.Common.{
  ℕ, suc, ◌+◌, ◌-◌, ◌^◌, ◌≤◌, ◌<◌, ◌≡◌, refl, ap, sym, ◌∙◌, false, List, [], ◌∷◌, ◌++◌, some,
  Result, ok, ◌>>=◌, ◌==◌, ltb, u64, length, length-append, take, drop, take_all, arith,
}
use rs_jerry_driver.Gtest.Text.{
  newline, comma, Stream, get_line, find, substr, split_line, read_lines, number_of_samples,
  fill_input_from_file, Lacks, Entry, line_of, lines_of, texts_of,
}

get_line-newline :
    (line rest : List ℕ)
    → Lacks newline line
    → get_line (line ++ newline ∷ rest) ≡ (line, record { rest = rest; eof = false })
unfolding get_line
get_line-newline [] rest lacks = refl
get_line-newline (c ∷ line) rest lacks =
    let other : (c == newline) ≡ false = ground (arith, lacks.0) in
    rw (other, get_line-newline line rest lacks.1) refl

find-comma :
    (left right : List ℕ) → Lacks comma left → find (left ++ comma ∷ right) ≡ some (length left)
unfolding find
find-comma [] right lacks = refl
find-comma (c ∷ left) right lacks =
    let other : (c == comma) ≡ false = ground (arith, lacks.0) in
    rw (other, find-comma left right lacks.1) refl

take_past :
    (left : List ℕ) (c : ℕ) (right : List ℕ)
    → take (suc (length left)) (left ++ c ∷ right) ≡ left ++ c ∷ []
unfolding take
take_past [] c right = refl
take_past (b ∷ left) c right = ap (λ (t : List ℕ). b ∷ t) (take_past left c right)

drop_past :
    (left : List ℕ) (c : ℕ) (right : List ℕ) → drop (suc (length left)) (left ++ c ∷ right) ≡ right
unfolding drop
drop_past [] c right = refl
drop_past (b ∷ left) c right = drop_past left c right

line_of-length : (e : Entry) → length (line_of e) ≡ length e.left + length e.right + 3
line_of-length e =
    omega
      (arith, length-append e.left (comma ∷ (e.right ++ 41 ∷ [])), length-append e.right (41 ∷ []))

first_substr : (e : Entry) → substr (line_of e) 1 (suc (length e.left)) ≡ ok (e.left ++ comma ∷ [])
unfolding substr drop
first_substr e =
    let inside : ltb (length (line_of e)) 1 ≡ false = ground (arith, line_of-length e) in
    rw inside (ap (λ (t : List ℕ). ok t) (take_past e.left comma (e.right ++ 41 ∷ [])))

second_substr :
    (e : Entry) (count : ℕ)
    → suc (length e.right) ≤ count
    → substr (line_of e) (suc (length e.left) + 1) count ≡ ok (e.right ++ 41 ∷ [])
unfolding substr drop
second_substr e count enough =
    let at : suc (length e.left) + 1 ≡ suc (suc (length e.left)) = omega arith in
    let inside : ltb (length (line_of e)) (suc (suc (length e.left))) ≡ false =
      ground (arith, line_of-length e) in
    ap (λ (pos : ℕ). substr (line_of e) pos count) at
    ∙ rw (inside, drop_past e.left comma (e.right ++ 41 ∷ []))
        (ap (λ (t : List ℕ). ok t)
          (take_all count (e.right ++ 41 ∷ []) (omega (arith, length-append e.right (41 ∷ [])))))

split_line_lem :
    (e : Entry)
    → length (line_of e) < 2 ^ 64
    → split_line (line_of e) (find (line_of e))
      ≡ ok ((e.left ++ comma ∷ []) ∷ (e.right ++ 41 ∷ []) ∷ [])
unfolding split_line find
split_line_lem e fits =
    rw
      (
        find-comma e.left (e.right ++ 41 ∷ []) e.one_comma,
        first_substr e,
        second_substr e (u64 (length (line_of e) + 2 ^ 64 - 2)) (omega (arith, line_of-length e)),
      )
      refl

-- The whole line lacks a newline.
Lacks-append : (b : ℕ) (xs ys : List ℕ) → Lacks b xs → Lacks b ys → Lacks b (xs ++ ys)
Lacks-append b [] ys hx hy = hy
Lacks-append b (x ∷ xs) ys hx hy = (hx.0, Lacks-append b xs ys hx.1 hy)

Lacks-parts : (b : ℕ) (xs ys : List ℕ) → Lacks b (xs ++ ys) → Lacks b xs × Lacks b ys
Lacks-parts b [] ys h = (tt, h)
Lacks-parts b (x ∷ xs) ys h = ((h.0, (Lacks-parts b xs ys h.1).0), (Lacks-parts b xs ys h.1).1)

line_of-Lacks : (e : Entry) → Lacks newline (line_of e)
line_of-Lacks e =
    let (left, right) = Lacks-parts newline e.left e.right e.one_line in
    (
      λ q. absurd (omega arith),
      Lacks-append newline e.left (comma ∷ (e.right ++ 41 ∷ [])) left (
        λ q. absurd (omega arith),
        Lacks-append newline e.right (41 ∷ []) right (λ q. absurd (omega arith), tt),
      ),
    )

-- Every line can be measured.
abbrev pub AreShort : List Entry → Type 0
AreShort [] = Unit {0}
AreShort (e ∷ entries) = (length (line_of e) < 2 ^ 64) × AreShort entries

get_line-line_of :
    (e : Entry) (rest : List ℕ)
    → get_line (line_of e ++ newline ∷ rest) ≡ (line_of e, record { rest = rest; eof = false })
get_line-line_of e rest = get_line-newline (line_of e) rest (line_of-Lacks e)

read_lines-lines_of :
    (entries : List Entry) (tail : List ℕ)
    → AreShort entries
    → read_lines (length entries) (record { rest = lines_of entries tail; eof = false })
      ≡ ok (texts_of entries)
unfolding read_lines
read_lines-lines_of [] tail short = refl
read_lines-lines_of (e ∷ entries) tail short =
    ap step (get_line-line_of e (lines_of entries tail))
    ∙ (ap
          (λ (r : Result (List (List ℕ))).
            r >>= others (record { rest = lines_of entries tail; eof = false }))
          (split_line_lem e short.0)
        ∙ ap
            (λ (r : Result (List (List ℕ))).
              r >>= λ more. ok ((e.left ++ comma ∷ []) ∷ (e.right ++ 41 ∷ []) ∷ more))
            (read_lines-lines_of entries tail short.1))
  where
    others : Stream → List (List ℕ) → Result (List (List ℕ))
    others fs texts = read_lines (length entries) fs >>= λ more. ok (texts ++ more)

    step : List ℕ × Stream → Result (List (List ℕ))
    step r = split_line r.0 (find r.0) >>= others r.1

-- The reader of text files: of a file whose first ten lines are `(left,right)`, it returns the twenty
-- texts in their order, each with the comma or the parenthesis behind it, whatever follows.
pub fill_input_from_file-lines_of :
    (entries : List Entry) (tail : List ℕ)
    → length entries ≡ number_of_samples
    → AreShort entries
    → fill_input_from_file (some (lines_of entries tail)) ≡ ok (texts_of entries)
unfolding fill_input_from_file
fill_input_from_file-lines_of entries tail ten short =
    ap (λ (n : ℕ). read_lines n (record { rest = lines_of entries tail; eof = false })) (sym ten)
    ∙ read_lines-lines_of entries tail short
