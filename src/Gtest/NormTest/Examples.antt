-- ===== src/Gtest/NormTest/Examples.antt =====
-- The test appliesNormToPackets on the files of gtest/dpdkSource.
use rs_jerry_driver.Common.{
  ℕ, ◌+◌, ◌*◌, ◌-◌, ◌≡◌, refl, ℤ, pos, negsuc, Bool, true, false, ◌&&◌, List, [], ◌∷◌, ◌++◌, none,
  some, Result, ok, bits16, int16, ◌==◌, if◌then◌else◌, arith,
}
use rs_jerry_driver.Testing.{fractions}
use rs_jerry_driver.Iq.Configure.{same_text}
use rs_jerry_driver.Gtest.{Files}
use rs_jerry_driver.Gtest.ClientTest.{same_int}
use rs_jerry_driver.Gtest.Text.{Entry, Lacks, comma, newline, lines_of}
use rs_jerry_driver.Gtest.NormTest.{stoi, magnitude, digits, is_digit, applies_norm_to_packets}
use rs_jerry_driver.Gtest.NormTest.Passes.{
  HasNumbers, HasQuotients, SelfEqual, quotient, quotients, applies_norm_to_packets_passes,
}

-- A decimal number with one place, as a fraction.
abbrev tenths : ℕ → List ℕ → ℕ
tenths n [] = n
tenths n (c ∷ text) =
    let behind = tenths n text in
    let more = tenths (n * 10 + (c - 48)) text in
    if c == 46 then behind else if is_digit c then more else n

abbrev stof : List ℕ → Result (ℤ × ℤ)
stof text = ok (pos (tenths 0 text), pos 10)

abbrev same : ℤ × ℤ → ℤ × ℤ → Bool
same x y = same_int x.0 y.0 && same_int x.1 y.1

same_int_refl : (n : ℤ) → same_int n n ≡ true
same_int_refl (pos n) = ground arith
same_int_refl (negsuc n) = ground arith

same_refl : (x : ℤ × ℤ) → same x x ≡ true
same_refl x = rw (same_int_refl x.0, same_int_refl x.1) refl

-- Whether no byte is this one.
abbrev lacks : ℕ → List ℕ → Bool
lacks b [] = true
lacks b (c ∷ text) = let others = lacks b text in if c == b then false else others

lacks-Lacks : (b : ℕ) (text : List ℕ) → lacks b text ≡ true → Lacks b text
lacks-Lacks b [] h = tt
lacks-Lacks b (c ∷ text) h = (λ q. absurd (ground arith), lacks-Lacks b text (ground arith))

abbrev entry :
    (left right : List ℕ) → lacks newline (left ++ right) ≡ true → lacks comma left ≡ true → Entry
entry left right line first = record {
  left = left;
  right = right;
  one_line = lacks-Lacks newline (left ++ right) line;
  one_comma = lacks-Lacks comma left first;
}

abbrev number_0 : Entry
number_0 = entry (51 ∷ 50 ∷ 55 ∷ 54 ∷ 55 ∷ []) (48 ∷ []) refl refl

abbrev number_1 : Entry
number_1 = entry (51 ∷ 50 ∷ 55 ∷ 54 ∷ 50 ∷ []) (53 ∷ 54 ∷ 50 ∷ []) refl refl

abbrev number_2 : Entry
number_2 = entry (51 ∷ 50 ∷ 55 ∷ 52 ∷ 55 ∷ []) (49 ∷ 49 ∷ 50 ∷ 52 ∷ []) refl refl

abbrev number_3 : Entry
number_3 = entry (51 ∷ 50 ∷ 55 ∷ 50 ∷ 51 ∷ []) (49 ∷ 54 ∷ 56 ∷ 54 ∷ []) refl refl

abbrev number_4 : Entry
number_4 = entry (51 ∷ 50 ∷ 54 ∷ 56 ∷ 57 ∷ []) (50 ∷ 50 ∷ 52 ∷ 56 ∷ []) refl refl

abbrev number_5 : Entry
number_5 = entry (51 ∷ 50 ∷ 54 ∷ 52 ∷ 54 ∷ []) (50 ∷ 56 ∷ 48 ∷ 57 ∷ []) refl refl

abbrev number_6 : Entry
number_6 = entry (51 ∷ 50 ∷ 53 ∷ 57 ∷ 51 ∷ []) (51 ∷ 51 ∷ 54 ∷ 57 ∷ []) refl refl

abbrev number_7 : Entry
number_7 = entry (51 ∷ 50 ∷ 53 ∷ 51 ∷ 48 ∷ []) (51 ∷ 57 ∷ 50 ∷ 56 ∷ []) refl refl

abbrev number_8 : Entry
number_8 = entry (51 ∷ 50 ∷ 52 ∷ 53 ∷ 56 ∷ []) (52 ∷ 52 ∷ 56 ∷ 54 ∷ []) refl refl

abbrev number_9 : Entry
number_9 = entry (51 ∷ 50 ∷ 51 ∷ 55 ∷ 54 ∷ []) (53 ∷ 48 ∷ 52 ∷ 50 ∷ []) refl refl

abbrev quotient_0 : Entry
quotient_0 = entry (51 ∷ 50 ∷ 55 ∷ 54 ∷ 46 ∷ 55 ∷ []) (48 ∷ 46 ∷ 48 ∷ []) refl refl

abbrev quotient_1 : Entry
quotient_1 = entry (51 ∷ 50 ∷ 55 ∷ 54 ∷ 46 ∷ 50 ∷ []) (53 ∷ 54 ∷ 46 ∷ 50 ∷ []) refl refl

abbrev quotient_2 : Entry
quotient_2 = entry (51 ∷ 50 ∷ 55 ∷ 52 ∷ 46 ∷ 55 ∷ []) (49 ∷ 49 ∷ 50 ∷ 46 ∷ 52 ∷ []) refl refl

abbrev quotient_3 : Entry
quotient_3 = entry (51 ∷ 50 ∷ 55 ∷ 50 ∷ 46 ∷ 51 ∷ []) (49 ∷ 54 ∷ 56 ∷ 46 ∷ 54 ∷ []) refl refl

abbrev quotient_4 : Entry
quotient_4 = entry (51 ∷ 50 ∷ 54 ∷ 56 ∷ 46 ∷ 57 ∷ []) (50 ∷ 50 ∷ 52 ∷ 46 ∷ 56 ∷ []) refl refl

abbrev quotient_5 : Entry
quotient_5 = entry (51 ∷ 50 ∷ 54 ∷ 52 ∷ 46 ∷ 54 ∷ []) (50 ∷ 56 ∷ 48 ∷ 46 ∷ 57 ∷ []) refl refl

abbrev quotient_6 : Entry
quotient_6 = entry (51 ∷ 50 ∷ 53 ∷ 57 ∷ 46 ∷ 51 ∷ []) (51 ∷ 51 ∷ 54 ∷ 46 ∷ 57 ∷ []) refl refl

abbrev quotient_7 : Entry
quotient_7 = entry (51 ∷ 50 ∷ 53 ∷ 51 ∷ 46 ∷ 48 ∷ []) (51 ∷ 57 ∷ 50 ∷ 46 ∷ 56 ∷ []) refl refl

abbrev quotient_8 : Entry
quotient_8 = entry (51 ∷ 50 ∷ 52 ∷ 53 ∷ 46 ∷ 56 ∷ []) (52 ∷ 52 ∷ 56 ∷ 46 ∷ 54 ∷ []) refl refl

abbrev quotient_9 : Entry
quotient_9 = entry (51 ∷ 50 ∷ 51 ∷ 55 ∷ 46 ∷ 54 ∷ []) (53 ∷ 48 ∷ 52 ∷ 46 ∷ 50 ∷ []) refl refl

abbrev numbers : List Entry
numbers =
    number_0 ∷ number_1 ∷ number_2 ∷ number_3 ∷ number_4 ∷ number_5 ∷ number_6 ∷ number_7 ∷ number_8
    ∷ number_9 ∷ []

abbrev divided : List Entry
divided =
    quotient_0 ∷ quotient_1 ∷ quotient_2 ∷ quotient_3 ∷ quotient_4 ∷ quotient_5 ∷ quotient_6
    ∷ quotient_7 ∷ quotient_8 ∷ quotient_9 ∷ []

abbrev numbers_tail : List ℕ
numbers_tail =
    40 ∷ 51 ∷ 50 ∷ 50 ∷ 56 ∷ 53 ∷ 44 ∷ 53 ∷ 53 ∷ 57 ∷ 55 ∷ 41 ∷ 10 ∷ 40 ∷ 51 ∷ 50 ∷ 49 ∷ 56 ∷ 52
    ∷ 44 ∷ 54 ∷ 49 ∷ 53 ∷ 48 ∷ 41 ∷ 10 ∷ 40 ∷ 51 ∷ 50 ∷ 48 ∷ 55 ∷ 52 ∷ 44 ∷ 54 ∷ 55 ∷ 48 ∷ 50 ∷ 41
    ∷ 10 ∷ 40 ∷ 51 ∷ 49 ∷ 57 ∷ 53 ∷ 52 ∷ 44 ∷ 55 ∷ 50 ∷ 53 ∷ 50 ∷ 41 ∷ 10 ∷ 40 ∷ 51 ∷ 49 ∷ 56 ∷ 50
    ∷ 53 ∷ 44 ∷ 55 ∷ 55 ∷ 57 ∷ 57 ∷ 41 ∷ []

abbrev divided_tail : List ℕ
divided_tail =
    40 ∷ 51 ∷ 50 ∷ 50 ∷ 56 ∷ 46 ∷ 53 ∷ 44 ∷ 53 ∷ 53 ∷ 57 ∷ 46 ∷ 55 ∷ 41 ∷ 10 ∷ 40 ∷ 51 ∷ 50 ∷ 49
    ∷ 56 ∷ 46 ∷ 52 ∷ 44 ∷ 54 ∷ 49 ∷ 53 ∷ 46 ∷ 48 ∷ 41 ∷ 10 ∷ 40 ∷ 51 ∷ 50 ∷ 48 ∷ 55 ∷ 46 ∷ 52 ∷ 44
    ∷ 54 ∷ 55 ∷ 48 ∷ 46 ∷ 50 ∷ 41 ∷ 10 ∷ 40 ∷ 51 ∷ 49 ∷ 57 ∷ 53 ∷ 46 ∷ 52 ∷ 44 ∷ 55 ∷ 50 ∷ 53 ∷ 46
    ∷ 50 ∷ 41 ∷ 10 ∷ 40 ∷ 51 ∷ 49 ∷ 56 ∷ 50 ∷ 46 ∷ 53 ∷ 44 ∷ 55 ∷ 55 ∷ 57 ∷ 46 ∷ 57 ∷ 41 ∷ []

abbrev files : Files
files name =
    if same_text name "floatsamples.in"
    then some (lines_of numbers numbers_tail)
    else if same_text name "floatsamples.norm"
    then some (lines_of divided divided_tail)
    else none

abbrev values : List (ℤ × ℤ)
values =
    (pos 32767, pos 0)
    ∷ (pos 32762, pos 562)
    ∷ (pos 32747, pos 1124)
    ∷ (pos 32723, pos 1686)
    ∷ (pos 32689, pos 2248)
    ∷ (pos 32646, pos 2809)
    ∷ (pos 32593, pos 3369)
    ∷ (pos 32530, pos 3928)
    ∷ (pos 32458, pos 4486)
    ∷ (pos 32376, pos 5042)
    ∷ []

has_numbers : HasNumbers (files "floatsamples.in") values
unfolding stoi magnitude digits
has_numbers = record {
  entries = numbers;
  tail = numbers_tail;
  ten = refl;
  short = (
    omega arith,
    (
      omega arith,
      (
        omega arith,
        (
          omega arith,
          (
            omega arith,
            (omega arith, (omega arith, (omega arith, (omega arith, (omega arith, tt))))),
          ),
        ),
      ),
    ),
  );
  content = refl;
  reads = (
    refl,
    refl,
    (
      refl,
      refl,
      (
        refl,
        refl,
        (
          refl,
          refl,
          (refl, refl, (refl, refl, (refl, refl, (refl, refl, (refl, refl, (refl, refl, tt)))))),
        ),
      ),
    ),
  );
}

has_quotients : HasQuotients fractions stof same (files "floatsamples.norm") values
unfolding bits16 int16
has_quotients = record {
  entries = divided;
  tail = divided_tail;
  ten = refl;
  short = (
    omega arith,
    (
      omega arith,
      (
        omega arith,
        (
          omega arith,
          (
            omega arith,
            (omega arith, (omega arith, (omega arith, (omega arith, (omega arith, tt))))),
          ),
        ),
      ),
    ),
  );
  content = refl;
  reads = (
    refl,
    refl,
    (
      refl,
      refl,
      (
        refl,
        refl,
        (
          refl,
          refl,
          (refl, refl, (refl, refl, (refl, refl, (refl, refl, (refl, refl, (refl, refl, tt)))))),
        ),
      ),
    ),
  );
}

self_equal : SelfEqual fractions stof same (quotients fractions stof same values)
self_equal = go values
  where
    go : (vs : List (ℤ × ℤ)) → SelfEqual fractions stof same (quotients fractions stof same vs)
    go [] = tt
    go (v ∷ vs) = (
      same_refl (quotient fractions stof same v.0),
      same_refl (quotient fractions stof same v.1),
      go vs,
    )

applies_norm_to_packets_passes_example : applies_norm_to_packets fractions stof same files ≡ ok true
applies_norm_to_packets_passes_example =
    applies_norm_to_packets_passes fractions stof same files values has_numbers has_quotients refl
      self_equal
