-- ===== src/Gtest/NormTest.antt =====
-- The test appliesNormToPackets of gtest/dpdkSource/hrzrParserTest.cc. `std::stof` and equality of
-- `float` are parameters.
pub mod Passes
mod Examples
use rs_jerry_driver.Common.{
  ℕ, zero, suc, ◌+◌, ◌-◌, ◌*◌, ◌^◌, ℤ, pos, negsuc, Bool, true, ◌&&◌, ◌||◌, List, [], ◌∷◌, ◌++◌,
  Option, none, some, Result, ok, err, ◌>>=◌, defined, invalid_argument, out_of_range, ◌==◌, ltb,
  leb, if◌then◌else◌, bits16, length, get_elem?, take, replicate,
}
use rs_jerry_driver.Definitions.{samples_per_packet}
use rs_jerry_driver.Floats.{FloatOps, Complex}
use rs_jerry_driver.Parser.{new_hrzr_parser, parse_payload_samples}
use rs_jerry_driver.Gtest.{Files, at}
use rs_jerry_driver.Gtest.Text.{fill_input_from_file, number_of_samples}

abbrev pub is_digit : ℕ → Bool
is_digit c = leb 48 c && leb c 57

-- The digits in front, behind what was read of the number.
unfoldable pub digits : ℕ → List ℕ → ℕ
digits n [] = n
digits n (c ∷ text) = let more = digits (n * 10 + (c - 48)) text in if is_digit c then more else n

unfoldable pub magnitude : List ℕ → Result ℕ
magnitude [] = err invalid_argument
magnitude (c ∷ text) = if is_digit c then ok (digits (c - 48) text) else err invalid_argument

abbrev pub negative : ℕ → ℤ
negative zero = pos 0
negative (suc n) = negsuc n

-- `std::stoi`: white space, a sign, and digits; what follows is ignored.
unfoldable pub stoi : List ℕ → Result ℤ
stoi [] = err invalid_argument
stoi (c ∷ text) =
    let behind = stoi text in
    if c == 32 || leb 9 c && leb c 13
    then behind
    else if c == 45
    then (do n ← magnitude text; if ltb (2 ^ 31) n then err out_of_range else ok (negative n))
    else if c == 43
    then (do n ← magnitude text; if ltb n (2 ^ 31) then ok (pos n) else err out_of_range)
    else (do n ← magnitude (c ∷ text); if ltb n (2 ^ 31) then ok (pos n) else err out_of_range)

-- The numbers as `int16_t` patterns.
unfoldable pub shorts_of : List (List ℕ) → Result (List ℕ)
shorts_of [] = ok []
shorts_of (value ∷ values) = do n ← stoi value; others ← shorts_of values; ok (bits16 n ∷ others)

unfoldable pub convert_input_to_short : Option (List ℕ) → Result (List ℕ)
convert_input_to_short file = do raw_input ← fill_input_from_file file; shorts_of raw_input

-- `resize`
unfoldable pub resize : ℕ → List ℕ → List ℕ
resize n values = take n values ++ replicate (n - length values) 0

module _ (floats : FloatOps) (stof : List ℕ → Result (floats.Float))
    (same : floats.Float → floats.Float → Bool) where
  open floats use {Float, of_int16}

  -- The loop from an index on, with the rounds that are left.
  unfoldable pub floats_of : ℕ → ℕ → List (List ℕ) → Result (List (Complex Float))
  floats_of zero i raw_input = ok []
  floats_of (suc left) i raw_input = do
    first ← defined (get_elem? raw_input (2 * i))
    first_number ← stof first
    second ← defined (get_elem? raw_input (2 * i + 1))
    second_number ← stof second
    others ← floats_of left (i + 1) raw_input
    ok (record { real = first_number; imag = second_number } ∷ others)

  unfoldable pub convert_input_to_complex_float : Option (List ℕ) → Result (List (Complex Float))
  convert_input_to_complex_float file = do
    raw_input ← fill_input_from_file file
    floats_of number_of_samples 0 raw_input

  -- The last loop, from an index on.
  unfoldable pub expect_samples : ℕ → List (Complex Float) → List (Complex Float) → Result Bool
  expect_samples i [] output = ok true
  expect_samples i (x ∷ reference) output = do
    y ← at output i
    others ← expect_samples (i + 1) reference output
    ok (same x.real y.real && same x.imag y.imag && others)

  unfoldable pub applies_norm_to_packets : Files → Result Bool
  applies_norm_to_packets files = do
    input ← convert_input_to_short (files "floatsamples.in")
    let input_samples = resize (samples_per_packet * 2) input
    let blank : Complex Float = record { real = of_int16 (pos 0); imag = of_int16 (pos 0) }
    parser ← new_hrzr_parser floats (of_int16 (pos 10))
    parsed ←
        parse_payload_samples floats parser 0 input_samples (replicate samples_per_packet blank)
    reference_samples ← convert_input_to_complex_float (files "floatsamples.norm")
    expect_samples 0 reference_samples parsed.0
