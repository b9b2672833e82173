-- ===== src/Gtest/NormTest/Passes.antt =====
-- The test appliesNormToPackets passes where the second file holds the quotients of the first.
use rs_jerry_driver.Common.{
  ℕ, zero, suc, ◌+◌, ◌*◌, ◌<◌, ◌≡◌, refl, ap, ap₂, sym, ◌∙◌, ℤ, pos, Bool, true, false, List, [],
  ◌∷◌, ◌++◌, Option, some, Result, ok, ◌>>=◌, bits16, int16, length, get_elem?, get_or,
  length-append, take_all, replicate, length-replicate, arith,
}
use rs_jerry_driver.Floats.{FloatOps, Complex}
use rs_jerry_driver.Parser.{HrzrParser, new_hrzr_parser}
use rs_jerry_driver.Parser.Loop.{sample, parse_payload_samples-IsParsed}
use rs_jerry_driver.Gtest.{Files, at}
use rs_jerry_driver.Gtest.Text.{
  Entry, comma, fill_input_from_file, number_of_samples, lines_of, texts_of,
}
use rs_jerry_driver.Gtest.Text.Lines.{AreShort, fill_input_from_file-lines_of}
use rs_jerry_driver.Gtest.NormTest.{
  stoi, shorts_of, convert_input_to_short, resize, floats_of, convert_input_to_complex_float,
  expect_samples, applies_norm_to_packets,
}

-- The entries are read as these numbers.
abbrev pub Reads : List Entry → List (ℤ × ℤ) → Type 0
Reads [] [] = Unit {0}
Reads (e ∷ entries) (v ∷ values) =
    (stoi (e.left ++ comma ∷ []) ≡ ok v.0)
    × (stoi (e.right ++ 41 ∷ []) ≡ ok v.1)
    × Reads entries values
Reads _ _ = ⊥

-- The patterns of the numbers.
abbrev pub patterns : List (ℤ × ℤ) → List ℕ
patterns [] = []
patterns (v ∷ values) = bits16 v.0 ∷ bits16 v.1 ∷ patterns values

length-patterns : (values : List (ℤ × ℤ)) → length (patterns values) ≡ 2 * length values
length-patterns [] = omega arith
length-patterns (v ∷ values) = omega (arith, length-patterns values)

Reads-length :
    (entries : List Entry) (values : List (ℤ × ℤ))
    → Reads entries values
    → length values ≡ length entries
Reads-length [] [] reads = refl
Reads-length (e ∷ entries) (v ∷ values) reads = ap suc (Reads-length entries values reads.2)
Reads-length [] (v ∷ values) reads = absurd reads
Reads-length (e ∷ entries) [] reads = absurd reads

Reads-shorts_of :
    (entries : List Entry) (values : List (ℤ × ℤ))
    → Reads entries values
    → shorts_of (texts_of entries) ≡ ok (patterns values)
unfolding shorts_of
Reads-shorts_of [] [] reads = refl
Reads-shorts_of (e ∷ entries) (v ∷ values) reads =
    rw (reads.0, reads.1, Reads-shorts_of entries values reads.2) refl
Reads-shorts_of [] (v ∷ values) reads = absurd reads
Reads-shorts_of (e ∷ entries) [] reads = absurd reads

-- A text file whose first ten lines are these numbers.
pub record HasNumbers (file : Option (List ℕ)) (values : List (ℤ × ℤ)) : Type 0 where
  pub entries : List Entry
  pub tail : List ℕ
  pub ten : length entries ≡ number_of_samples
  pub short : AreShort entries
  pub content : file ≡ some (lines_of entries tail)
  pub reads : Reads entries values

HasNumbers-convert :
    (file : Option (List ℕ)) (values : List (ℤ × ℤ))
    → HasNumbers file values
    → convert_input_to_short file ≡ ok (patterns values)
unfolding convert_input_to_short
HasNumbers-convert file values h =
    ap (λ f. fill_input_from_file f >>= shorts_of) h.content
    ∙ (ap (λ r. r >>= shorts_of) (fill_input_from_file-lines_of h.entries h.tail h.ten h.short)
        ∙ Reads-shorts_of h.entries values h.reads)

resize-patterns :
    (values : List (ℤ × ℤ))
    → length values ≡ 10
    → resize 732 (patterns values) ≡ patterns values ++ replicate 712 0
unfolding resize
resize-patterns values ten =
    let size : length (patterns values) ≡ 20 = omega (arith, length-patterns values) in
    rw (take_all 732 (patterns values) (omega (arith, size)), size) refl

module _ (floats : FloatOps) (stof : List ℕ → Result (floats.Float))
    (same : floats.Float → floats.Float → Bool) where
  open floats use {Float, of_int16, divide, is_zero}

  -- A number as `int16_t`, divided by the norm of the test.
  abbrev pub quotient : ℤ → Float
  quotient n = divide (of_int16 (int16 (bits16 n))) (of_int16 (pos 10))

  abbrev pub quotients : List (ℤ × ℤ) → List (Complex Float)
  quotients [] = []
  quotients (v ∷ values) = record { real = quotient v.0; imag = quotient v.1 } ∷ quotients values

  -- The entries are read as the quotients of these numbers.
  abbrev pub ReadsQuotients : List Entry → List (ℤ × ℤ) → Type 0
  ReadsQuotients [] [] = Unit {0}
  ReadsQuotients (e ∷ entries) (v ∷ values) =
      (stof (e.left ++ comma ∷ []) ≡ ok (quotient v.0))
      × (stof (e.right ++ 41 ∷ []) ≡ ok (quotient v.1))
      × ReadsQuotients entries values
  ReadsQuotients _ _ = ⊥

  ReadsQuotients-floats_of :
      (entries : List Entry) (values : List (ℤ × ℤ)) (i : ℕ) (raw : List (List ℕ))
      → ReadsQuotients entries values
      → ((k : ℕ) → get_elem? raw (2 * i + k) ≡ get_elem? (texts_of entries) k)
      → floats_of floats stof same (length entries) i raw ≡ ok (quotients values)
  unfolding floats_of
  ReadsQuotients-floats_of [] [] i raw reads found = refl
  ReadsQuotients-floats_of (e ∷ entries) (v ∷ values) i raw reads found =
      let first : get_elem? raw (2 * i) ≡ some (e.left ++ comma ∷ []) =
        ap (get_elem? raw) (omega arith) ∙ found 0 in
      let rest =
        ReadsQuotients-floats_of entries values (i + 1) raw reads.2
          (λ k. ap (get_elem? raw) (omega arith) ∙ found (suc (suc k))) in
      rw (first, reads.0, found 1, reads.1, rest) refl
  ReadsQuotients-floats_of [] (v ∷ values) i raw reads found = absurd reads
  ReadsQuotients-floats_of (e ∷ entries) [] i raw reads found = absurd reads

  -- The sample at an index of a payload that begins with these numbers.
  sample-quotients :
      (values : List (ℤ × ℤ)) (pad : List ℕ) (k : ℕ)
      → k < length values
      → some (sample floats (record { norm = of_int16 (pos 10) }) (patterns values ++ pad) k)
        ≡ get_elem? (quotients values) k
  sample-quotients [] pad k h = absurd (omega arith)
  sample-quotients (v ∷ values) pad zero h = refl
  sample-quotients (v ∷ values) pad (suc k) h =
      let even : suc k * 2 ≡ suc (suc (k * 2)) = omega arith in
      let odd : suc k * 2 + 1 ≡ suc (suc (k * 2 + 1)) = omega arith in
      ap₂ (λ (m n : ℕ). some (record { real = number m; imag = number n })) even odd
      ∙ sample-quotients values pad k (omega arith)
    where
      number : ℕ → Float
      number m =
          divide (of_int16 (int16 (get_or (patterns (v ∷ values) ++ pad) m 0))) (of_int16 (pos 10))

  -- The comparison finds these numbers equal to themselves, which it does not for a NaN.
  abbrev pub SelfEqual : List (Complex Float) → Type 0
  SelfEqual [] = Unit {0}
  SelfEqual (c ∷ samples) =
      (same c.real c.real ≡ true) × (same c.imag c.imag ≡ true) × SelfEqual samples

  expect_samples-same :
      (i : ℕ) (reference output : List (Complex Float))
      → SelfEqual reference
      → ((k : ℕ) → k < length reference → get_elem? output (i + k) ≡ get_elem? reference k)
      → expect_samples floats stof same i reference output ≡ ok true
  unfolding expect_samples at
  expect_samples-same i [] output equal found = refl
  expect_samples-same i (x ∷ reference) output equal found =
      let here : get_elem? output i ≡ some x =
        ap (get_elem? output) (omega arith) ∙ found 0 (omega arith) in
      let rest =
        expect_samples-same (i + 1) reference output equal.2
          (λ k h. ap (get_elem? output) (omega arith) ∙ found (suc k) (omega arith)) in
      rw (here, rest, equal.0, equal.1) refl

  quotients-length : (values : List (ℤ × ℤ)) → length (quotients values) ≡ length values
  quotients-length [] = refl
  quotients-length (v ∷ values) = ap suc (quotients-length values)

  -- A text file whose first ten lines are the quotients.
  pub record HasQuotients (file : Option (List ℕ)) (values : List (ℤ × ℤ)) : Type 0 where
    pub entries : List Entry
    pub tail : List ℕ
    pub ten : length entries ≡ number_of_samples
    pub short : AreShort entries
    pub content : file ≡ some (lines_of entries tail)
    pub reads : ReadsQuotients entries values

  HasQuotients-convert :
      (file : Option (List ℕ)) (values : List (ℤ × ℤ))
      → HasQuotients file values
      → convert_input_to_complex_float floats stof same file ≡ ok (quotients values)
  unfolding convert_input_to_complex_float
  HasQuotients-convert file values h =
      ap (λ f. fill_input_from_file f >>= floats_of floats stof same number_of_samples 0) h.content
      ∙ (ap (λ r. r >>= floats_of floats stof same number_of_samples 0)
            (fill_input_from_file-lines_of h.entries h.tail h.ten h.short)
          ∙ (ap (λ (n : ℕ). floats_of floats stof same n 0 (texts_of h.entries)) (sym h.ten)
              ∙ ReadsQuotients-floats_of h.entries values 0 (texts_of h.entries) h.reads
                  (λ k. ap (get_elem? (texts_of h.entries)) (omega arith))))

  -- The test appliesNormToPackets passes: where the first ten lines of the one file are pairs of
  -- whole numbers, as `std::stoi` reads them, and those of the other what `std::stof` reads as their
  -- quotients by 10, the norm 10 is not a zero and the test's comparison finds each of these twenty
  -- quotients equal to itself, then nothing is thrown and each of the ten samples that the parser writes is the one of the second file.
  pub applies_norm_to_packets_passes :
      (files : Files) (values : List (ℤ × ℤ))
      → HasNumbers (files "floatsamples.in") values
      → HasQuotients (files "floatsamples.norm") values
      → is_zero (of_int16 (pos 10)) ≡ false
      → SelfEqual (quotients values)
      → applies_norm_to_packets floats stof same files ≡ ok true
  unfolding applies_norm_to_packets new_hrzr_parser
  applies_norm_to_packets_passes files values numbers divided norm_is equal =
      let blank : Complex Float = record { real = of_int16 (pos 0); imag = of_int16 (pos 0) } in
      let parser : HrzrParser floats = record { norm = of_int16 (pos 10) } in
      let payload = patterns values ++ replicate 712 0 in
      let many : length values ≡ 10 =
        Reads-length numbers.entries values numbers.reads ∙ numbers.ten in
      let parsed =
        parse_payload_samples-IsParsed floats parser 0 payload (replicate 366 blank)
          (omega (
            arith,
            length-append (patterns values) (replicate 712 0),
            length-patterns values,
            length-replicate {A = ℕ} 712 0,
            many,
          ))
          (omega (arith, length-replicate 366 blank)) (omega arith) in
      let inside : (k : ℕ)
          → k < length (quotients values)
          → get_elem? parsed.out (0 + k) ≡ get_elem? (quotients values) k =
        λ k h.
          let below : k < length values = omega (arith, h, quotients-length values) in
          ap (get_elem? parsed.out) (omega arith)
          ∙ parsed.inside k (omega arith) (omega (arith, below, many))
          ∙ sample-quotients values (replicate 712 0) k below in
      rw
        (
          HasNumbers-convert _ values numbers,
          norm_is,
          resize-patterns values many,
          parsed.returns,
          HasQuotients-convert _ values divided,
        )
        (expect_samples-same 0 (quotients values) parsed.out equal inside)
