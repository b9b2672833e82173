-- ===== src/Gtest/ParserTest.antt =====
-- gtest/dpdkSource/hrzrParserTest.cc: the tests checksNorm and processesOnePacket.
use rs_jerry_driver.Common.{
  ℕ, pos, ◌*◌, ◌≡◌, refl, Bool, true, false, Result, ok, err, ◌>>=◌, invalid_value, ◌==◌, replicate,
  length-replicate, arith,
}
use rs_jerry_driver.Definitions.{samples_per_packet}
use rs_jerry_driver.Floats.{FloatOps, Complex}
use rs_jerry_driver.Parser.{new_hrzr_parser, parse_payload_samples}
use rs_jerry_driver.Parser.Loop.{parse_payload_samples-IsParsed}

-- Whether a call threw InvalidValueError.
abbrev pub thrown {ℓ} : {A : Type ℓ} → Result A → Bool
thrown (err invalid_value) = true
thrown _ = false

module _ (floats : FloatOps) where
  open floats use {Float, is_zero, of_int16}

  unfoldable pub checks_norm : Bool
  checks_norm = thrown (new_hrzr_parser floats (of_int16 (pos 0)))

  -- The two vectors are full of zeros.
  unfoldable pub processes_one_packet : Result Bool
  processes_one_packet = do
    let payload = replicate (samples_per_packet * 2) 0
    let samples =
        replicate samples_per_packet (record { real = of_int16 (pos 0); imag = of_int16 (pos 0) })
    parser ← new_hrzr_parser floats (of_int16 (pos 1))
    processed ← parse_payload_samples floats parser 0 payload samples
    ok (samples_per_packet == processed.1)

  -- The tests checksNorm and processesOnePacket pass for all floats of which 0 is a zero and 1 is
  -- not: the norm 0 is refused, and a packet of 732 numbers gives 366 samples without an exception
  -- and without an access outside the arrays.
  pub parser_tests_pass :
      is_zero (of_int16 (pos 0)) ≡ true
      → is_zero (of_int16 (pos 1)) ≡ false
      → (checks_norm ≡ true) × (processes_one_packet ≡ ok true)
  unfolding checks_norm processes_one_packet new_hrzr_parser
  parser_tests_pass zero_is one_is =
      let blank : Complex Float = record { real = of_int16 (pos 0); imag = of_int16 (pos 0) } in
      let parsed =
        parse_payload_samples-IsParsed floats (record { norm = of_int16 (pos 1) }) 0
          (replicate (samples_per_packet * 2) 0) (replicate samples_per_packet blank)
          (omega (arith, length-replicate {A = ℕ} 732 0))
          (omega (arith, length-replicate 366 blank)) (omega arith) in
      (rw zero_is refl, rw (one_is, parsed.returns) refl)
