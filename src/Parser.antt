-- ===== src/Parser.antt =====
-- HrzrParser (include/iqClient/dpdkSource/hrzrParser.h and src/dpdkSource/hrzrParser.cc).
-- The payload is read as `int16_t` patterns and the samples are the caller's array; an access
-- outside either is undefined behaviour, and so is an index that does not fit an `int`.
pub mod Loop
mod Examples
use rs_jerry_driver.Common.{
  ℕ, zero, suc, ◌+◌, ◌*◌, List, Option, none, some, Result, ok, err, defined, ◌>>=◌, invalid_value,
  undefined, checked_int, int16, get_elem?, set, if◌then◌else◌,
}
use rs_jerry_driver.Definitions.{samples_per_packet}
use rs_jerry_driver.Floats.{FloatOps, Complex}

module _ (floats : FloatOps) where
  open floats use {Float, is_zero, of_int16, divide}

  -- An object of the class HrzrParser.
  pub record HrzrParser : Type 0 where
    pub norm : Float

  -- The constructor.
  unfoldable pub new_hrzr_parser : Float → Result HrzrParser
  new_hrzr_parser norm = if is_zero norm then err invalid_value else ok (record { norm = norm })

  -- `samples[i].real(x)` and `samples[i].imag(x)`
  unfoldable pub set_real : List (Complex Float) → ℕ → Float → Result (List (Complex Float))
  set_real samples i x = do
    c ← defined (get_elem? samples i)
    ok (set samples i (record c { real = x }))

  unfoldable pub set_imag : List (Complex Float) → ℕ → Float → Result (List (Complex Float))
  set_imag samples i x = do
    c ← defined (get_elem? samples i)
    ok (set samples i (record c { imag = x }))

  module _ (parser : HrzrParser) (packet_idx : ℕ) (payload : List ℕ) where
    -- `payload[i] / norm`
    unfoldable pub scaled : ℕ → Result Float
    scaled i = do
      word ← defined (get_elem? payload i)
      ok (divide (of_int16 (int16 word)) parser.norm)

    -- The body of the loop.
    unfoldable pub parse_sample : ℕ → List (Complex Float) → Result (List (Complex Float))
    unfolding scaled set_real set_imag
    parse_sample sample_idx_packet samples = do
      re ← scaled (sample_idx_packet * 2)
      place ← checked_int (packet_idx * samples_per_packet + sample_idx_packet)
      samples' ← set_real samples place re
      im ← scaled (sample_idx_packet * 2 + 1)
      set_imag samples' place im

    -- The loop from an index on, with the rounds that are left.
    unfoldable pub parse_from : ℕ → ℕ → ℕ → List (Complex Float) → Result (List (Complex Float) × ℕ)
    parse_from zero sample_idx_packet total samples = ok (samples, total)
    parse_from (suc left) sample_idx_packet total samples = do
      samples' ← parse_sample sample_idx_packet samples
      parse_from left (sample_idx_packet + 1) (total + 1) samples'

    unfoldable pub parse_payload_samples : List (Complex Float) → Result (List (Complex Float) × ℕ)
    parse_payload_samples samples = parse_from samples_per_packet 0 0 samples
