-- ===== src/Iq/Payload.antt =====
-- IqClient::SendPayload (src/iqClient/iqClient.cc), for a number of samples that is not negative;
-- the vector's constructor throws for any other.
use rs_jerry_driver.Common.{
  ℕ, zero, suc, ◌+◌, ◌*◌, ◌≤◌, ◌<◌, ◌≡◌, refl, ◌∙◌, ◌⊎◌, inl, true, ℤ, List, some, Result, ok, err,
  ◌>>=◌, defined, undefined, ltb, bits16, length, get_elem?, set, length-set, get_elem?-set_self,
  get_elem?-set_ne, replicate, length-replicate, dec_lt, if◌then◌else◌, arith,
}
use rs_jerry_driver.Definitions.{samples_per_packet}
use rs_jerry_driver.Floats.{FloatOps, Complex}
use rs_jerry_driver.Transmitter.{Transmitter, send_packet, next_sequence_number}
use rs_jerry_driver.Transmitter.Datagram.{datagram_of, send_packet_lem}

-- `smpl[i] = v`
unfoldable pub write_at : ℕ → ℕ → List ℕ → Result (List ℕ)
write_at i v smpl = if ltb i (length smpl) then ok (set smpl i v) else err undefined

module _ (floats : FloatOps) where
  open floats use {Float, to_int16}

  -- The body of the loop.
  unfoldable pub convert_sample : List (Complex Float) → ℕ → List ℕ → Result (List ℕ)
  unfolding write_at
  convert_sample samples i smpl = do
    c ← defined (get_elem? samples i)
    re ← defined (to_int16 c.real)
    smpl' ← write_at (2 * i) (bits16 re) smpl
    im ← defined (to_int16 c.imag)
    write_at (2 * i + 1) (bits16 im) smpl'

  -- The loop from an index on, with the rounds that are left.
  unfoldable pub convert_from : ℕ → ℕ → List (Complex Float) → List ℕ → Result (List ℕ)
  convert_from zero i samples smpl = ok smpl
  convert_from (suc left) i samples smpl = do
    smpl' ← convert_sample samples i smpl
    convert_from left (i + 1) samples smpl'

  unfoldable pub send_payload :
      List ℕ → List (Complex Float) → ℕ → Transmitter → Result (Transmitter × List ℕ)
  send_payload memory samples number_of_samples t = do
    smpl ← convert_from number_of_samples 0 samples (replicate (number_of_samples * 2) 0)
    send_packet memory smpl t

  -- There is a sample at the index, and `int16_t` can represent both its parts.
  pub record CanConvert (samples : List (Complex Float)) (k : ℕ) : Type 0 where
    pub c : Complex Float
    pub re : ℤ
    pub im : ℤ
    pub found : get_elem? samples k ≡ some c
    pub real_fits : to_int16 c.real ≡ some re
    pub imag_fits : to_int16 c.imag ≡ some im

  -- The two numbers of a sample.
  pub record HasSample (samples : List (Complex Float)) (smpl : List ℕ) (k : ℕ) : Type 0 where
    pub c : Complex Float
    pub found : get_elem? samples k ≡ some c
    pub real : ℤ
    pub imag : ℤ
    pub real_is : to_int16 c.real ≡ some real
    pub imag_is : to_int16 c.imag ≡ some imag
    pub re : get_elem? smpl (2 * k) ≡ some (bits16 real)
    pub im : get_elem? smpl (2 * k + 1) ≡ some (bits16 imag)

  convert_sample_lem :
      (samples : List (Complex Float)) (i : ℕ) (smpl : List ℕ)
      → CanConvert samples i
      → 2 * i + 1 < length smpl
      → (out : List ℕ) × (convert_sample samples i smpl ≡ ok out)
        × (length out ≡ length smpl)
        × HasSample samples out i
        × ((j : ℕ) → (j < 2 * i) ⊎ (2 * i + 2 ≤ j) → get_elem? out j ≡ get_elem? smpl j)
  unfolding convert_sample write_at
  convert_sample_lem samples i smpl can hp =
      let re = bits16 can.re in
      let im = bits16 can.im in
      let first = set smpl (2 * i) re in
      let size : length first ≡ length smpl = length-set smpl (2 * i) re in
      let first_fits : ltb (2 * i) (length smpl) ≡ true = ground arith in
      let second_fits : ltb (2 * i + 1) (length first) ≡ true = ground (arith, size) in
      (
        set first (2 * i + 1) im,
        rw (can.found, can.real_fits, first_fits, can.imag_fits, second_fits) refl,
        length-set first (2 * i + 1) im ∙ size,
        record {
          c = can.c;
          found = can.found;
          real = can.re;
          imag = can.im;
          real_is = can.real_fits;
          imag_is = can.imag_fits;
          re =
              get_elem?-set_ne first (2 * i + 1) (2 * i) im (λ e. omega arith)
              ∙ get_elem?-set_self smpl (2 * i) re (omega arith);
          im = get_elem?-set_self first (2 * i + 1) im (omega (arith, size));
        },
        λ j h.
            get_elem?-set_ne first (2 * i + 1) j im (λ e. omega arith)
            ∙ get_elem?-set_ne smpl (2 * i) j re (λ e. omega arith),
      )

  pub convert_from_lem :
      (left i : ℕ) (samples : List (Complex Float)) (smpl : List ℕ)
      → ((k : ℕ) → i ≤ k → k < i + left → CanConvert samples k)
      → 2 * (i + left) ≤ length smpl
      → (out : List ℕ) × (convert_from left i samples smpl ≡ ok out)
        × (length out ≡ length smpl)
        × ((k : ℕ) → i ≤ k → k < i + left → HasSample samples out k)
        × ((j : ℕ) → j < 2 * i → get_elem? out j ≡ get_elem? smpl j)
  unfolding convert_from
  convert_from_lem zero i samples smpl can hp =
      (smpl, refl, refl, λ k ge lt. absurd (omega arith), λ j h. refl)
  convert_from_lem (suc left) i samples smpl can hp =
      let (mid, step, size, here, before) =
        convert_sample_lem samples i smpl (can i (omega arith) (omega arith)) (omega arith) in
      let (out, rest, size', later, before') =
        convert_from_lem left (i + 1) samples mid (λ k ge lt. can k (omega arith) (omega arith))
          (omega (arith, size)) in
      (
        out,
        rw (step, rest) refl,
        size' ∙ size,
        λ k ge lt. elim (dec_lt i k) [
          | yes past ↦ later k (omega arith) (omega arith)
          | no here_still ↦
              let e : k ≡ i = omega arith in
              rw e (record {
                c = here.c;
                found = here.found;
                real = here.real;
                imag = here.imag;
                real_is = here.real_is;
                imag_is = here.imag_is;
                re = before' (2 * i) (omega arith) ∙ here.re;
                im = before' (2 * i + 1) (omega arith) ∙ here.im;
              })
        ],
        λ j h. before' j (omega arith) ∙ before j (inl h),
      )

  -- SendPayload of at most 366 samples, from an array that holds as many, with real and imaginary
  -- parts that `int16_t` can represent, by a transmitter whose sequence number is below 4096: one datagram is sent, the one for the numbers `out`; these are
  -- twice as many as the samples, and hold the real and the imaginary part of every sample in
  -- turn, converted to `int16_t`; the transmitter only counts its sequence number on.
  pub send_payload_lem :
      (memory : List ℕ) (samples : List (Complex Float)) (n : ℕ) (t : Transmitter)
      → length memory ≡ samples_per_packet * 2
      → n ≤ samples_per_packet
      → ((k : ℕ) → k < n → CanConvert samples k)
      → t.current_sequence_number < 4096
      → (out : List ℕ) × (length out ≡ n * 2)
        × ((k : ℕ) → k < n → HasSample samples out k)
        × (send_payload memory samples n t
            ≡ ok (
              record t { current_sequence_number = next_sequence_number t.current_sequence_number },
              datagram_of t.current_sequence_number out,
            ))
  unfolding send_payload
  send_payload_lem memory samples n t array few can counter =
      let size = length-replicate {A = ℕ} (n * 2) 0 in
      let (out, converted, size', inside, before) =
        convert_from_lem n 0 samples (replicate (n * 2) 0) (λ k ge lt. can k (omega arith))
          (omega (arith, size)) in
      (
        out,
        size' ∙ size,
        λ k h. inside k (omega arith) (omega arith),
        rw converted (send_packet_lem memory out t array (omega (arith, size', size)) counter),
      )
