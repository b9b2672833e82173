-- ===== src/Udp/Offset.antt =====
-- Where the samples of a data packet begin: the loop hands the whole datagram to the parser.
use native.Mathlib.Nat.{add-zero}
use rs_jerry_driver.Common.{
  ℕ, suc, ◌+◌, ◌*◌, ◌%◌, ◌^◌, ◌≤◌, ◌<◌, ◌≡◌, refl, ap, ◌∙◌, List, ◌∷◌, some, ok, int16, length,
  take_all, get_elem?, words16, arith,
}
use rs_jerry_driver.Definitions.{packet_size, samples_per_packet}
use rs_jerry_driver.Floats.{FloatOps}
use rs_jerry_driver.Parser.Loop.{sample}
use rs_jerry_driver.Udp.{Receiving, Arrival, datagram, receive_packet}
use rs_jerry_driver.Udp.Receive.{carrier, kind, IsReceived, receive_packet-IsReceived}

-- A datagram of eight header bytes and a payload.
abbrev pub packet : (b0 b1 b2 b3 b4 b5 b6 b7 : ℕ) → List ℕ → List ℕ
packet b0 b1 b2 b3 b4 b5 b6 b7 payload = b0 ∷ b1 ∷ b2 ∷ b3 ∷ b4 ∷ b5 ∷ b6 ∷ b7 ∷ payload

module _ (floats : FloatOps) (b0 b1 b2 b3 b4 b5 b6 b7 : ℕ) (payload : List ℕ) where
  open floats use {of_int16, divide}

  abbrev bytes : List ℕ
  bytes = packet b0 b1 b2 b3 b4 b5 b6 b7 payload

  -- UdpSource::getSamples decodes the header of a data packet as samples: after a datagram of
  -- eight header bytes and 1464 bytes of payload, taken as data, into a slot of the caller's array
  -- whose indices fit an `int`, the first sample of the packet's
  -- slot is made of the first four header bytes, the second of the other four, the sample at
  -- `k + 2` is the payload's sample at `k`, for every `k` below 364, and the call counts 366.
  pub receive_packet_offset :
      (packet_idx : ℕ) (queue : List Arrival) (r : Receiving floats)
      → length payload + 8 ≡ packet_size
      → r.queue ≡ datagram (packet b0 b1 b2 b3 b4 b5 b6 b7 payload) ∷ queue
      → length r.source.buf ≡ packet_size
      → kind (packet b0 b1 b2 b3 b4 b5 b6 b7 payload) ≡ carrier
      → packet_idx * samples_per_packet + samples_per_packet ≤ length r.samples
      → packet_idx * samples_per_packet + samples_per_packet ≤ 2 ^ 31
      → let parser = r.source.hrzr_parser in
        let read = λ (low high : ℕ).
          divide (of_int16 (int16 (low % 256 + 256 * (high % 256)))) parser.norm in
        (out : Receiving floats) × (receive_packet floats packet_idx r
          ≡ ok (out, samples_per_packet))
        × (get_elem? out.samples (packet_idx * samples_per_packet)
            ≡ some (record { real = read b0 b1; imag = read b2 b3 }))
        × (get_elem? out.samples (packet_idx * samples_per_packet + 1)
            ≡ some (record { real = read b4 b5; imag = read b6 b7 }))
        × ((k : ℕ)
            → k < 364
            → get_elem? out.samples (packet_idx * samples_per_packet + (k + 2))
              ≡ some (sample floats parser (words16 payload) k))
  receive_packet_offset packet_idx queue r len q b c fits small = (
    s.out,
    s.returns ∙ rw c refl,
    rw (← add-zero (packet_idx * samples_per_packet)) (decoded 0 (omega arith)),
    decoded 1 (omega arith),
    λ k h. decoded (k + 2) (omega arith) ∙ rw (real_place k, imag_place k) refl,
  )
    where
      s : IsReceived floats packet_idx bytes queue r (receive_packet floats packet_idx r)
      s = receive_packet-IsReceived floats packet_idx bytes queue r q b (λ e. cc) fits (λ e. small)

      decoded :
          (k : ℕ)
          → k < samples_per_packet
          → get_elem? s.out.samples (packet_idx * samples_per_packet + k)
            ≡ some (sample floats r.source.hrzr_parser (words16 bytes) k)
      decoded k h =
          s.inside k h
          ∙ rw c (
              ap (λ (bs : List ℕ). some (sample floats r.source.hrzr_parser (words16 bs) k))
                (take_all packet_size bytes (omega arith)))

      real_place : (k : ℕ) → (k + 2) * 2 ≡ suc (suc (suc (suc (k * 2))))
      real_place k = omega arith

      imag_place : (k : ℕ) → suc (suc (suc (suc (k * 2)))) + 1 ≡ suc (suc (suc (suc (k * 2 + 1))))
      imag_place k = omega arith
