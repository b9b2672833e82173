-- ===== src/Transmitter/Datagram.antt =====
-- The datagram that `sendPacket` sends, and what the receiving side of this library reads in it.
use rs_jerry_driver.Common.{
  ℕ, suc, ◌+◌, ◌*◌, ◌/◌, ◌%◌, ◌^◌, ◌≤◌, ◌<◌, ◌≡◌, refl, List, ◌∷◌, ◌++◌, ok, err, undefined, u16,
  bit_or, bytes16, length-bytes16, bytes16-append, length, take, drop, length-append,
  take-append_le, leb, leb-true, leb-false, arith, true,
}
use rs_jerry_driver.Common.Bits.{zero-bit_or}
use rs_jerry_driver.Definitions.{samples_per_packet}
use rs_jerry_driver.Header.{}
use rs_jerry_driver.Transmitter.{
  Transmitter, HrzrPacket, make_hrzr_packet, packet_bytes, send, make_hrzr_header,
  make_hrzr_payload, send_packet, next_sequence_number,
}

-- The datagram for a sequence number and some samples: the two header words in the host's byte
-- order, four zeros, and the bytes of the complete samples.
abbrev pub datagram_of : ℕ → List ℕ → List ℕ
datagram_of seq samples =
    let len = 8 + length samples / 2 * 4 in
    seq % 256
    ∷ seq / 256
    ∷ len % 256
    ∷ len / 256
    ∷ 0
    ∷ 0
    ∷ 0
    ∷ 0
    ∷ take (length samples / 2 * 4) (bytes16 samples)

-- The structure that `makeHrzrPacket` builds of a header for such samples.
abbrev packet_of : List ℕ → ℕ → List ℕ → HrzrPacket
packet_of memory seq samples = record {
  ctrl_and_seq_nb = seq;
  total_pck_len = 8 + length samples / 2 * 4;
  src_id = 0;
  samples = samples ++ drop (length samples) memory;
}

packet_of_lem :
    (memory samples : List ℕ) (t : Transmitter)
    → length samples ≤ samples_per_packet * 2
    → t.current_sequence_number < 4096
    → make_hrzr_packet memory (make_hrzr_header t (length samples / 2)) (make_hrzr_payload samples)
      ≡ ok (packet_of memory t.current_sequence_number samples)
unfolding make_hrzr_packet make_hrzr_header make_hrzr_payload
packet_of_lem memory samples t hs hq =
    let seq = t.current_sequence_number in
    let word : u16 (bit_or (0 * 2 ^ 12) seq) ≡ seq = omega (arith, zero-bit_or seq) in
    let len : u16 (8 + length samples / 2 * 4) ≡ 8 + length samples / 2 * 4 = omega arith in
    rw (leb-true (length samples) 732 hs, word, len) refl

take_eight :
    (n a b c d e f g h : ℕ) (xs : List ℕ)
    → take (8 + n) (a ∷ b ∷ c ∷ d ∷ e ∷ f ∷ g ∷ h ∷ xs) ≡ a ∷ b ∷ c ∷ d ∷ e ∷ f ∷ g ∷ h ∷ take n xs
unfolding take
take_eight n a b c d e f g h xs =
    let eight : 8 + n ≡ suc (suc (suc (suc (suc (suc (suc (suc n))))))) = omega arith in
    rw eight refl

send-packet_of :
    (memory samples : List ℕ) (seq : ℕ)
    → length memory ≡ samples_per_packet * 2
    → length samples ≤ samples_per_packet * 2
    → seq < 4096
    → send (packet_of memory seq samples) ≡ ok (datagram_of seq samples)
unfolding send
send-packet_of memory samples seq hm hs hq =
    let len = 8 + length samples / 2 * 4 in
    let high : seq / 256 % 256 ≡ seq / 256 = omega arith in
    let len_high : len / 256 % 256 ≡ len / 256 = omega arith in
    let array = samples ++ drop (length samples) memory in
    let fits : len ≤ 8 + length (bytes16 array) =
      omega (arith, length-bytes16 array, length-append samples (drop (length samples) memory)) in
    let enough : leb len (length (packet_bytes (packet_of memory seq samples))) ≡ true =
      leb-true len (length (packet_bytes (packet_of memory seq samples))) (omega (arith, fits)) in
    rw
      (
        enough,
        take_eight,
        bytes16-append,
        take-append_le (length samples / 2 * 4) (bytes16 samples)
            (bytes16 (drop (length samples) memory)) (omega (arith, length-bytes16 samples)),
        high,
        len_high,
      )
      refl

module _ (memory samples : List ℕ) (t : Transmitter) where
  -- `sendPacket` with at most 732 numbers (366 samples) and a sequence number below 4096 sends
  -- one datagram, of exactly the length that its header names, and only counts the sequence
  -- number on.
  pub send_packet_lem :
      length memory ≡ samples_per_packet * 2
      → length samples ≤ samples_per_packet * 2
      → t.current_sequence_number < 4096
      → send_packet memory samples t
        ≡ ok (
          record t { current_sequence_number = next_sequence_number t.current_sequence_number },
          datagram_of t.current_sequence_number samples,
        )
  unfolding send_packet
  send_packet_lem hm hs hq =
      rw
        (
          packet_of_lem memory samples t hs hq,
          send-packet_of memory samples t.current_sequence_number hm hs hq,
        )
        refl

  -- `sendPacket` with more than 732 numbers copies past the end of the structure.
  pub send_packet_overflow :
      samples_per_packet * 2 < length samples → send_packet memory samples t ≡ err undefined
  unfolding send_packet make_hrzr_packet make_hrzr_payload
  send_packet_overflow h = rw (leb-false (length samples) 732 h) refl
