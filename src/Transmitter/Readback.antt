-- ===== src/Transmitter/Readback.antt =====
-- What the parsers of this library read in a packet that the transmitter sent.
use rs_jerry_driver.Common.{
  ℕ, ◌+◌, ◌*◌, ◌/◌, ◌%◌, ◌≤◌, ◌<◌, ◌≡◌, ap, sym, ◌∙◌, ◌↔◌, List, ok, length, take, drop, take_all,
  length-take, le_word, bytes16, words16, Are16, length-bytes16, words16-bytes16, arith,
}
use rs_jerry_driver.Definitions.{samples_per_packet}
use rs_jerry_driver.Header.{
  data_packet, control_type, get_control_from_header, get_sequence_number_from_header,
}
use rs_jerry_driver.Header.Wire.{control_nibble, get_control_lem, get_sequence_number_lem}
use rs_jerry_driver.Transmitter.{Transmitter, send_packet}
use rs_jerry_driver.Transmitter.Datagram.{datagram_of, send_packet_lem}

words16-datagram_of :
    (seq k : ℕ) (samples : List ℕ)
    → length samples ≡ k * 2
    → Are16 samples
    → words16 (drop 8 (datagram_of seq samples)) ≡ samples
unfolding drop
words16-datagram_of seq k samples even h =
    ap words16
      (take_all (length samples / 2 * 4) (bytes16 samples) (omega (arith, length-bytes16 samples)))
    ∙ words16-bytes16 samples h

header_word :
    (seq : ℕ) (samples : List ℕ)
    → seq < 4096
    → le_word (take 8 (datagram_of seq samples)) % 65536 ≡ seq
unfolding take
header_word seq samples h = omega arith

datagram_of_sequence_iff :
    (seq : ℕ) (samples : List ℕ)
    → seq < 4096
    → (get_sequence_number_from_header (le_word (take 8 (datagram_of seq samples))) ≡ seq)
      ↔ (seq / 256 ≡ seq % 256)
datagram_of_sequence_iff seq samples h = grind (
  arith,
  get_sequence_number_lem (le_word (take 8 (datagram_of seq samples))),
  header_word seq samples h,
)

data_iff : (b : ℕ) → (control_type (control_nibble b) ≡ ok data_packet) ↔ (control_nibble b ≡ 0)
unfolding control_type
data_iff b = ground arith

datagram_of_control_iff :
    (seq : ℕ) (samples : List ℕ)
    → seq < 4096
    → (get_control_from_header (le_word (take 8 (datagram_of seq samples))) ≡ ok data_packet)
      ↔ (control_nibble (seq % 256) ≡ 0)
datagram_of_control_iff seq samples h =
    let word = le_word (take 8 (datagram_of seq samples)) in
    let low : word % 256 ≡ seq % 256 = omega (arith, header_word seq samples h) in
    rw (get_control_lem, low) (data_iff (seq % 256))

module _ (memory samples : List ℕ) (t : Transmitter)
    (array : length memory ≡ samples_per_packet * 2) (few : length samples ≤ samples_per_packet * 2)
    (counter : t.current_sequence_number < 4096) where
  sent :
      {t' : Transmitter} {datagram : List ℕ}
      → send_packet memory samples t ≡ ok (t', datagram)
      → datagram_of t.current_sequence_number samples ≡ datagram
  sent h = let e = send_packet_lem memory samples t array few counter in cc

  -- Round trip of the payload: `sendPacket` with an even number of 16-bit numbers, at most 732,
  -- and a sequence number below 4096 sends a datagram whose words behind the header of 8 bytes are
  -- the numbers.
  pub send_packet_payload :
      (k : ℕ)
      → length samples ≡ k * 2
      → Are16 samples
      → (t' : Transmitter) × (datagram : List ℕ) × (send_packet memory samples t
          ≡ ok (t', datagram))
        × (words16 (drop 8 datagram) ≡ samples)
        × (length datagram ≡ 8 + k * 4)
  unfolding take
  send_packet_payload k even small = (
    _,
    datagram_of t.current_sequence_number samples,
    send_packet_lem memory samples t array few counter,
    words16-datagram_of t.current_sequence_number k samples even small,
    omega (arith, length-take (length samples / 2 * 4) (bytes16 samples), length-bytes16 samples),
  )

  -- The header that `sendPacket` writes is in the host's byte order, and the header parser of this
  -- library reads it in network order: of a packet with at most 732 numbers and a sequence number
  -- below 4096 it reads back the sequence number exactly when its high byte and its low byte are
  -- equal.
  pub send_packet_sequence_iff :
      {t' : Transmitter} {datagram : List ℕ}
      → send_packet memory samples t ≡ ok (t', datagram)
      → (get_sequence_number_from_header (le_word (take 8 datagram)) ≡ t.current_sequence_number)
        ↔ (t.current_sequence_number / 256 ≡ t.current_sequence_number % 256)
  send_packet_sequence_iff h =
      rw (sym (sent h)) (datagram_of_sequence_iff t.current_sequence_number samples counter)

  -- The type is misread too: the header parser takes such a packet, which `sendPacket` always
  -- sends as data, for data exactly when the bits 7, 6 and 4 of the sequence number's low byte are
  -- clear.
  pub send_packet_control_iff :
      {t' : Transmitter} {datagram : List ℕ}
      → send_packet memory samples t ≡ ok (t', datagram)
      → (get_control_from_header (le_word (take 8 datagram)) ≡ ok data_packet)
        ↔ (control_nibble (t.current_sequence_number % 256) ≡ 0)
  send_packet_control_iff h =
      rw (sym (sent h)) (datagram_of_control_iff t.current_sequence_number samples counter)
