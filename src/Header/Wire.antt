-- ===== src/Header/Wire.antt =====
-- The header against the layout that README.md draws: four control bits, twelve bits of sequence
-- number, most significant byte first, then the length and the address.
use rs_jerry_driver.Common.{
  ℕ, ◌+◌, ◌*◌, ◌/◌, ◌%◌, ◌<◌, ◌≡◌, refl, sym, ap, ◌∙◌, ◌↔◌, ◌⊎◌, ok, err, invalid_hrzr_header,
  bit_and, shr, arith, ◌==◌, ==_iff,
}
use rs_jerry_driver.Common.Bits.{all_below, all_below_sound}
use rs_jerry_driver.Header.{
  PacketType, data_packet, data_end_of_burst, flow_control, command, command_response,
  command_response_error, metadata, control_type, get_control_from_header,
  get_sequence_number_from_header,
}

-- The word read from the bytes of a header: control and sequence number fill the first two bytes,
-- and `rest` is what the other six bytes hold.
unfoldable pub wire_word : ℕ → ℕ → ℕ → ℕ
wire_word control seq rest = control * 16 + seq / 256 + 256 * (seq % 256) + 65536 * rest

-- The control bits of each type, with the third bit (the fractional timestamp) clear.
unfoldable pub control_code : PacketType → ℕ
control_code data_packet = 0
control_code data_end_of_burst = 1
control_code flow_control = 4
control_code command = 8
control_code command_response = 12
control_code command_response_error = 13
control_code metadata = 5

-- The mask drops the third of the four control bits.
abbrev pub control_nibble : ℕ → ℕ
control_nibble b = b / 64 * 4 + b / 16 % 2

control_mask : (b : ℕ) → b < 256 → shr (bit_and b 0xD0) 4 ≡ control_nibble b
control_mask b h =
    (==_iff _ _).0
      (all_below_sound 256 (λ x. shr (bit_and x 0xD0) 4 == (x / 64 * 4 + x / 16 % 2)) b refl h)

-- The control field is read from the first byte with its third bit dropped.
pub get_control_lem : (w : ℕ) → get_control_from_header w ≡ control_type (control_nibble (w % 256))
unfolding get_control_from_header
get_control_lem w = ap control_type (control_mask (w % 256) (omega arith))

byte_masks :
    (high low : ℕ)
    → high < 256
    → low < 256
    → bit_and (high * 256 + low) 0xFF0F ≡ high * 256 + low % 16
byte_masks high low hh hl =
    let rows =
      all_below_sound 256
        (λ h. all_below 256 (λ l. bit_and (h * 256 + l) 0xFF0F == h * 256 + l % 16)) high refl hh in
    (==_iff _ _).0 (
      all_below_sound 256 (λ l. bit_and (high * 256 + l) 0xFF0F == high * 256 + l % 16) low rows hl)

sequence_mask : (w : ℕ) → w < 65536 → bit_and w 0xFF0F ≡ w / 256 * 256 + w % 256 % 16
sequence_mask w h =
    let split : w / 256 * 256 + w % 256 ≡ w = omega arith in
    ap (λ (n : ℕ). bit_and n 0xFF0F) (sym split)
    ∙ byte_masks (w / 256) (w % 256) (omega arith) (omega arith)

-- The sequence number: the low half of the first byte, then the second byte.
pub get_sequence_number_lem :
    (w : ℕ) → get_sequence_number_from_header w ≡ w % 16 * 256 + w / 256 % 256
unfolding get_sequence_number_from_header
get_sequence_number_lem w = ground (arith, sequence_mask (w % 65536))

-- Reading a header back: from a word laid out with a sequence number below 4096 under any control
-- bits, `getSequenceNumberFromHeader` returns that number.
pub get_sequence_number-wire_word :
    (control seq rest : ℕ)
    → control < 16
    → seq < 4096
    → get_sequence_number_from_header (wire_word control seq rest) ≡ seq
unfolding wire_word
get_sequence_number-wire_word control seq rest hc hs =
    omega (arith, get_sequence_number_lem (wire_word control seq rest))

-- Reading a header back: with the control bits of a packet type, its timestamp bit (value 2) clear
-- or set, and a sequence number below 4096, `getControlFromHeader` returns that type.
pub get_control-wire_word :
    (type : PacketType) (timestamp seq rest : ℕ)
    → timestamp < 2
    → seq < 4096
    → get_control_from_header (wire_word (control_code type + timestamp * 2) seq rest) ≡ ok type
get_control-wire_word type timestamp seq rest ht hs =
    get_control_lem _ ∙ ap control_type (nibble type) ∙ known type
  where
    code_bits :
        (t : PacketType)
        → (control_code t / 4 * 4 + control_code t % 2 ≡ control_code t)
          × (control_code t < 16)
          × (control_code t / 2 % 2 ≡ 0)
    code_bits data_packet = unfold control_code in omega arith
    code_bits data_end_of_burst = unfold control_code in omega arith
    code_bits flow_control = unfold control_code in omega arith
    code_bits command = unfold control_code in omega arith
    code_bits command_response = unfold control_code in omega arith
    code_bits command_response_error = unfold control_code in omega arith
    code_bits metadata = unfold control_code in omega arith

    nibble :
        (t : PacketType)
        → control_nibble (wire_word (control_code t + timestamp * 2) seq rest % 256)
          ≡ control_code t
    nibble t = unfold wire_word in omega (arith, code_bits t)

    known : (t : PacketType) → control_type (control_code t) ≡ ok t
    known data_packet = unfold control_code control_type in refl
    known data_end_of_burst = unfold control_code control_type in refl
    known flow_control = unfold control_code control_type in refl
    known command = unfold control_code control_type in refl
    known command_response = unfold control_code control_type in refl
    known command_response_error = unfold control_code control_type in refl
    known metadata = unfold control_code control_type in refl

pub control_code_below : (type : PacketType) → control_code type + 2 < 16
unfolding control_code
control_code_below data_packet = omega arith
control_code_below data_end_of_burst = omega arith
control_code_below flow_control = omega arith
control_code_below command = omega arith
control_code_below command_response = omega arith
control_code_below command_response_error = omega arith
control_code_below metadata = omega arith

-- Both fields of a header read back: from a word laid out with the control bits of a packet type,
-- its timestamp bit clear or set, a sequence number below 4096 and any later bytes,
-- `getControlFromHeader` returns that type and `getSequenceNumberFromHeader` that number.
pub header_fields :
    (type : PacketType) (timestamp seq rest : ℕ)
    → timestamp < 2
    → seq < 4096
    → let word = wire_word (control_code type + timestamp * 2) seq rest in
      (get_control_from_header word ≡ ok type) × (get_sequence_number_from_header word ≡ seq)
header_fields type timestamp seq rest ht hs = (
  get_control-wire_word type timestamp seq rest ht hs,
  get_sequence_number-wire_word (control_code type + timestamp * 2) seq rest
      (omega (arith, control_code_below type)) hs,
)

-- `getControlFromHeader` throws InvalidHrzrHeader exactly on the words whose control bits are 1001
-- or 1011, and on no other word.
pub get_control_throws_iff :
    (w : ℕ)
    → (get_control_from_header w ≡ err invalid_hrzr_header)
      ↔ ((w / 16 % 16 ≡ 9) ⊎ (w / 16 % 16 ≡ 11))
unfolding control_type
get_control_throws_iff w = ground (arith, get_control_lem w)
