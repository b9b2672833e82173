-- ===== src/Header.antt =====
-- HrzrHeaderParser (include/iqClient/dpdkSource/hrzrHeaderParser.h and
-- src/dpdkSource/hrzrHeaderParser.cc). A header is the 64-bit word that a little-endian host reads.
pub mod Wire
mod Examples
use rs_jerry_driver.Common.{
  ℕ, Result, ok, err, invalid_hrzr_header, bit_and, u8, u16, shr, ntohs, if◌then◌else◌, ◌==◌,
}

pub data PacketType : Type 0 where
  data_packet data_end_of_burst flow_control command command_response : PacketType
  command_response_error metadata : PacketType

-- The `switch` on the control field.
unfoldable pub control_type : ℕ → Result PacketType
control_type control =
    if control == 0x00
    then ok data_packet
    else if control == 0x01
    then ok data_end_of_burst
    else if control == 0x04
    then ok flow_control
    else if control == 0x08
    then ok command
    else if control == 0x0C
    then ok command_response
    else if control == 0x0D
    then ok command_response_error
    else if control == 0x05
    then ok metadata
    else err invalid_hrzr_header

unfoldable pub get_control_from_header : ℕ → Result PacketType
get_control_from_header hrzr = control_type (shr (bit_and (u8 hrzr) 0xD0) 4)

unfoldable pub get_sequence_number_from_header : ℕ → ℕ
get_sequence_number_from_header hrzr = ntohs (bit_and (u16 hrzr) 0xFF0F)
