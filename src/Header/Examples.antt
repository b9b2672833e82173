-- ===== src/Header/Examples.antt =====
-- The header parser on concrete words, of the kinds that gtest/dpdkSource/hrzrHeaderParserTest.cc
-- reads.
use rs_jerry_driver.Common.{◌≡◌, refl, ok, err, invalid_hrzr_header, arith}
use rs_jerry_driver.Header.{
  command_response_error, metadata, get_control_from_header, get_sequence_number_from_header,
  control_type,
}
use rs_jerry_driver.Header.Wire.{wire_word, control_code, header_fields}

words :
    (get_control_from_header 0xD5 ≡ ok command_response_error)
    × (get_control_from_header 0x90 ≡ err invalid_hrzr_header)
    × (get_sequence_number_from_header 0xFF0F ≡ 4095)
    × (get_sequence_number_from_header 0x0600 ≡ 6)
unfolding get_control_from_header control_type get_sequence_number_from_header
words = (refl, refl, refl, refl)

header_fields_example :
    (get_control_from_header (wire_word 7 300 0xABCD) ≡ ok metadata)
    × (get_sequence_number_from_header (wire_word 7 300 0xABCD) ≡ 300)
unfolding control_code
header_fields_example = header_fields metadata 1 300 0xABCD (omega arith) (omega arith)
