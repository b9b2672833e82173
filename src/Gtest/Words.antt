-- ===== src/Gtest/Words.antt =====
-- The tests of the parsers of words together.
use rs_jerry_driver.Common.{ℕ, ◌-◌, ◌≡◌, true, ok}
use rs_jerry_driver.Gtest.{Files}
use rs_jerry_driver.Gtest.HeaderTest.{
  parse_packet_flags, parse_packet_flags_with_fractional_timestamp, parse_sequence_number,
  parse_reverse_sequence_number, HasHeaders, header_tests_pass,
}
use rs_jerry_driver.Gtest.MetadataTest.{
  parse_version, parse_time_sync_source, parse_clock_sync_source, HasMetadata, metadata_tests_pass,
}

-- The tests of the header parser and of the metadata parser pass on all files of the kinds that they
-- are meant for. The first three files hold headers of all types in the order of the enumeration,
-- those of the first numbered upwards from 0 and those of the third downwards from 4095; the last
-- holds words by the tables of README.md, with all time sync sources and all clock sync sources in
-- their order and the version 0 first. Then all expectations of the seven tests hold and none throws,
-- whatever the timestamp bits, the later bytes of the headers, the numbers of the second file and the
-- padding of the metadata words are.
pub word_tests_pass :
    (files : Files) (number : ℕ → ℕ)
    → HasHeaders (files "controltypes.bin") (λ i. i)
    → HasHeaders (files "controltypesWithTimestamp.bin") number
    → HasHeaders (files "controltypesReverseSequenceNumber.bin") (λ i. 4095 - i)
    → HasMetadata (files "metadata_time_clock_types.bin")
    → (parse_packet_flags files ≡ ok true)
      × (parse_packet_flags_with_fractional_timestamp files ≡ ok true)
      × (parse_sequence_number files ≡ ok true)
      × (parse_reverse_sequence_number files ≡ ok true)
      × (parse_version files ≡ ok true)
      × (parse_time_sync_source files ≡ ok true)
      × (parse_clock_sync_source files ≡ ok true)
word_tests_pass files number up stamped down sources =
    let headers = header_tests_pass files number up stamped down in
    let words = metadata_tests_pass files sources in
    (headers.0, headers.1, headers.2, headers.3, words.0, words.1, words.2)
