-- ===== src/Gtest/Examples.antt =====
-- The tests on the files of gtest/dpdkSource.
use rs_jerry_driver.Common.{
  ℕ, ◌+◌, ◌-◌, ◌*◌, ◌<◌, ◌≡◌, refl, true, false, List, [], ◌∷◌, ◌++◌, none, some, ok, err,
  runtime_error, if◌then◌else◌, arith,
}
use rs_jerry_driver.Iq.Configure.{same_text}
use rs_jerry_driver.Header.{
  PacketType, data_packet, data_end_of_burst, flow_control, command, command_response,
  command_response_error, metadata,
}
use rs_jerry_driver.Header.Wire.{wire_word, control_code}
use rs_jerry_driver.Metadata.{
  no_time_sync, gps, gps_no_sync, internal_clock, external_clock, unknown_clock, get_version,
}
use rs_jerry_driver.Metadata.Wire.{time_table, clock_table, metadata_word}
use rs_jerry_driver.Gtest.{Files, at}
use rs_jerry_driver.Gtest.Binary.{
  read_words, fill_input_from_file, word_bytes, fill_input_from_file-word_bytes,
}
use rs_jerry_driver.Gtest.HeaderTest.{
  parse_packet_flags, parse_packet_flags_with_fractional_timestamp, parse_sequence_number,
  parse_reverse_sequence_number, IsHeader, HasHeaders,
}
use rs_jerry_driver.Gtest.MetadataTest.{
  parse_version, parse_time_sync_source, parse_clock_sync_source, IsMetadata, HasMetadata,
}
use rs_jerry_driver.Gtest.Words.{word_tests_pass}
use rs_jerry_driver.Gtest.ParserTest.{checks_norm, processes_one_packet, parser_tests_pass}
use rs_jerry_driver.Testing.{fractions}

-- A word of which only the first two bytes are not 0.
abbrev line : ℕ → ℕ → List ℕ
line a b = a ∷ b ∷ 0 ∷ 0 ∷ 0 ∷ 0 ∷ 0 ∷ 0 ∷ []

abbrev numbered : List ℕ
numbered = line 0 0 ++ line 16 1 ++ line 64 2 ++ line 128 3 ++ line 192 4 ++ line 208 5 ++ line 80 6

abbrev stamped : List ℕ
stamped =
    line 32 0 ++ line 48 0 ++ line 96 0 ++ line 160 0 ++ line 224 0 ++ line 240 0 ++ line 112 0

abbrev reversed : List ℕ
reversed =
    line 15 255
    ++ line 31 254
    ++ line 79 253
    ++ line 143 252
    ++ line 207 251
    ++ line 223 250
    ++ line 95 249

abbrev sources : List ℕ
sources = line 0 0 ++ line 9 128 ++ line 10 192 ++ line 7 0 ++ line 4 0 ++ line 15 0

abbrev files : Files
files name =
    if same_text name "controltypes.bin"
    then some (numbered)
    else if same_text name "controltypesWithTimestamp.bin"
    then some (stamped)
    else if same_text name "controltypesReverseSequenceNumber.bin"
    then some (reversed)
    else if same_text name "metadata_time_clock_types.bin"
    then some (sources)
    else none

packed :
    (type : PacketType) (timestamp seq : ℕ)
    → timestamp < 2
    → seq < 4096
    → IsHeader type seq (wire_word (control_code type + timestamp * 2) seq 0)
packed type timestamp seq ht hs = record {
  timestamp = timestamp;
  rest = 0;
  is_bit = ht;
  in_range = hs;
  laid_out = refl;
}

has_numbered : HasHeaders (files "controltypes.bin") (λ i. i)
unfolding wire_word control_code
has_numbered = record {
  words =
      wire_word (control_code data_packet + 0 * 2) 0 0
      ∷ wire_word (control_code data_end_of_burst + 0 * 2) 1 0
      ∷ wire_word (control_code flow_control + 0 * 2) 2 0
      ∷ wire_word (control_code command + 0 * 2) 3 0
      ∷ wire_word (control_code command_response + 0 * 2) 4 0
      ∷ wire_word (control_code command_response_error + 0 * 2) 5 0
      ∷ wire_word (control_code metadata + 0 * 2) 6 0
      ∷ [];
  tail = [];
  fit = (
    omega arith,
    (omega arith, (omega arith, (omega arith, (omega arith, (omega arith, (omega arith, tt)))))),
  );
  short = omega arith;
  content = refl;
  many = refl;
  headers = (
    packed data_packet 0 0 (omega arith) (omega arith),
    (
      packed data_end_of_burst 0 1 (omega arith) (omega arith),
      (
        packed flow_control 0 2 (omega arith) (omega arith),
        (
          packed command 0 3 (omega arith) (omega arith),
          (
            packed command_response 0 4 (omega arith) (omega arith),
            (
              packed command_response_error 0 5 (omega arith) (omega arith),
              (packed metadata 0 6 (omega arith) (omega arith), tt),
            ),
          ),
        ),
      ),
    ),
  );
}

has_stamped : HasHeaders (files "controltypesWithTimestamp.bin") (λ i. 0)
unfolding wire_word control_code
has_stamped = record {
  words =
      wire_word (control_code data_packet + 1 * 2) 0 0
      ∷ wire_word (control_code data_end_of_burst + 1 * 2) 0 0
      ∷ wire_word (control_code flow_control + 1 * 2) 0 0
      ∷ wire_word (control_code command + 1 * 2) 0 0
      ∷ wire_word (control_code command_response + 1 * 2) 0 0
      ∷ wire_word (control_code command_response_error + 1 * 2) 0 0
      ∷ wire_word (control_code metadata + 1 * 2) 0 0
      ∷ [];
  tail = [];
  fit = (
    omega arith,
    (omega arith, (omega arith, (omega arith, (omega arith, (omega arith, (omega arith, tt)))))),
  );
  short = omega arith;
  content = refl;
  many = refl;
  headers = (
    packed data_packet 1 0 (omega arith) (omega arith),
    (
      packed data_end_of_burst 1 0 (omega arith) (omega arith),
      (
        packed flow_control 1 0 (omega arith) (omega arith),
        (
          packed command 1 0 (omega arith) (omega arith),
          (
            packed command_response 1 0 (omega arith) (omega arith),
            (
              packed command_response_error 1 0 (omega arith) (omega arith),
              (packed metadata 1 0 (omega arith) (omega arith), tt),
            ),
          ),
        ),
      ),
    ),
  );
}

has_reversed : HasHeaders (files "controltypesReverseSequenceNumber.bin") (λ i. 4095 - i)
unfolding wire_word control_code
has_reversed = record {
  words =
      wire_word (control_code data_packet + 0 * 2) 4095 0
      ∷ wire_word (control_code data_end_of_burst + 0 * 2) 4094 0
      ∷ wire_word (control_code flow_control + 0 * 2) 4093 0
      ∷ wire_word (control_code command + 0 * 2) 4092 0
      ∷ wire_word (control_code command_response + 0 * 2) 4091 0
      ∷ wire_word (control_code command_response_error + 0 * 2) 4090 0
      ∷ wire_word (control_code metadata + 0 * 2) 4089 0
      ∷ [];
  tail = [];
  fit = (
    omega arith,
    (omega arith, (omega arith, (omega arith, (omega arith, (omega arith, (omega arith, tt)))))),
  );
  short = omega arith;
  content = refl;
  many = refl;
  headers = (
    packed data_packet 0 4095 (omega arith) (omega arith),
    (
      packed data_end_of_burst 0 4094 (omega arith) (omega arith),
      (
        packed flow_control 0 4093 (omega arith) (omega arith),
        (
          packed command 0 4092 (omega arith) (omega arith),
          (
            packed command_response 0 4091 (omega arith) (omega arith),
            (
              packed command_response_error 0 4090 (omega arith) (omega arith),
              (packed metadata 0 4089 (omega arith) (omega arith), tt),
            ),
          ),
        ),
      ),
    ),
  );
}

laid :
    (is_gps is_network free synced external other : _)
    → IsMetadata 0
        (time_table is_gps is_network synced)
        (clock_table external other)
        (metadata_word 0 is_gps is_network free synced external other 0 0)
laid is_gps is_network free synced external other = record {
  is_gps = is_gps;
  is_network = is_network;
  free = free;
  synced = synced;
  external = external;
  other = other;
  rest = 0;
  high = 0;
  version_below = omega arith;
  rest_below = omega arith;
  time_is = refl;
  clock_is = refl;
  laid_out = refl;
}

has_metadata : HasMetadata (files "metadata_time_clock_types.bin")
unfolding metadata_word time_table clock_table
has_metadata = record {
  first = metadata_word 0 false false false false false false 0 0;
  others =
      metadata_word 0 true false false true true false 0 0
      ∷ metadata_word 0 true false true false true true 0 0
      ∷ metadata_word 0 false true true true false false 0 0
      ∷ metadata_word 0 false true false false false false 0 0
      ∷ metadata_word 0 true true true true false false 0 0
      ∷ [];
  tail = [];
  fit =
      (omega arith, (omega arith, (omega arith, (omega arith, (omega arith, (omega arith, tt))))));
  short = omega arith;
  content = refl;
  times = (
    (0, internal_clock, laid false false false false false false),
    (
      (0, external_clock, laid true false false true true false),
      (
        (0, unknown_clock, laid true false true false true true),
        (
          (0, internal_clock, laid false true true true false false),
          (
            (0, internal_clock, laid false true false false false false),
            ((0, internal_clock, laid true true true true false false), tt),
          ),
        ),
      ),
    ),
  );
  clocks = (
    (0, no_time_sync, laid false false false false false false),
    (
      (0, gps, laid true false false true true false),
      ((0, gps_no_sync, laid true false true false true true), tt),
    ),
  );
  old = laid false false false false false false;
}

word_tests_pass_example :
    (parse_packet_flags files ≡ ok true)
    × (parse_packet_flags_with_fractional_timestamp files ≡ ok true)
    × (parse_sequence_number files ≡ ok true)
    × (parse_reverse_sequence_number files ≡ ok true)
    × (parse_version files ≡ ok true)
    × (parse_time_sync_source files ≡ ok true)
    × (parse_clock_sync_source files ≡ ok true)
word_tests_pass_example =
    word_tests_pass files (λ i. 0) has_numbered has_stamped has_reversed has_metadata

-- Three bytes behind the last word are dropped.
fill_input_from_file-word_bytes_example :
    fill_input_from_file (some (word_bytes (272 ∷ 65535 ∷ []) ++ 1 ∷ 2 ∷ 3 ∷ []))
    ≡ ok (272 ∷ 65535 ∷ [])
fill_input_from_file-word_bytes_example =
    fill_input_from_file-word_bytes (272 ∷ 65535 ∷ []) (1 ∷ 2 ∷ 3 ∷ [])
      (omega arith, (omega arith, tt)) (omega arith)

-- Without the files the tests throw; a file of another version does not pass.
no_files : parse_packet_flags (λ name. none) ≡ err runtime_error
unfolding parse_packet_flags fill_input_from_file
no_files = refl

newer : parse_version (λ name. some (line 16 0)) ≡ ok false
unfolding parse_version fill_input_from_file read_words at get_version
newer = refl

-- The fractions of the tests have a zero and a one.
with_fractions : (checks_norm fractions ≡ true) × (processes_one_packet fractions ≡ ok true)
with_fractions = parser_tests_pass fractions refl refl
