-- ===== src/Definitions.antt =====
-- The constants of include/iqClient/common/definitions.h.
use rs_jerry_driver.Common.{ℕ, ◌/◌}

abbrev pub nr_queues : ℕ
nr_queues = 1

abbrev pub ring_size : ℕ
ring_size = 4096

abbrev pub packet_size : ℕ
packet_size = 1472

abbrev pub payload_size : ℕ
payload_size = 1464

abbrev pub sample_size_in_byte : ℕ
sample_size_in_byte = 4

abbrev pub samples_per_packet : ℕ
samples_per_packet = payload_size / sample_size_in_byte
