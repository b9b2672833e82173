-- ===== src/Metadata/Examples.antt =====
-- The metadata parser on concrete words.
use rs_jerry_driver.Common.{◌≡◌, refl, true, false, arith}
use rs_jerry_driver.Metadata.{
  network, unknown_clock, get_version, get_time_sync_source, get_clock_sync_source,
}
use rs_jerry_driver.Metadata.Wire.{metadata_word, time_table, clock_table, metadata_fields}

words :
    (get_version 0x4027 ≡ 2)
    × (get_time_sync_source 0x4027 ≡ network)
    × (get_clock_sync_source 0x4027 ≡ unknown_clock)
unfolding get_version get_time_sync_source get_clock_sync_source
words = (refl, refl, refl)

metadata_fields_example :
    let word = metadata_word 2 false true true true false true 0 0 in
    (get_version word ≡ 2)
    × (get_time_sync_source word ≡ network)
    × (get_clock_sync_source word ≡ unknown_clock)
unfolding time_table clock_table
metadata_fields_example =
    metadata_fields 2 0 0 false true true true false true (omega arith) (omega arith)
