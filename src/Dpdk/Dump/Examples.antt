-- ===== src/Dpdk/Dump/Examples.antt =====
-- The dump on concrete bursts.
use rs_jerry_driver.Common.{
  ℕ, zero, suc, ◌≡◌, refl, pos, true, false, List, [], ◌∷◌, ◌++◌, some, ok, err, ◌>>=◌, undefined,
  take, map, inl, inr, arith,
}
use rs_jerry_driver.Testing.{fractions, list_rings, unit}
use rs_jerry_driver.Header.{
  data_packet, flow_control, metadata, get_control_from_header, control_type,
}
use rs_jerry_driver.Dpdk.{Mbuf, StreamAttr, is_valid_packet_type}
use rs_jerry_driver.Dpdk.Dump.{
  DumpState, dump_burst_event, dump_stop, hex_digit, hex, hex_words, is_metadata, pop_words, pop_if,
  write_line, write_lines, read_words, track, flush, dump_packet, dump_burst, dump_loop,
  dump_thread,
}
use rs_jerry_driver.Dpdk.Rx.{flow_flush, dev_stop, dev_close}
use rs_jerry_driver.Dpdk.Dump.Lines.{IsTracked, no_queues, lines, headers, payloads, metas}
use rs_jerry_driver.Dpdk.Dump.File.{IsDumped}
use rs_jerry_driver.Dpdk.Dump.Loop.{IsWritten, dump_thread-IsWritten}
use rs_jerry_driver.Dpdk.Dump.Readback.{parts, read_line, write_lines-read_line}
use rs_jerry_driver.Dpdk.Dump.Lost.{IsStray, IsData, dump_burst-lost, dump_burst-stray}

abbrev zeros : ℕ → List ℕ
zeros zero = []
zeros (suc n) = 0 ∷ zeros n

abbrev stream : StreamAttr fractions list_rings
stream = record {
  l_cores = (pos 0, pos 24);
  dpdk_port_id = pos 7;
  udp_rx_port = 5000;
  mbuf_pool = some 0;
  ring = some [];
}

abbrev state : DumpState fractions list_rings
state = record {
  source = record {
    hrzr_parser = record { norm = unit };
    streams = stream ∷ [];
    num_streams = 1;
    quit = false;
    total_packets = 0;
    total_packets_lost = 0;
  };
  seq = 0;
  queues = no_queues;
  freed = [];
  printed = [];
  file = [];
}

abbrev packet : ℕ → ℕ → Mbuf
packet control first = record {
  next_proto_id = 17;
  ether_type = 8;
  dst_port = 34835;
  hrzr = control;
  payload = first ∷ zeros 1463;
  pkt_len = 1514;
}

-- A data packet, one of metadata, and one for the flow control.
abbrev data_mbuf : ℕ → Mbuf
data_mbuf first = packet 0 first

abbrev meta_mbuf : Mbuf
meta_mbuf = packet 0x50 1

abbrev stray_mbuf : Mbuf
stray_mbuf = packet 0x40 200

data_mbuf-IsTracked : (first : ℕ) → IsTracked (data_mbuf first)
unfolding get_control_from_header control_type is_valid_packet_type
data_mbuf-IsTracked first = record {
  type_of = data_packet;
  known = refl;
  dumped = inl refl;
  full = omega arith;
}

meta_mbuf-IsTracked : IsTracked meta_mbuf
unfolding get_control_from_header control_type
meta_mbuf-IsTracked = record {
  type_of = metadata;
  known = refl;
  dumped = inr refl;
  full = omega arith;
}

stray_mbuf-IsStray : IsStray stray_mbuf
unfolding get_control_from_header control_type is_valid_packet_type is_metadata
stray_mbuf-IsStray = record {
  readable = record { type_of = flow_control; known = refl; full = omega arith };
  invalid = refl;
  not_metadata = refl;
}

data_mbuf-IsData : (first : ℕ) → IsData (data_mbuf first)
unfolding get_control_from_header control_type is_valid_packet_type
data_mbuf-IsData first = record {
  readable = record { type_of = data_packet; known = refl; full = omega arith };
  valid = refl;
}

dump_thread-IsWritten_example :
    IsWritten fractions list_rings 0 (pos 7) (data_mbuf 1 ∷ meta_mbuf ∷ data_mbuf 2 ∷ []) state (
      dump_thread fractions list_rings 0
        (dump_burst_event ((data_mbuf 1, 0) ∷ [])
          ∷ dump_burst_event ((meta_mbuf, 2) ∷ (data_mbuf 2, 3) ∷ [])
          ∷ dump_burst_event ((data_mbuf 3, 4) ∷ [])
          ∷ [])
        state)
dump_thread-IsWritten_example =
    dump_thread-IsWritten fractions list_rings 0 stream (((data_mbuf 1, 0) ∷ []) ∷ [])
      ((meta_mbuf, 2) ∷ []) (data_mbuf 2) 3 (dump_burst_event ((data_mbuf 3, 4) ∷ []) ∷ []) state
      refl refl refl (data_mbuf-IsTracked 1, (meta_mbuf-IsTracked, (data_mbuf-IsTracked 2, tt)))
      (omega arith, tt) (omega arith, tt) (omega arith)

write_lines-read_line_example :
    (write_lines
        (headers (data_mbuf 9 ∷ meta_mbuf ∷ []))
        (payloads (data_mbuf 9 ∷ meta_mbuf ∷ []))
        (metas (data_mbuf 9 ∷ meta_mbuf ∷ []))
      >>= λ written. ok (map read_line written.0))
    ≡ ok (map parts (data_mbuf 9 ∷ meta_mbuf ∷ []))
write_lines-read_line_example =
    write_lines-read_line (data_mbuf 9 ∷ meta_mbuf ∷ [])
      (data_mbuf-IsTracked 9, (meta_mbuf-IsTracked, tt)) (omega arith, (omega arith, tt))

dump_burst-lost_example :
    IsDumped fractions list_rings state.source
      (lines (data_mbuf 2 ∷ []))
      no_queues
      (data_mbuf 1 ∷ data_mbuf 2 ∷ [])
      (dump_burst fractions list_rings ((data_mbuf 1, 3) ∷ (data_mbuf 2, 3) ∷ []) state)
dump_burst-lost_example =
    dump_burst-lost fractions list_rings [] (data_mbuf 1) (data_mbuf 2) 3 3 state
      (data_mbuf-IsTracked 1, tt) (data_mbuf-IsTracked 2) tt (omega arith) (omega arith) refl

dump_burst-stray_example :
    IsDumped fractions list_rings state.source
      (hex 16 0x40 ∷ (hex 16 0 ++ hex_words (200 ∷ zeros 365)) ∷ [])
      (record no_queues { hrzr_payload = 7 ∷ zeros 365 })
      (stray_mbuf ∷ data_mbuf 7 ∷ [])
      (dump_burst fractions list_rings ((stray_mbuf, 0) ∷ (data_mbuf 7, 3) ∷ []) state)
unfolding take
dump_burst-stray_example =
    dump_burst-stray fractions list_rings stray_mbuf (data_mbuf 7) 0 3 state stray_mbuf-IsStray
      (data_mbuf-IsData 7) (omega arith) (omega arith) refl

-- Tests of the parts.
digits : hex 8 0xDEADBEEF ≡ b'd' ∷ b'e' ∷ b'a' ∷ b'd' ∷ b'b' ∷ b'e' ∷ b'e' ∷ b'f' ∷ []
unfolding hex hex_digit
digits = refl

too_few : pop_words 2 (5 ∷ []) ≡ err undefined
unfolding pop_words
too_few = refl

too_short : read_words 2 (5 ∷ []) ≡ err undefined
unfolding read_words
too_short = refl

meta_line :
    write_line 0x50 (4 ∷ []) (zeros 10) ≡ ok (hex 16 0x50 ++ hex_words (zeros 10), 4 ∷ [], [])
unfolding write_line pop_if pop_words is_metadata is_valid_packet_type get_control_from_header
    control_type hex hex_digit hex_words
meta_line = refl

-- A packet that is too short for the words that are read of it.
short_packet :
    dump_packet fractions list_rings (record meta_mbuf { payload = [] }) 0 state ≡ err undefined
unfolding dump_packet track read_words is_metadata get_control_from_header control_type
short_packet = refl

-- A thread that is told to quit before it wrote the file.
stopped :
    dump_thread fractions list_rings 0
      (dump_stop ∷ dump_burst_event ((data_mbuf 1, 9) ∷ []) ∷ [])
      state
    ≡ ok (
      record state { source = record state.source { quit = true } },
      flow_flush (pos 7) ∷ dev_stop (pos 7) ∷ dev_close (pos 7) ∷ [],
    )
unfolding dump_thread dump_loop
stopped = refl

-- Nothing is left to write.
flushed :
    flush fractions list_rings state
    ≡ ok (record state { source = record state.source { quit = true } })
unfolding flush write_lines
flushed = refl
