-- ===== src/Dpdk/Samples/Examples.antt =====
-- `getSamples` over concrete bursts.
use rs_jerry_driver.Common.{
  ℕ, refl, ℤ, pos, false, List, [], ◌∷◌, some, none, replicate, length-replicate, arith,
}
use rs_jerry_driver.Floats.{Complex}
use rs_jerry_driver.Testing.{fractions, list_rings, unit}
use rs_jerry_driver.Dpdk.{Mbuf, StreamAttr, DpdkSource}
use rs_jerry_driver.Dpdk.Samples.{get_samples}
use rs_jerry_driver.Dpdk.Samples.Dequeue.{AreDequeued, get_samples-AreDequeued}

abbrev blank : Complex (fractions.Float)
blank = record { real = unit; imag = unit }

abbrev stream : StreamAttr fractions list_rings
stream = record {
  l_cores = (pos 0, pos 24);
  dpdk_port_id = pos 0;
  udp_rx_port = 5000;
  mbuf_pool = some 0;
  ring = none;
}

abbrev source : DpdkSource fractions list_rings
source = record {
  hrzr_parser = record { norm = (pos 1, pos 1) };
  streams = stream ∷ [];
  num_streams = 1;
  quit = false;
  total_packets = 0;
  total_packets_lost = 0;
}

abbrev mbuf : Mbuf
mbuf = record {
  next_proto_id = 17;
  ether_type = 8;
  dst_port = 34835;
  hrzr = 0;
  payload = replicate 1464 7;
  pkt_len = 1514;
}

-- One packet is waiting.
abbrev card : ℤ → ℕ → List Mbuf
card port n = mbuf ∷ []

get_samples-AreDequeued_example :
    AreDequeued fractions list_rings source 0
      (mbuf ∷ [])
      (record { samples = replicate 366 blank; total = 0; freed = [] })
      (get_samples fractions list_rings 0 (pos 10) card (replicate 366 blank) source)
get_samples-AreDequeued_example =
    get_samples-AreDequeued fractions list_rings source 0 stream card 10 refl (omega arith)
      (omega (arith, length-replicate {A = ℕ} 1464 7), tt) (replicate 366 blank)
      (omega (arith, length-replicate 366 blank)) (omega arith)
