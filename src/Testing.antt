-- ===== src/Testing.antt =====
-- Concrete parameters for the tests: fractions in place of floats, and a ring that is a list.
use rs_jerry_driver.Common.{
  ℕ, zero, ◌<◌, ◌*◌, ◌≡◌, refl, ℤ, pos, some, Bool, true, false, List, [], ◌∷◌, ◌++◌, length, ltb,
  if◌then◌else◌, arith,
}
use rs_jerry_driver.Floats.{FloatOps}
use rs_jerry_driver.Dpdk.{Mbuf, RingOps, StreamAttr}
use rs_jerry_driver.Dpdk.Rx.{RxState}
use rs_jerry_driver.Dpdk.Setup.{DpdkOps}

abbrev pub is_zero_ℤ : ℤ → Bool
is_zero_ℤ (pos zero) = true
is_zero_ℤ _ = false

-- A number is a numerator and a denominator.
abbrev pub fractions : FloatOps
fractions = record {
  Float = ℤ × ℤ;
  is_zero = λ x. is_zero_ℤ x.0;
  of_int16 = λ n. (n, pos 1);
  divide = λ x y. (x.0, y.0);
  to_int16 = λ x. some x.0;
}

abbrev pub unit : ℤ × ℤ
unit = (pos 1, pos 1)

abbrev pub ring_capacity : ℕ
ring_capacity = 2

abbrev pub push : Mbuf → List Mbuf → List Mbuf
push m r = if ltb (length r) ring_capacity then r ++ m ∷ [] else r

pub push_room : (m : Mbuf) (r : List Mbuf) → length r < ring_capacity → push m r ≡ r ++ m ∷ []
push_room m r h = ground arith

pub push_full : (m : Mbuf) (r : List Mbuf) → length r ≡ ring_capacity → push m r ≡ r
push_full m r h = ground arith

-- A ring of two places.
abbrev pub list_rings : RingOps
list_rings = record {
  Ring = List Mbuf;
  contents = λ r. r;
  capacity = λ r. ring_capacity;
  enqueue = push;
  enqueue_room = push_room;
  enqueue_full = push_full;
  capacity-enqueue = λ m r. refl;
}

-- Every call succeeds; the link is as said.
abbrev pub dpdk : Bool → DpdkOps list_rings
dpdk up = record {
  eal_result = λ argv. pos 5;
  dev_count = 1;
  pool = λ name. some 9;
  ring = λ name. some [];
  dev_info = λ port.
      (pos 0, record { default_rxconf = record { offloads = 3; others = 4 }; tx_offload_capa = 6 });
  configured = λ port conf. pos 0;
  queue_set_up = λ port queue. pos 0;
  promiscuous = λ port. pos 0;
  started = λ port. pos 0;
  link = λ port. (pos 0, up);
}

-- A source with one stream, and its receiving thread behind a sequence number.
abbrev pub stream : StreamAttr fractions list_rings
stream = record {
  l_cores = (pos 0, pos 24);
  dpdk_port_id = pos 0;
  udp_rx_port = 5000;
  mbuf_pool = some 0;
  ring = some [];
}

abbrev pub state : ℕ → RxState fractions list_rings
state seq = record {
  source = record {
    hrzr_parser = record { norm = (pos 1, pos 1) };
    streams = stream ∷ [];
    num_streams = 1;
    quit = false;
    total_packets = 0;
    total_packets_lost = 0;
  };
  seq = seq;
  freed = [];
  printed = [];
}

-- A full data packet for the port 5000, and one for another port.
abbrev pub data_mbuf : ℕ → Mbuf
data_mbuf seq = record {
  next_proto_id = 17;
  ether_type = 8;
  dst_port = 34835;
  hrzr = seq * 256;
  payload = [];
  pkt_len = 1514;
}

abbrev pub other_mbuf : ℕ → Mbuf
other_mbuf seq = record (data_mbuf seq) { dst_port = 1 }
