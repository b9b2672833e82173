-- ===== src/Dpdk/Threads/Examples.antt =====
-- Two receiving threads on concrete packets.
use rs_jerry_driver.Common.{
  ℕ, ◌≤◌, ◌+◌, ◌≡◌, refl, true, List, [], ◌∷◌, ◌++◌, some, ok, ◌>>=◌, get_elem?, length, arith,
}
use rs_jerry_driver.Common.Family.{total}
use rs_jerry_driver.Testing.{fractions, list_rings, stream, state, data_mbuf, other_mbuf}
use rs_jerry_driver.Header.{get_control_from_header, get_sequence_number_from_header, control_type}
use rs_jerry_driver.Dpdk.{DpdkSource, is_valid_packet_type}
use rs_jerry_driver.Dpdk.Rx.{
  RxState, is_skip, distance, is_accepted, enqueue_mbuf, dispose, rx_burst,
}
use rs_jerry_driver.Dpdk.Threads.{
  Access, load_packets, load_lost, store_packets, store_lost, hand_over, packet_accesses,
  burst_accesses, System, access, poll, advance, stop, Reach, start, later,
}
use rs_jerry_driver.Dpdk.Threads.Sequential.{access_all, freed_and_source, access_all-rx_burst}
use rs_jerry_driver.Dpdk.Threads.Counters.{
  idle, launched, added, added_lost, sum_of, Reach-counters,
}
use rs_jerry_driver.Dpdk.Threads.Streams.{handed, deliver, fresh, Reach-deliver}
use rs_jerry_driver.Dpdk.Threads.Drain.{left, steps, Reach-left}

abbrev two_streams : DpdkSource fractions list_rings
two_streams = record (state 0).source { streams = stream ∷ stream ∷ []; num_streams = 2 }

-- What a thread does for a packet that is the next one, and behind a gap.
next_packet :
    packet_accesses 0 (data_mbuf 1) ≡ load_packets ∷ store_packets 1 ∷ hand_over (data_mbuf 1) ∷ []
unfolding packet_accesses is_skip distance get_sequence_number_from_header
next_packet = refl

after_gap :
    packet_accesses 1 (other_mbuf 5)
    ≡ load_packets
      ∷ store_packets 1
      ∷ load_lost
      ∷ store_lost 4
      ∷ load_packets
      ∷ store_packets 4
      ∷ hand_over (other_mbuf 5)
      ∷ []
unfolding packet_accesses is_skip distance get_sequence_number_from_header
after_gap = refl

-- Each of two threads receives a packet; both load the counter before one of them stores it.
abbrev turns : List (ℕ × Access)
turns = (1, store_packets 1) ∷ (0, store_packets 1) ∷ (1, load_packets) ∷ (0, load_packets) ∷ []

-- The state in which a packet is lost to the count.
lost_update :
    (s : System fractions list_rings) × Reach fractions list_rings 2
      (launched fractions list_rings two_streams)
      turns
      s
unfolding access burst_accesses packet_accesses is_skip distance get_sequence_number_from_header
lost_update = (
  _,
  later
      (later
        (later
          (later
            (later (later start (poll 0 (data_mbuf 1 ∷ []) (omega arith) refl refl))
              (poll 1 (data_mbuf 1 ∷ []) (omega arith) refl refl))
            (advance 0 load_packets _ (omega arith) refl refl))
          (advance 1 load_packets _ (omega arith) refl refl))
        (advance 0 (store_packets 1) _ (omega arith) refl refl))
      (advance 1 (store_packets 1) _ (omega arith) refl refl),
)

one_of_two : lost_update.0.source.total_packets ≡ 1
unfolding lost_update
one_of_two = refl

Reach-counters_example :
    (lost_update.0.source.total_packets ≤ 0 + sum_of added turns)
    × (lost_update.0.source.total_packets_lost ≤ 0 + sum_of added_lost turns)
Reach-counters_example =
    Reach-counters fractions list_rings 2 two_streams turns lost_update.0 lost_update.1

-- Told to quit, the threads hand over what they have.
abbrev told : System fractions list_rings
told = record lost_update.0 { source = record lost_update.0.source { quit = true } }

abbrev last_turns : List (ℕ × Access)
last_turns = (0, hand_over (data_mbuf 1)) ∷ (1, hand_over (data_mbuf 1)) ∷ []

ended : (s : System fractions list_rings) × Reach fractions list_rings 2 told last_turns s
unfolding access dispose enqueue_mbuf is_accepted get_control_from_header control_type
    is_valid_packet_type lost_update
ended = (
  _,
  later (later start (advance 1 (hand_over (data_mbuf 1)) [] (omega arith) refl refl))
      (advance 0 (hand_over (data_mbuf 1)) [] (omega arith) refl refl),
)

Reach-left_example :
    (ended.0.source.quit ≡ true)
    × (steps fractions list_rings ended.1 ≡ length last_turns)
    × (steps fractions list_rings ended.1 + total left 2 ended.0.threads
        ≡ total left 2 told.threads)
Reach-left_example = Reach-left fractions list_rings 2 told ended.0 last_turns refl ended.1

-- The whole run from the launch on.
abbrev served : RxState fractions list_rings
served = record (fresh fractions list_rings two_streams) {
  source = record two_streams {
    streams = stream ∷ record stream { ring = some (data_mbuf 1 ∷ []) } ∷ [];
  };
}

whole_run :
    (s : System fractions list_rings) × Reach fractions list_rings 2
      (launched fractions list_rings two_streams)
      (last_turns ++ turns)
      s
unfolding access dispose enqueue_mbuf is_accepted get_control_from_header control_type
    is_valid_packet_type lost_update
whole_run = (
  _,
  later
      (later (later lost_update.1 (stop refl))
        (advance 1 (hand_over (data_mbuf 1)) [] (omega arith) refl refl))
      (advance 0 (hand_over (data_mbuf 1)) [] (omega arith) refl refl),
)

-- The second ring as the thread alone would leave it.
served_alone :
    deliver fractions list_rings 1
      (handed 1 (last_turns ++ turns))
      (fresh fractions list_rings two_streams)
    ≡ ok served
unfolding dispose enqueue_mbuf is_accepted get_control_from_header control_type is_valid_packet_type
served_alone = refl

Reach-deliver_example :
    (out : RxState fractions list_rings) × (deliver fractions list_rings 1
        (handed 1 (last_turns ++ turns))
        (fresh fractions list_rings two_streams)
      ≡ ok out)
    × (get_elem? whole_run.0.source.streams 1 ≡ get_elem? out.source.streams 1)
    × ((whole_run.0.threads 1).freed ≡ out.freed)
Reach-deliver_example =
    Reach-deliver fractions list_rings 2 1 two_streams (last_turns ++ turns) whole_run.0 whole_run.1

-- A burst across a gap, by accesses and by the loop.
access_all-rx_burst_example :
    (access_all fractions list_rings 0
        (burst_accesses 0 (data_mbuf 1 ∷ other_mbuf 5 ∷ []))
        idle
        (state 0).source
      >>= λ r. ok (freed_and_source fractions list_rings r))
    ≡ (rx_burst fractions list_rings 0 (data_mbuf 1 ∷ other_mbuf 5 ∷ []) (state 0) >>= λ x.
        ok (x.freed, x.source))
access_all-rx_burst_example =
    access_all-rx_burst fractions list_rings 0 (data_mbuf 1 ∷ other_mbuf 5 ∷ []) idle (state 0) refl
