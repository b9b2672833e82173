-- ===== src/Dpdk/Rx/Examples.antt =====
-- The receiving thread on concrete bursts.
use rs_jerry_driver.Common.{
  ℕ, ◌≡◌, ◌≢◌, ◌+◌, refl, pos, true, List, [], ◌∷◌, some, ok, u64, arith, select, ◌>>=◌,
}
use rs_jerry_driver.Testing.{fractions, list_rings, stream, state, data_mbuf, other_mbuf}
use rs_jerry_driver.Header.{get_control_from_header, get_sequence_number_from_header, control_type}
use rs_jerry_driver.Dpdk.{Mbuf, is_valid_packet_type}
use rs_jerry_driver.Dpdk.Rx.{
  RxState, burst, stop, is_accepted, count_packet, report, enqueue_mbuf, dispose, rx_packet,
  rx_burst, rx_loop, is_skip, distance, skipped, rx_thread, stop_rx_thread, flow_flush, dev_stop,
  dev_close,
}
use rs_jerry_driver.Dpdk.Rx.Accounting.{missing, seq_of, rx_burst_accounts, rx_packet_miscounts}
use rs_jerry_driver.Dpdk.Rx.Forwarding.{
  HasRing, Forwarded, accepts, refuses, rx_burst-Forwarded, rx_packet_leaks,
}
use rs_jerry_driver.Dpdk.Rx.Shutdown.{bursts, joined, with_quit, rx_loop-stop}

abbrev mixed : List Mbuf
mixed = data_mbuf 1 ∷ other_mbuf 2 ∷ data_mbuf 3 ∷ []

abbrev after_mixed : RxState fractions list_rings
after_mixed = record (state 3) {
  source = record (state 3).source {
    streams = record stream { ring = some (data_mbuf 1 ∷ data_mbuf 3 ∷ []) } ∷ [];
    total_packets = 3;
  };
  freed = other_mbuf 2 ∷ [];
}

mixed_run : rx_burst fractions list_rings 0 mixed (state 0) ≡ ok after_mixed
unfolding rx_burst rx_packet dispose enqueue_mbuf count_packet report is_accepted is_skip distance
    get_control_from_header control_type get_sequence_number_from_header is_valid_packet_type
mixed_run = refl

rx_burst_accounts_example : u64 (3 + 0) ≡ u64 (0 + 0 + 3)
rx_burst_accounts_example = rx_burst_accounts fractions list_rings 0 mixed (state 0) mixed_run

abbrev skip_run_state : RxState fractions list_rings
skip_run_state = record (state 5) {
  source = record (state 5).source { total_packets = 5; total_packets_lost = 4 };
  freed = other_mbuf 5 ∷ [];
  printed = record { stream = some 0; packets = 4 } ∷ [];
}

-- From 1 to 5 three packets are missing.
skip_run : rx_packet fractions list_rings 0 (other_mbuf 5) (state 1) ≡ ok skip_run_state
unfolding rx_packet dispose enqueue_mbuf count_packet report is_accepted is_skip distance
    get_sequence_number_from_header
skip_run = refl

rx_packet_miscounts_example : u64 4 ≢ u64 (0 + missing 1 (seq_of (other_mbuf 5)))
rx_packet_miscounts_example =
    rx_packet_miscounts fractions list_rings 0 (other_mbuf 5) (state 1) (omega arith)
      (unfold get_sequence_number_from_header in omega arith) skip_run

has_ring : (seq : ℕ) → HasRing fractions list_rings 0 5000 [] (state seq)
has_ring seq = record { stream = stream; found = refl; made = refl; listens = refl }

accepted : (is_accepted 5000 (data_mbuf 1) ≡ ok true) × (is_accepted 5000 (data_mbuf 3) ≡ ok true)
unfolding is_accepted get_control_from_header control_type is_valid_packet_type
accepted = (refl, refl)

rx_burst-Forwarded_example :
    Forwarded fractions list_rings 0 5000 []
      (select (accepts 5000) mixed)
      (select (refuses 5000) mixed)
      (state 0)
      (rx_burst fractions list_rings 0 mixed (state 0))
rx_burst-Forwarded_example =
    rx_burst-Forwarded fractions list_rings 0 5000 [] mixed (state 0) (has_ring 0)
      (
        λ e. (omega arith, omega arith),
        (λ e. (omega arith, omega arith), (λ e. (omega arith, omega arith), tt)),
      )
      (omega arith)

abbrev full_ring : List Mbuf
full_ring = data_mbuf 7 ∷ data_mbuf 8 ∷ []

abbrev full_state : RxState fractions list_rings
full_state = record (state 0) {
  source = record (state 0).source { streams = record stream { ring = some full_ring } ∷ [] };
}

rx_packet_leaks_example :
    Forwarded fractions list_rings 0 5000 full_ring [] [] full_state
      (rx_packet fractions list_rings 0 (data_mbuf 1) full_state)
rx_packet_leaks_example =
    rx_packet_leaks fractions list_rings 0 5000 full_ring (data_mbuf 1) full_state
      (record {
        stream = record stream { ring = some full_ring };
        found = refl;
        made = refl;
        listens = refl;
      })
      accepted.0 refl

rx_loop-stop_example :
    rx_loop fractions list_rings 0 (bursts (mixed ∷ []) (stop ∷ burst mixed ∷ [])) (state 0) ≡ (
      rx_burst fractions list_rings 0 (joined (mixed ∷ [])) (state 0) >>= λ last.
      ok (with_quit fractions list_rings last))
rx_loop-stop_example =
    rx_loop-stop fractions list_rings 0 (mixed ∷ []) (burst mixed ∷ []) (state 0) refl

-- A thread that was told to quit before it starts leaves its bursts alone and closes its port.
quits :
    let told = record (state 0) {
      source = (stop_rx_thread fractions list_rings (state 0).source).0;
    } in
    rx_thread fractions list_rings 0 (burst mixed ∷ []) told
    ≡ ok (told, flow_flush (pos 0) ∷ dev_stop (pos 0) ∷ dev_close (pos 0) ∷ [])
unfolding rx_thread rx_loop stop_rx_thread
quits = refl

-- What is printed across the wrap: 4 packets, of which 3 are missing.
skipped_wrap : skipped 4093 1 ≡ 3
unfolding skipped distance
skipped_wrap = refl
