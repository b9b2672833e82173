-- ===== src/Dpdk/Rx.antt =====
-- DpdkSource::RXThread and stopRXThread. The thread is run on the sequence of what happens to it:
-- the bursts that `rte_eth_rx_burst` returns, and the moment when another thread sets `quit`.
-- What is printed is kept as a list; the ratio in it is left out.
pub mod Accounting
pub mod Forwarding
pub mod Shutdown
mod Examples
use rs_jerry_driver.Common.{
  ℕ, suc, ◌+◌, ◌-◌, ◌*◌, ℤ, Bool, true, false, not, ◌&&◌, List, [], ◌∷◌, ◌++◌, Option, none, some,
  Result, ok, err, ◌>>=◌, defined, undefined, blocked, u64, htons, ltb, ◌==◌, if◌then◌else◌,
  get_elem?, set,
}
use rs_jerry_driver.Definitions.{payload_size}
use rs_jerry_driver.Floats.{FloatOps}
use rs_jerry_driver.Header.{get_control_from_header, get_sequence_number_from_header}
use rs_jerry_driver.Dpdk.{
  Mbuf, RingOps, StreamAttr, DpdkSource, all_headers_size, ipproto_udp, ether_type_ipv4,
  is_valid_packet_type,
}

-- `std::abs(seq - prev_seq)`
unfoldable pub distance : ℕ → ℕ → ℕ
distance seq prev_seq = if ltb seq prev_seq then prev_seq - seq else seq - prev_seq

-- The test for lost packets.
unfoldable pub is_skip : ℕ → ℕ → Bool
is_skip prev_seq seq = not (seq == prev_seq + 1) && not (prev_seq == 4095) && not (seq == 0)

-- The number that is printed.
unfoldable pub skipped : ℕ → ℕ → ℕ
skipped prev_seq seq = if ltb seq prev_seq then seq + (4095 - prev_seq) else distance seq prev_seq

-- A printed line: the stream, where it is printed, and the number of packets.
pub record SkipLine : Type 0 where
  pub stream : Option ℕ
  pub packets : ℕ

-- The lines after a packet.
unfoldable pub report : Option ℕ → ℕ → ℕ → List SkipLine → List SkipLine
unfolding skipped
report stream prev_seq seq printed =
    if is_skip prev_seq seq
    then printed ++ record { stream = stream; packets = skipped prev_seq seq } ∷ []
    else printed

-- The conditions on a packet that is passed on; `&&` reads the type last, which may throw.
unfoldable pub is_accepted : ℕ → Mbuf → Result Bool
is_accepted port m =
    if m.next_proto_id == ipproto_udp
      && m.ether_type == htons ether_type_ipv4
      && m.dst_port == htons port
      && m.pkt_len == payload_size + all_headers_size
    then (do control ← get_control_from_header m.hrzr; ok (is_valid_packet_type control))
    else ok false

-- What happens to the thread: a burst arrives, or another thread sets `quit`.
pub data RxEvent : Type 0 where
  burst : List Mbuf → RxEvent
  stop : RxEvent

-- The calls on the card when the loop has ended; a failure of the second is only printed.
pub data PortCall : Type 0 where
  flow_flush dev_stop dev_close : ℤ → PortCall

module _ (floats : FloatOps) (rings : RingOps) where
  -- The object, the thread's `seq`, the buffers that were freed and the lines that were printed.
  pub record RxState : Type 0 where
    pub source : DpdkSource floats rings
    pub seq : ℕ
    pub freed : List Mbuf
    pub printed : List SkipLine

  -- The counters after a packet.
  unfoldable pub count_packet : ℕ → ℕ → DpdkSource floats rings → DpdkSource floats rings
  count_packet prev_seq seq source =
      let counted = record source { total_packets = u64 (source.total_packets + 1) } in
      if is_skip prev_seq seq
      then record counted {
        total_packets_lost = u64 (counted.total_packets_lost + distance seq prev_seq);
        total_packets = u64 (counted.total_packets + distance seq prev_seq);
      }
      else counted

  -- `rte_ring_enqueue(dpdkSource->getRteRing(num_stream), m)`, whose result is not tested.
  unfoldable pub enqueue_mbuf :
      ℕ → Mbuf → DpdkSource floats rings → Result (DpdkSource floats rings)
  enqueue_mbuf num_stream m source = do
    stream ← defined (get_elem? source.streams num_stream)
    ring ← defined stream.ring
    let stream' = record stream { ring = some (rings.enqueue m ring) }
    ok (record source { streams = set source.streams num_stream stream' })

  -- Where a packet goes: to the ring, or back to its pool.
  unfoldable pub dispose : ℕ → Mbuf → RxState → Result RxState
  dispose num_stream m st = do
    stream ← defined (get_elem? st.source.streams num_stream)
    accepted ← is_accepted stream.udp_rx_port m
    if accepted
        then (do source ← enqueue_mbuf num_stream m st.source; ok (record st { source = source }))
        else ok (record st { freed = st.freed ++ m ∷ [] })

  -- The body of the loop over a burst.
  unfoldable pub rx_packet : ℕ → Mbuf → RxState → Result RxState
  unfolding count_packet report
  rx_packet num_stream m st =
      let seq = get_sequence_number_from_header m.hrzr in
      dispose num_stream m (record st {
        source = count_packet st.seq seq st.source;
        seq = seq;
        printed = report (some num_stream) st.seq seq st.printed;
      })

  unfoldable pub rx_burst : ℕ → List Mbuf → RxState → Result RxState
  rx_burst num_stream [] st = ok st
  rx_burst num_stream (m ∷ mbufs) st = do
    st' ← rx_packet num_stream m st
    rx_burst num_stream mbufs st'

  -- The loop `while (!shouldQuit())`. Without further events a thread that was not told to quit
  -- goes on polling.
  unfoldable pub rx_loop : ℕ → List RxEvent → RxState → Result RxState
  rx_loop num_stream [] st = if st.source.quit then ok st else err blocked
  rx_loop num_stream (stop ∷ events) st =
      rx_loop num_stream events (record st { source = record st.source { quit = true } })
  rx_loop num_stream (burst mbufs ∷ events) st = elim st.source.quit [
    | true ↦ ok st
    | false ↦ rx_burst num_stream mbufs st >>= λ st'. rx_loop num_stream events st'
  ]

  unfoldable pub rx_thread : ℕ → List RxEvent → RxState → Result (RxState × List PortCall)
  rx_thread num_stream events st = do
    st' ← rx_loop num_stream events st
    stream ← defined (get_elem? st'.source.streams num_stream)
    let port = stream.dpdk_port_id
    ok (st', flow_flush port ∷ dev_stop port ∷ dev_close port ∷ [])

  -- `stopRXThread` sets the flag and waits for the logical core 1.
  unfoldable pub stop_rx_thread : DpdkSource floats rings → DpdkSource floats rings × ℕ
  stop_rx_thread source = (record source { quit = true }, 1)
