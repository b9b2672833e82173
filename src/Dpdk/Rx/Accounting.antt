-- ===== src/Dpdk/Rx/Accounting.antt =====
-- The counters of packets and of lost packets.
use rs_jerry_driver.Common.{
  ℕ, ◌+◌, ◌-◌, ◌%◌, ◌<◌, ◌≡◌, ◌≢◌, refl, ap, ◌∙◌, inl, inr, false, List, [], ◌∷◌, some, ok, u64,
  if◌then◌else◌, Bool-cases, length, arith,
}
use rs_jerry_driver.Common.Results.{>>=-eq-ok}
use rs_jerry_driver.Floats.{FloatOps}
use rs_jerry_driver.Header.{get_sequence_number_from_header}
use rs_jerry_driver.Header.Wire.{get_sequence_number_lem}
use rs_jerry_driver.Dpdk.{Mbuf, RingOps, DpdkSource}
use rs_jerry_driver.Dpdk.Rx.{
  RxState, is_skip, distance, count_packet, enqueue_mbuf, dispose, rx_packet, rx_burst, report,
}

-- How many packets are missing between two sequence numbers, which count modulo 4096.
abbrev pub missing : ℕ → ℕ → ℕ
missing prev_seq seq = (seq + 4096 - prev_seq - 1) % 4096

-- What the counters of lost packets grows by.
abbrev pub added : ℕ → ℕ → ℕ
added prev_seq seq = if is_skip prev_seq seq then distance seq prev_seq else 0

abbrev pub seq_of : Mbuf → ℕ
seq_of m = get_sequence_number_from_header m.hrzr

-- Each packet is the successor of the one before.
abbrev pub IsConsecutive : ℕ → List Mbuf → Type 0
IsConsecutive prev_seq [] = Unit {0}
IsConsecutive prev_seq (m ∷ mbufs) =
    (seq_of m ≡ (prev_seq + 1) % 4096) × IsConsecutive (seq_of m) mbufs

seq_of-lt : (m : Mbuf) → seq_of m < 4096
seq_of-lt m = omega (arith, get_sequence_number_lem m.hrzr)

successor_lem :
    (prev_seq seq : ℕ)
    → prev_seq < 4096
    → seq ≡ (prev_seq + 1) % 4096
    → is_skip prev_seq seq ≡ false
unfolding is_skip
successor_lem prev_seq seq h e = ground arith

added-ne-missing :
    (prev_seq seq : ℕ)
    → prev_seq < 4096
    → seq < 4096
    → missing prev_seq seq ≢ 0
    → (added prev_seq seq ≢ missing prev_seq seq) × (added prev_seq seq < 4096)
unfolding is_skip distance
added-ne-missing prev_seq seq hp hs gap = (λ e. ground arith, ground arith)

module _ (floats : FloatOps) (rings : RingOps) where
  -- What `dispose` leaves alone.
  record SameCounters (st st' : RxState floats rings) : Type 0 where
    packets : st'.source.total_packets ≡ st.source.total_packets
    lost : st'.source.total_packets_lost ≡ st.source.total_packets_lost
    seq : st'.seq ≡ st.seq
    printed : st'.printed ≡ st.printed

  dispose-SameCounters :
      (k : ℕ) (m : Mbuf) (st : RxState floats rings) {st' : RxState floats rings}
      → dispose floats rings k m st ≡ ok st'
      → SameCounters st st'
  unfolding dispose enqueue_mbuf
  dispose-SameCounters k m st h = ground arith

  -- What a packet adds to the counters.
  count_packet_lem :
      (prev_seq seq : ℕ) (source : DpdkSource floats rings)
      → let counted = count_packet floats rings prev_seq seq source in
        (u64 counted.total_packets_lost ≡ u64 (source.total_packets_lost + added prev_seq seq))
        × (u64 counted.total_packets ≡ u64 (source.total_packets + added prev_seq seq + 1))
  unfolding count_packet
  count_packet_lem prev_seq seq source = elim (Bool-cases (is_skip prev_seq seq)) [
    | inl e ↦ rw e (omega arith, omega arith)
    | inr e ↦ rw e (omega arith, omega arith)
  ]

  rx_packet_counts :
      (k : ℕ) (m : Mbuf) (st : RxState floats rings) {st' : RxState floats rings}
      → rx_packet floats rings k m st ≡ ok st'
      → let more = added st.seq (seq_of m) in
        (u64 st'.source.total_packets_lost ≡ u64 (st.source.total_packets_lost + more))
        × (u64 st'.source.total_packets ≡ u64 (st.source.total_packets + more + 1))
        × (st'.seq ≡ seq_of m)
        × (st'.printed ≡ report (some k) st.seq (seq_of m) st.printed)
  unfolding rx_packet
  rx_packet_counts k m st h =
      let same =
        dispose-SameCounters k m
          (record st {
            source = count_packet floats rings st.seq (seq_of m) st.source;
            seq = seq_of m;
            printed = report (some k) st.seq (seq_of m) st.printed;
          })
          h in
      let counts = count_packet_lem st.seq (seq_of m) st.source in
      (ap u64 same.lost ∙ counts.0, ap u64 same.packets ∙ counts.1, same.seq, same.printed)

  -- Accounting of RXThread: whenever the loop has gone through a burst, of any packets in any
  -- state, `total_packets` has grown by the number of packets received and by as much as
  -- `total_packets_lost` has grown, modulo 2 ^ 64.
  pub rx_burst_accounts :
      (k : ℕ) (mbufs : List Mbuf) (st : RxState floats rings) {st' : RxState floats rings}
      → rx_burst floats rings k mbufs st ≡ ok st'
      → u64 (st'.source.total_packets + st.source.total_packets_lost)
        ≡ u64 (st.source.total_packets + st'.source.total_packets_lost + length mbufs)
  unfolding rx_burst
  rx_burst_accounts k [] st h = ground arith
  rx_burst_accounts k (m ∷ mbufs) st h =
      let (mid, first, rest) = >>=-eq-ok (rx_packet floats rings k m st) _ h in
      omega (arith, rx_packet_counts k m st first, rx_burst_accounts k mbufs mid rest)

  -- No false alarm: whenever the loop has gone through a burst of packets that follow one another,
  -- modulo 4096, from the last sequence number of the thread on, which is below 4096, they add
  -- nothing to `total_packets_lost` and print no line, and `total_packets`
  -- counts just them, modulo 2 ^ 64.
  pub rx_burst_consecutive :
      (k : ℕ) (mbufs : List Mbuf) (st : RxState floats rings) {st' : RxState floats rings}
      → st.seq < 4096
      → IsConsecutive st.seq mbufs
      → rx_burst floats rings k mbufs st ≡ ok st'
      → (u64 st'.source.total_packets_lost ≡ u64 st.source.total_packets_lost)
        × (u64 st'.source.total_packets ≡ u64 (st.source.total_packets + length mbufs))
        × (st'.printed ≡ st.printed)
  unfolding rx_burst
  rx_burst_consecutive k [] st hq c h = ground arith
  rx_burst_consecutive k (m ∷ mbufs) st hq c h =
      let (mid, first, rest) = >>=-eq-ok (rx_packet floats rings k m st) _ h in
      let counts = rx_packet_counts k m st first in
      let quiet = successor_lem st.seq (seq_of m) hq c.0 in
      let none_added : added st.seq (seq_of m) ≡ 0 = rw quiet refl in
      let silent : report (some k) st.seq (seq_of m) st.printed ≡ st.printed =
        unfold report in rw quiet refl in
      let later =
        rx_burst_consecutive k mbufs mid (rw counts.2 (seq_of-lt m)) (rw counts.2 c.1) rest in
      (
        omega (arith, counts, none_added, later.0),
        omega (arith, counts, none_added, later.1),
        later.2 ∙ counts.3 ∙ silent,
      )

  -- Every gap is miscounted: where packets are missing between two received ones (their sequence
  -- numbers are not successive modulo 4096), `total_packets_lost` does not grow by the number of
  -- missing packets, not even modulo 2 ^ 64.
  pub rx_packet_miscounts :
      (k : ℕ) (m : Mbuf) (st : RxState floats rings) {st' : RxState floats rings}
      → st.seq < 4096
      → missing st.seq (seq_of m) ≢ 0
      → rx_packet floats rings k m st ≡ ok st'
      → u64 st'.source.total_packets_lost
        ≢ u64 (st.source.total_packets_lost + missing st.seq (seq_of m))
  rx_packet_miscounts k m st hq gap h =
      omega
        (arith, rx_packet_counts k m st h, added-ne-missing st.seq (seq_of m) hq (seq_of-lt m) gap)
