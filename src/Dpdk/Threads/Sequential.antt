-- ===== src/Dpdk/Threads/Sequential.antt =====
-- A thread that is alone makes the accesses of the loop over a burst.
use rs_jerry_driver.Common.{
  ℕ, ◌+◌, ◌≡◌, refl, ap, sym, ◌∙◌, inl, inr, Bool, true, false, Bool-cases, List, [], ◌∷◌, ◌++◌,
  some, Result, ok, err, ◌>>=◌, defined, get_elem?, u64, if◌then◌else◌, arith,
}
use rs_jerry_driver.Common.Results.{>>=_through}
use rs_jerry_driver.Floats.{FloatOps}
use rs_jerry_driver.Header.{get_sequence_number_from_header}
use rs_jerry_driver.Dpdk.{Mbuf, RingOps, DpdkSource}
use rs_jerry_driver.Dpdk.Rx.{
  RxState, distance, is_skip, is_accepted, count_packet, report, enqueue_mbuf, dispose, rx_packet,
  rx_burst,
}
use rs_jerry_driver.Dpdk.Threads.{
  Access, hand_over, count_gap, packet_accesses, burst_accesses, Thread, access,
}

module _ (floats : FloatOps) (rings : RingOps) where
  -- All accesses of a program, one after the other.
  abbrev pub access_all :
      ℕ → List Access → Thread → DpdkSource floats rings → Result (Thread × DpdkSource floats rings)
  access_all i [] t source = ok (t, source)
  access_all i (a ∷ program) t source =
      access floats rings i a t source >>= λ r. access_all i program r.0 r.1

  abbrev pub freed_and_source :
      Thread × DpdkSource floats rings → List Mbuf × DpdkSource floats rings
  freed_and_source r = (r.0.freed, r.1)

  -- A packet goes the same way whatever the other members of the state are.
  dispose_frame :
      (i : ℕ) (m : Mbuf) (st : RxState floats rings) (seq : ℕ)
      → dispose floats rings i m st ≡ (
          dispose floats rings i m
            (record { source = st.source; seq = seq; freed = st.freed; printed = [] })
          >>= λ x. ok (record st { source = x.source; freed = x.freed }))
  unfolding dispose
  dispose_frame i m st seq =
      >>=_through (defined (get_elem? st.source.streams i)) _ _ _ (λ stream.
        >>=_through (is_accepted stream.udp_rx_port m) _ _ _ (λ accepted. passed accepted))
    where
      passed :
          (accepted : Bool)
          → (if accepted
              then (enqueue_mbuf floats rings i m st.source >>= λ source.
                  ok (record st { source = source }))
              else ok (record st { freed = st.freed ++ m ∷ [] }))
            ≡ ((if accepted
                  then (enqueue_mbuf floats rings i m st.source >>= λ source.
                      ok (record st { source = source; seq = seq; printed = [] }))
                  else ok (record st { freed = st.freed ++ m ∷ []; seq = seq; printed = [] }))
                >>= λ x. ok (record st { source = x.source; freed = x.freed }))
      passed true = >>=_through (enqueue_mbuf floats rings i m st.source) _ _ _ (λ source. refl)
      passed false = refl

  -- The packet is handed over, and the rest of the program follows.
  access_hand_over :
      (i : ℕ) (m : Mbuf) (rest : List Access) (t : Thread) (st : RxState floats rings)
      → t.freed ≡ st.freed
      → access_all i (hand_over m ∷ rest) t st.source ≡ (
          dispose floats rings i m st >>= λ x.
          access_all i rest (record t { freed = x.freed }) x.source)
  unfolding access
  access_hand_over i m rest t st same =
      ap (λ (freed : List Mbuf). (dispose floats rings i m (bare freed) >>= passed) >>= continued)
        same
      ∙ (sym (
            >>=_through (dispose floats rings i m (bare st.freed)) rest_of passed continued
              (λ x. refl))
          ∙ (>>=_through (dispose floats rings i m (bare st.freed)) rest_of
                (λ x. ok (record st { source = x.source; freed = x.freed })) rest_of (λ x. refl)
              ∙ ap (λ r. r >>= rest_of) (sym (dispose_frame i m st t.seq))))
    where
      bare : List Mbuf → RxState floats rings
      bare freed = record { source = st.source; seq = t.seq; freed = freed; printed = [] }

      passed : RxState floats rings → Result (Thread × DpdkSource floats rings)
      passed x = ok (record t { freed = x.freed }, x.source)

      continued : Thread × DpdkSource floats rings → Result (Thread × DpdkSource floats rings)
      continued r = access_all i rest r.0 r.1

      rest_of : RxState floats rings → Result (Thread × DpdkSource floats rings)
      rest_of x = access_all i rest (record t { freed = x.freed }) x.source

  -- The accesses for a packet are those of the loop's body.
  access_packet :
      (i : ℕ) (m : Mbuf) (rest : List Access) (t : Thread) (st : RxState floats rings)
      → t.freed ≡ st.freed
      → (t' : Thread) × (access_all i (packet_accesses st.seq m ++ rest) t st.source ≡ (
          rx_packet floats rings i m st >>= λ x.
          access_all i rest (record t' { freed = x.freed }) x.source))
  unfolding packet_accesses access rx_packet count_packet
  access_packet i m rest t st same = elim (Bool-cases (is_skip st.seq seq)) [
    | inl gap ↦
        let source' = record source {
          total_packets_lost = u64 (source.total_packets_lost + distance seq st.seq);
          total_packets = u64 (source.total_packets + distance seq st.seq);
        } in
        let t' = record t {
          packets = u64 (st.source.total_packets + 1);
          lost = st.source.total_packets_lost;
        } in
        let counted : count_packet floats rings st.seq seq st.source ≡ source' = rw gap refl in
        (
          t',
          ap (λ (b : Bool). from b) gap
              ∙ (access_hand_over i m rest t' (after source') same
                  ∙ ap
                      (λ (c : DpdkSource floats rings). dispose floats rings i m (after c) >>= λ x.
                        access_all i rest (record t' { freed = x.freed }) x.source)
                      (sym counted)),
        )
    | inr none_missing ↦
        let t' = record t { packets = st.source.total_packets } in
        let counted : count_packet floats rings st.seq seq st.source ≡ source =
          rw none_missing refl in
        (
          t',
          ap (λ (b : Bool). from b) none_missing
              ∙ (access_hand_over i m rest t' (after source) same
                  ∙ ap
                      (λ (c : DpdkSource floats rings). dispose floats rings i m (after c) >>= λ x.
                        access_all i rest (record t' { freed = x.freed }) x.source)
                      (sym counted)),
        )
  ]
    where
      seq : ℕ
      seq = get_sequence_number_from_header m.hrzr

      source : DpdkSource floats rings
      source = record st.source { total_packets = u64 (st.source.total_packets + 1) }

      after : DpdkSource floats rings → RxState floats rings
      after c = record st { source = c; seq = seq; printed = report (some i) st.seq seq st.printed }

      from : Bool → Result (Thread × DpdkSource floats rings)
      from b =
          access_all i
            (((if b then count_gap (distance seq st.seq) else []) ++ hand_over m ∷ []) ++ rest)
            (record t { packets = st.source.total_packets }) source

  rx_packet-seq :
      (i : ℕ) (m : Mbuf) (st : RxState floats rings) {x : RxState floats rings}
      → rx_packet floats rings i m st ≡ ok x
      → x.seq ≡ get_sequence_number_from_header m.hrzr
  unfolding rx_packet dispose
  rx_packet-seq i m st h = ground arith

  -- RXThread makes the accesses of its program: a thread that is alone goes from the beginning of a
  -- burst to its end as the loop over the burst does, to the same object and the same freed buffers,
  -- or throws where the loop throws.
  pub access_all-rx_burst :
      (i : ℕ) (mbufs : List Mbuf) (t : Thread) (st : RxState floats rings)
      → t.freed ≡ st.freed
      → (access_all i (burst_accesses st.seq mbufs) t st.source >>= λ r. ok (freed_and_source r))
        ≡ (rx_burst floats rings i mbufs st >>= λ x. ok (x.freed, x.source))
  unfolding burst_accesses rx_burst
  access_all-rx_burst i [] t st same = ap (λ (f : List Mbuf). ok (f, st.source)) same
  access_all-rx_burst i (m ∷ mbufs) t st same =
      let (t', packet) =
        access_packet i m (burst_accesses (get_sequence_number_from_header m.hrzr) mbufs) t st
          same in
      ap (λ r. r >>= λ x. ok (freed_and_source x)) packet
      ∙ go t' (rx_packet floats rings i m st) refl
          (λ x. access_all-rx_burst i mbufs (record t' { freed = x.freed }) x refl)
    where
      seq : ℕ
      seq = get_sequence_number_from_header m.hrzr

      go :
          (t' : Thread) (r : Result (RxState floats rings))
          → rx_packet floats rings i m st ≡ r
          → ((x : RxState floats rings)
              → (access_all i (burst_accesses x.seq mbufs) (record t' { freed = x.freed }) x.source
                  >>= λ y. ok (freed_and_source y))
                ≡ (rx_burst floats rings i mbufs x >>= λ y. ok (y.freed, y.source)))
          → ((r >>= λ x.
                access_all i (burst_accesses seq mbufs) (record t' { freed = x.freed }) x.source)
              >>= λ y. ok (freed_and_source y))
            ≡ ((r >>= λ x. rx_burst floats rings i mbufs x) >>= λ y. ok (y.freed, y.source))
      go t' (err e) met ih = refl
      go t' (ok x) met ih =
          ap
            (λ (s : ℕ).
              access_all i (burst_accesses s mbufs) (record t' { freed = x.freed }) x.source
              >>= λ y. ok (freed_and_source y))
            (sym (rx_packet-seq i m st met))
          ∙ ih x
