-- ===== src/Dpdk/Threads.antt =====
-- The receiving threads of one DpdkSource, interleaved. `RXThread` of src/dpdkSource/dpdkSource.cc
-- runs once for each stream, and all threads count in the same `total_packets` and
-- `total_packets_lost`, which are plain members: an increment is a load and a later store. The
-- accesses of a thread to the shared object are the steps here; the lines that it prints are left
-- out.
pub mod Sequential
pub mod Handing
pub mod Counters
pub mod Streams
pub mod Drain
mod Examples
use rs_jerry_driver.Common.{
  ℕ, zero, suc, ◌+◌, ◌<◌, ◌≡◌, Bool, true, false, List, [], ◌∷◌, ◌++◌, Result, ok, err, ◌>>=◌, u64,
  if◌then◌else◌,
}
use rs_jerry_driver.Common.Family.{update}
use rs_jerry_driver.Floats.{FloatOps}
use rs_jerry_driver.Header.{get_sequence_number_from_header}
use rs_jerry_driver.Dpdk.{Mbuf, RingOps, DpdkSource}
use rs_jerry_driver.Dpdk.Rx.{distance, is_skip, dispose}

-- What a thread does with the shared object. A store adds to what the thread has loaded; the packet
-- is handed over to the ring, or freed.
pub data Access : Type 0 where
  load_packets load_lost : Access
  store_packets store_lost : ℕ → Access
  hand_over : Mbuf → Access

-- The accesses where packets are missing.
abbrev pub count_gap : ℕ → List Access
count_gap gap = load_lost ∷ store_lost gap ∷ load_packets ∷ store_packets gap ∷ []

-- The accesses for a packet, behind the sequence number of the packet before.
unfoldable pub packet_accesses : ℕ → Mbuf → List Access
packet_accesses prev_seq m =
    let seq = get_sequence_number_from_header m.hrzr in
    load_packets
    ∷ store_packets 1
    ∷ ((if is_skip prev_seq seq then count_gap (distance seq prev_seq) else []) ++ hand_over m ∷ [])

-- The accesses for a burst, and the last sequence number of it.
unfoldable pub burst_accesses : ℕ → List Mbuf → List Access
burst_accesses prev_seq [] = []
burst_accesses prev_seq (m ∷ mbufs) =
    packet_accesses prev_seq m ++ burst_accesses (get_sequence_number_from_header m.hrzr) mbufs

abbrev pub last_seq : ℕ → List Mbuf → ℕ
last_seq prev_seq [] = prev_seq
last_seq prev_seq (m ∷ mbufs) = last_seq (get_sequence_number_from_header m.hrzr) mbufs

-- The thread's own part: what is left of the burst, the counters as it loaded them, its `seq`, and
-- the buffers that it freed.
pub record Thread : Type 0 where
  pub program : List Access
  pub packets : ℕ
  pub lost : ℕ
  pub seq : ℕ
  pub freed : List Mbuf

module _ (floats : FloatOps) (rings : RingOps) where
  pub record System : Type 0 where
    pub source : DpdkSource floats rings
    pub threads : ℕ → Thread

  -- An access of the thread of a stream, to the object and the thread; a packet may throw.
  unfoldable pub access :
      ℕ → Access → Thread → DpdkSource floats rings → Result (Thread × DpdkSource floats rings)
  access i load_packets t source = ok (record t { packets = source.total_packets }, source)
  access i load_lost t source = ok (record t { lost = source.total_packets_lost }, source)
  access i (store_packets n) t source =
      ok (t, record source { total_packets = u64 (t.packets + n) })
  access i (store_lost n) t source = ok (t, record source { total_packets_lost = u64 (t.lost + n) })
  access i (hand_over m) t source = do
    st ←
        dispose floats rings i m
          (record { source = source; seq = t.seq; freed = t.freed; printed = [] })
    ok (record t { freed = st.freed }, st.source)

  -- A step of `n` threads: one of them enters its loop again and receives a burst, one makes its next
  -- access, or another thread sets the flag. The trace keeps the accesses, the newest first.
  pub data Step (n : ℕ) (s : System) : List (ℕ × Access) → System → Type 0 where
    poll :
        (i : ℕ) (mbufs : List Mbuf)
        → i < n
        → (s.threads i).program ≡ []
        → s.source.quit ≡ false
        → Step n s [] (record s {
          threads =
              update i
                (record (s.threads i) {
                  program = burst_accesses (s.threads i).seq mbufs;
                  seq = last_seq (s.threads i).seq mbufs;
                })
                s.threads;
        })
    advance :
        (i : ℕ) (a : Access) (rest : List Access) {t : Thread} {source : DpdkSource floats rings}
        → i < n
        → (s.threads i).program ≡ a ∷ rest
        → access i a (s.threads i) s.source ≡ ok (t, source)
        → Step n s
            ((i, a) ∷ [])
            (record { source = source; threads = update i (record t { program = rest }) s.threads })
    stop :
        s.source.quit ≡ false → Step n s [] (record s { source = record s.source { quit = true } })

  -- The states that are reached, with the trace of the accesses.
  pub data Reach (n : ℕ) (s : System) : List (ℕ × Access) → System → Type 0 where
    start : Reach n s [] s
    later :
        {trace more : List (ℕ × Access)} {t u : System}
        → Reach n s trace t
        → Step n t more u
        → Reach n s (more ++ trace) u
