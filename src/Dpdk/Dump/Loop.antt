-- ===== src/Dpdk/Dump/Loop.antt =====
-- The whole run of dumpThread, burst by burst until it has written its file.
use rs_jerry_driver.Common.{
  ℕ, ◌≤◌, ◌≡◌, refl, subst, ap, sym, ◌∙◌, Bool, true, false, List, [], ◌∷◌, ◌++◌, some, get_elem?,
  ℤ, Result, ok, ◌>>=◌,
}
use mathlib.Core.List.{append_assoc}
use rs_jerry_driver.Floats.{FloatOps}
use rs_jerry_driver.Header.{}
use rs_jerry_driver.Dpdk.{Mbuf, StreamAttr, RingOps}
use rs_jerry_driver.Dpdk.Rx.{PortCall, flow_flush, dev_stop, dev_close}
use rs_jerry_driver.Dpdk.Dump.{
  DumpState, DumpEvent, dump_burst_event, dump_stop, dump_burst, dump_loop, dump_thread,
}
use rs_jerry_driver.Dpdk.Dump.Lines.{AreTracked, no_queues, lines}
use rs_jerry_driver.Dpdk.Dump.Pushed.{
  packets, AreEarly, push_all, queues_of, push_all-queues, tracked-append,
}
use rs_jerry_driver.Dpdk.Dump.File.{dump_burst-early, dump_burst-append, IsDumped, dump_burst_lem}

module _ (floats : FloatOps) (rings : RingOps) where
  -- Bursts one after the other, and then what follows.
  abbrev pub dump_bursts : List (List (Mbuf × ℕ)) → List DumpEvent → List DumpEvent
  dump_bursts [] events = events
  dump_bursts (timed ∷ batches) events = dump_burst_event timed ∷ dump_bursts batches events

  abbrev pub flat : List (List (Mbuf × ℕ)) → List (Mbuf × ℕ)
  flat [] = []
  flat (timed ∷ batches) = timed ++ flat batches

  packets-append : (xs ys : List (Mbuf × ℕ)) → packets (xs ++ ys) ≡ packets xs ++ packets ys
  packets-append [] ys = refl
  packets-append ((m, seconds) ∷ xs) ys = ap (λ t. m ∷ t) (packets-append xs ys)

  early-append : (xs ys : List (Mbuf × ℕ)) → AreEarly (xs ++ ys) → AreEarly xs × AreEarly ys
  early-append [] ys h = (tt, h)
  early-append ((m, seconds) ∷ xs) ys h =
      let (here, there) = early-append xs ys h.1 in ((h.0, here), there)

  -- Rounds of the loop, before and after the thread is told to quit.
  dump_loop-running :
      (timed : List (Mbuf × ℕ)) (events : List DumpEvent) (st : DumpState floats rings)
      → st.source.quit ≡ false
      → dump_loop floats rings (dump_burst_event timed ∷ events) st
        ≡ (dump_burst floats rings timed st >>= λ mid. dump_loop floats rings events mid)
  unfolding dump_loop
  dump_loop-running timed events st running =
      ap {A = Bool} {B = Result (DumpState floats rings)}
        (λ (b : Bool). elim b [
          | true ↦ ok st
          | false ↦ dump_burst floats rings timed st >>= λ mid. dump_loop floats rings events mid
        ])
        running

  pub dump_loop-quit :
      (events : List DumpEvent) (st : DumpState floats rings)
      → st.source.quit ≡ true
      → dump_loop floats rings events st ≡ ok st
  unfolding dump_loop
  dump_loop-quit [] st stopped = rw stopped refl
  dump_loop-quit (dump_stop ∷ events) st stopped =
      dump_loop-quit events (record st { source = record st.source { quit = true } }) refl
      ∙ ap {A = Bool} {B = Result (DumpState floats rings)}
          (λ (b : Bool). ok (record st { source = record st.source { quit = b } })) (sym stopped)
  dump_loop-quit (dump_burst_event timed ∷ events) st stopped =
      ap {A = Bool} {B = Result (DumpState floats rings)}
        (λ (b : Bool). elim b [
          | true ↦ ok st
          | false ↦ dump_burst floats rings timed st >>= λ mid. dump_loop floats rings events mid
        ])
        stopped

  -- The bursts of the first three seconds are handled as one.
  pub dump_loop-early :
      (batches : List (List (Mbuf × ℕ))) (events : List DumpEvent) (st : DumpState floats rings)
      → st.source.quit ≡ false
      → AreTracked (packets (flat batches))
      → AreEarly (flat batches)
      → dump_loop floats rings (dump_bursts batches events) st
        ≡ (dump_burst floats rings (flat batches) st >>= λ mid. dump_loop floats rings events mid)
  unfolding dump_burst
  dump_loop-early [] events st running t early = refl
  dump_loop-early (timed ∷ batches) events st running t early =
      let t' =
        tracked-append (packets timed) (packets (flat batches))
          (subst AreTracked (packets-append timed (flat batches)) t) in
      let early' = early-append timed (flat batches) early in
      let p = dump_burst-early floats rings timed st t'.0 early'.0 in
      let rest = dump_loop-early batches events p.out (p.quit ∙ running) t'.1 early'.1 in
      dump_loop-running timed (dump_bursts batches events) st running
      ∙ (ap (λ r. r >>= λ mid. dump_loop floats rings (dump_bursts batches events) mid) p.returns
          ∙ (rest
              ∙ ap (λ r. r >>= λ mid. dump_loop floats rings events mid)
                  (sym (
                    dump_burst-append floats rings timed (flat batches) st
                    ∙ ap (λ r. r >>= λ mid. dump_burst floats rings (flat batches) mid)
                        p.returns))))

  pub dump_loop-IsDumped :
      (batches : List (List (Mbuf × ℕ))) (timed : List (Mbuf × ℕ)) (m : Mbuf) (seconds : ℕ)
      (events : List DumpEvent) (st : DumpState floats rings)
      → st.source.quit ≡ false
      → st.queues ≡ queues_of []
      → AreTracked (packets (flat batches) ++ (packets timed ++ m ∷ []))
      → AreEarly (flat batches)
      → AreEarly timed
      → 3 ≤ seconds
      → IsDumped floats rings st.source
          (lines (packets (flat batches) ++ (packets timed ++ m ∷ [])))
          no_queues
          (st.freed ++ (packets (flat batches) ++ (packets timed ++ m ∷ [])))
          (dump_loop floats rings
            (dump_bursts batches (dump_burst_event (timed ++ (m, seconds) ∷ []) ∷ events))
            st)
  dump_loop-IsDumped batches timed m seconds events st running empty all early early' late =
      let ms = packets (flat batches) in
      let last = timed ++ (m, seconds) ∷ [] in
      let t = tracked-append ms (packets timed ++ m ∷ []) all in
      let p = dump_burst-early floats rings (flat batches) st t.0 early in
      let d =
        dump_burst_lem floats rings ms timed m seconds p.out all early' late
          (p.queues ∙ (ap (push_all ms) empty ∙ push_all-queues [] ms)) in
      record {
        out = d.out;
        returns =
            dump_loop-early batches (dump_burst_event last ∷ events) st running t.0 early
            ∙ (ap (λ r. r >>= λ mid. dump_loop floats rings (dump_burst_event last ∷ events) mid)
                  p.returns
                ∙ (dump_loop-running last events p.out (p.quit ∙ running)
                    ∙ (ap (λ r. r >>= λ mid. dump_loop floats rings events mid) d.returns
                        ∙ dump_loop-quit events d.out d.quit)));
        file = d.file;
        queues = d.queues;
        freed_all =
            d.freed_all
            ∙ ap (λ (f : List Mbuf). f ++ (packets timed ++ m ∷ [])) p.freed
            ∙ append_assoc st.freed ms (packets timed ++ m ∷ []);
        quit = d.quit;
        streams = d.streams ∙ p.streams;
      }

  -- What the thread returns with: the file was written, and the port of its stream is shut down.
  pub record IsWritten (num_stream : ℕ) (port : ℤ) (ms : List Mbuf) (st : DumpState floats rings)
      (r : Result (DumpState floats rings × List PortCall)) : Type 0 where
    pub out : DumpState floats rings
    pub returns : r ≡ ok (out, flow_flush port ∷ dev_stop port ∷ dev_close port ∷ [])
    pub file : out.file ≡ lines ms
    pub queues : out.queues ≡ no_queues
    pub freed_all : out.freed ≡ st.freed ++ ms

  -- The dump of dumpThread: a thread that starts with empty queues and is not told to quit, and
  -- that receives packets of data or metadata only, each with a full payload, returns after the
  -- burst whose last packet is the first to come after three seconds, whatever arrives later, and
  -- shuts the port of its stream down. The file then has a line for each packet, in the order of
  -- their arrival: its header, and its 366 samples or its ten words of metadata; the queues are
  -- empty and every buffer is freed.
  pub dump_thread-IsWritten :
      (num_stream : ℕ) (stream : StreamAttr floats rings) (batches : List (List (Mbuf × ℕ)))
      (timed : List (Mbuf × ℕ)) (m : Mbuf) (seconds : ℕ) (events : List DumpEvent)
      (st : DumpState floats rings)
      → st.source.quit ≡ false
      → get_elem? st.source.streams num_stream ≡ some stream
      → st.queues ≡ no_queues
      → AreTracked (packets (flat batches) ++ (packets timed ++ m ∷ []))
      → AreEarly (flat batches)
      → AreEarly timed
      → 3 ≤ seconds
      → IsWritten num_stream stream.dpdk_port_id
          (packets (flat batches) ++ (packets timed ++ m ∷ []))
          st
          (dump_thread floats rings num_stream
            (dump_bursts batches (dump_burst_event (timed ++ (m, seconds) ∷ []) ∷ events))
            st)
  unfolding dump_thread
  dump_thread-IsWritten num_stream stream batches timed m seconds events st running found empty all
        early early' late =
      let d =
        dump_loop-IsDumped batches timed m seconds events st running empty all early early' late in
      record {
        out = d.out;
        returns = rw (d.returns, d.streams, found) refl;
        file = d.file;
        queues = d.queues;
        freed_all = d.freed_all;
      }
