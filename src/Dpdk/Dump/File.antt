-- ===== src/Dpdk/Dump/File.antt =====
-- The file that dumpThread writes, and what it holds of the packets that were received.
use rs_jerry_driver.Common.{
  ℕ, ◌%◌, ◌≤◌, ◌<◌, ◌≡◌, refl, ap, sym, ◌∙◌, true, List, [], ◌∷◌, ◌++◌, none, Result, ok, ◌>>=◌,
  take, words32, leb-true, leb-false, ◌==◌, arith,
}
use mathlib.Core.List.{append-nil, append_assoc}
use rs_jerry_driver.Definitions.{samples_per_packet}
use rs_jerry_driver.Common.Results.{>>=_through}
use rs_jerry_driver.Floats.{FloatOps}
use rs_jerry_driver.Header.{
  PacketType, data_packet, data_end_of_burst, flow_control, command, command_response,
  command_response_error, metadata, get_sequence_number_from_header,
}
use rs_jerry_driver.Dpdk.{Mbuf, RingOps, DpdkSource}
use rs_jerry_driver.Dpdk.Rx.{report, count_packet}
use rs_jerry_driver.Dpdk.Dump.{
  Queues, DumpState, is_metadata, read_words, track, flush, dump_packet, dump_burst, write_lines,
}
use rs_jerry_driver.Dpdk.Dump.Lines.{
  control_of, IsTracked, AreTracked, IsReadable, IsTracked-IsReadable, no_queues, lines,
  read_words_lem, write_all, length-words32,
}
use rs_jerry_driver.Dpdk.Dump.Pushed.{
  pushed, packets, AreEarly, push_all, queues_of, tracked-append, push_all_last, push_all-queues,
}

module _ (floats : FloatOps) (rings : RingOps) where
  track_lem :
      (total : ℕ) (m : Mbuf) (q : Queues)
      → IsReadable m
      → track floats rings total m q ≡ ok (pushed m q)
  unfolding track is_metadata
  track_lem total m q t = go t.type_of t.known
    where
      every : (total % 1 == 0) ≡ true
      every = ground arith

      samples :
          read_words samples_per_packet (words32 m.payload)
          ≡ ok (take samples_per_packet (words32 m.payload))
      samples =
          read_words_lem samples_per_packet (words32 m.payload)
            (omega (arith, t.full, length-words32 m.payload))

      words : read_words 10 (words32 m.payload) ≡ ok (take 10 (words32 m.payload))
      words =
          read_words_lem 10 (words32 m.payload) (omega (arith, t.full, length-words32 m.payload))

      go :
          (type_of : PacketType)
          → control_of m ≡ ok type_of
          → track floats rings total m q ≡ ok (pushed m q)
      go metadata known = rw (known, every, words, append-nil) refl
      go data_packet known = rw (known, every, samples, append-nil) refl
      go data_end_of_burst known = rw (known, every, samples, append-nil) refl
      go flow_control known = rw (known, every, samples, append-nil) refl
      go command known = rw (known, every, samples, append-nil) refl
      go command_response known = rw (known, every, samples, append-nil) refl
      go command_response_error known = rw (known, every, samples, append-nil) refl

  count_packet-quit :
      (prev_seq seq : ℕ) (source : DpdkSource floats rings)
      → (count_packet floats rings prev_seq seq source).quit ≡ source.quit
  unfolding count_packet
  count_packet-quit prev_seq seq source = ground arith

  count_packet-streams :
      (prev_seq seq : ℕ) (source : DpdkSource floats rings)
      → (count_packet floats rings prev_seq seq source).streams ≡ source.streams
  unfolding count_packet
  count_packet-streams prev_seq seq source = ground arith

  -- The loop went through some packets, pushed them, and wrote nothing.
  pub record IsPushed (ms : List Mbuf) (st : DumpState floats rings)
      (r : Result (DumpState floats rings)) : Type 0 where
    pub out : DumpState floats rings
    pub returns : r ≡ ok out
    pub queues : out.queues ≡ push_all ms st.queues
    pub freed : out.freed ≡ st.freed ++ ms
    pub file : out.file ≡ st.file
    pub quit : out.source.quit ≡ st.source.quit
    pub streams : out.source.streams ≡ st.source.streams

  pub dump_packet-early :
      (m : Mbuf) (seconds : ℕ) (st : DumpState floats rings)
      → IsReadable m
      → seconds < 3
      → IsPushed (m ∷ []) st (dump_packet floats rings m seconds st)
  unfolding dump_packet
  dump_packet-early m seconds st t early =
      let seq = get_sequence_number_from_header m.hrzr in
      let source = count_packet floats rings st.seq seq st.source in
      record {
        out = record {
          source = source;
          seq = seq;
          queues = pushed m st.queues;
          freed = st.freed ++ m ∷ [];
          printed = report none st.seq seq st.printed;
          file = st.file;
        };
        returns = rw (track_lem source.total_packets m st.queues t, leb-false 3 seconds early) refl;
        queues = refl;
        freed = refl;
        file = refl;
        quit = count_packet-quit st.seq seq st.source;
        streams = count_packet-streams st.seq seq st.source;
      }

  pub dump_burst-early :
      (timed : List (Mbuf × ℕ)) (st : DumpState floats rings)
      → AreTracked (packets timed)
      → AreEarly timed
      → IsPushed (packets timed) st (dump_burst floats rings timed st)
  unfolding dump_burst
  dump_burst-early [] st t early = record {
    out = st;
    returns = refl;
    queues = refl;
    freed = sym (append-nil st.freed);
    file = refl;
    quit = refl;
    streams = refl;
  }
  dump_burst-early ((m, seconds) ∷ timed) st t early =
      let p = dump_packet-early m seconds st (IsTracked-IsReadable m t.0) early.0 in
      let rest = dump_burst-early timed p.out t.1 early.1 in
      record {
        out = rest.out;
        returns = rw (p.returns, rest.returns) refl;
        queues = rest.queues ∙ ap (push_all (packets timed)) p.queues;
        freed =
            rest.freed
            ∙ ap (λ (f : List Mbuf). f ++ packets timed) p.freed
            ∙ append_assoc st.freed (m ∷ []) (packets timed);
        file = rest.file ∙ p.file;
        quit = rest.quit ∙ p.quit;
        streams = rest.streams ∙ p.streams;
      }

  pub dump_burst-append :
      (xs ys : List (Mbuf × ℕ)) (st : DumpState floats rings)
      → dump_burst floats rings (xs ++ ys) st
        ≡ (dump_burst floats rings xs st >>= λ mid. dump_burst floats rings ys mid)
  unfolding dump_burst
  dump_burst-append [] ys st = refl
  dump_burst-append ((m, seconds) ∷ xs) ys st =
      >>=_through (dump_packet floats rings m seconds st)
        (λ mid. dump_burst floats rings (xs ++ ys) mid) (λ mid. dump_burst floats rings xs mid)
        (λ last. dump_burst floats rings ys last) (λ mid. dump_burst-append xs ys mid)

  -- The file was written with these lines, the thread is told to quit, and what is left.
  pub record IsDumped (before : DpdkSource floats rings) (written : List (List ℕ)) (left : Queues)
      (freed : List Mbuf) (r : Result (DumpState floats rings)) : Type 0 where
    pub out : DumpState floats rings
    pub returns : r ≡ ok out
    pub file : out.file ≡ written
    pub queues : out.queues ≡ left
    pub freed_all : out.freed ≡ freed
    pub quit : out.source.quit ≡ true
    pub streams : out.source.streams ≡ before.streams

  -- A packet that comes after three seconds: everything in the queues is written.
  pub dump_packet-flush :
      (m : Mbuf) (seconds : ℕ) (st : DumpState floats rings) (written : List (List ℕ))
      (left : Queues)
      → IsReadable m
      → 3 ≤ seconds
      → (let q = pushed m st.queues in write_lines q.hrzr_header q.hrzr_payload q.hrzr_meta)
        ≡ ok (written, left)
      → IsDumped st.source written left (st.freed ++ m ∷ []) (dump_packet floats rings m seconds st)
  unfolding dump_packet flush
  dump_packet-flush m seconds st written left t late w =
      let seq = get_sequence_number_from_header m.hrzr in
      let source = count_packet floats rings st.seq seq st.source in
      record {
        out = record {
          source = record source { quit = true };
          seq = seq;
          queues = left;
          freed = st.freed ++ m ∷ [];
          printed = report none st.seq seq st.printed;
          file = written;
        };
        returns =
            rw (track_lem source.total_packets m st.queues t, leb-true 3 seconds late, w) refl;
        file = refl;
        queues = refl;
        freed_all = refl;
        quit = refl;
        streams = count_packet-streams st.seq seq st.source;
      }

  pub dump_packet-late :
      (ms : List Mbuf) (m : Mbuf) (seconds : ℕ) (st : DumpState floats rings)
      → AreTracked ms
      → IsTracked m
      → 3 ≤ seconds
      → pushed m st.queues ≡ queues_of ms
      → IsDumped st.source
          (lines ms)
          no_queues
          (st.freed ++ m ∷ [])
          (dump_packet floats rings m seconds st)
  dump_packet-late ms m seconds st all t late q =
      dump_packet-flush m seconds st (lines ms) no_queues (IsTracked-IsReadable m t) late (
        ap (λ (x : Queues). write_lines x.hrzr_header x.hrzr_payload x.hrzr_meta) q
        ∙ write_all ms all)

  pub dump_burst_lem :
      (prior : List Mbuf) (timed : List (Mbuf × ℕ)) (m : Mbuf) (seconds : ℕ)
      (st : DumpState floats rings)
      → AreTracked (prior ++ (packets timed ++ m ∷ []))
      → AreEarly timed
      → 3 ≤ seconds
      → st.queues ≡ queues_of prior
      → IsDumped st.source
          (lines (prior ++ (packets timed ++ m ∷ [])))
          no_queues
          (st.freed ++ (packets timed ++ m ∷ []))
          (dump_burst floats rings (timed ++ (m, seconds) ∷ []) st)
  unfolding dump_burst
  dump_burst_lem prior timed m seconds st all early late found =
      let (before, last) =
        tracked-append (packets timed) (m ∷ [])
          (tracked-append prior (packets timed ++ m ∷ []) all).1 in
      let p = dump_burst-early timed st before early in
      let d =
        dump_packet-late (prior ++ (packets timed ++ m ∷ [])) m seconds p.out all last.0 late (
          ap (pushed m) (p.queues ∙ ap (push_all (packets timed)) found)
          ∙ (sym (push_all_last (packets timed) m (queues_of prior))
              ∙ push_all-queues prior (packets timed ++ m ∷ []))) in
      record {
        out = d.out;
        returns = dump_burst-append timed ((m, seconds) ∷ []) st ∙ rw (p.returns, d.returns) refl;
        file = d.file;
        queues = d.queues;
        freed_all =
            d.freed_all
            ∙ ap (λ (f : List Mbuf). f ++ m ∷ []) p.freed
            ∙ append_assoc st.freed (packets timed) (m ∷ []);
        quit = d.quit;
        streams = d.streams ∙ p.streams;
      }
