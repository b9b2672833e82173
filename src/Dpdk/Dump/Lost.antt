-- ===== src/Dpdk/Dump/Lost.antt =====
-- What the file of dumpThread lacks: the packets before the last of a burst, once three seconds are
-- over, and the right samples behind a packet of a type that is neither data nor metadata.
use rs_jerry_driver.Common.{
  ℕ, ◌≤◌, ◌<◌, ◌≡◌, refl, ap, sym, ◌∙◌, true, false, List, [], ◌∷◌, ◌++◌, ok, take, words32, arith,
}
use mathlib.Core.List.{append-nil}
use rs_jerry_driver.Definitions.{samples_per_packet}
use rs_jerry_driver.Floats.{FloatOps}
use rs_jerry_driver.Header.{PacketType}
use rs_jerry_driver.Dpdk.{Mbuf, RingOps, is_valid_packet_type}
use rs_jerry_driver.Dpdk.Dump.{
  Queues, DumpState, hex, hex_words, is_metadata, pop_if, write_line, write_lines, dump_burst,
}
use rs_jerry_driver.Dpdk.Dump.Lines.{
  control_of, samples_of, words_of, lines, IsTracked, AreTracked, IsReadable, no_queues,
  samples_length, pop_words-append,
}
use rs_jerry_driver.Dpdk.Dump.Pushed.{pushed, packets, AreEarly}
use rs_jerry_driver.Dpdk.Dump.File.{
  IsDumped, dump_packet-early, dump_packet-flush, dump_packet-late, dump_burst_lem,
  dump_burst-append,
}

-- The samples of a packet.
abbrev samples : Mbuf → List ℕ
samples m = take samples_per_packet (words32 m.payload)

-- A packet of a type that is neither data nor metadata.
pub record IsStray (m : Mbuf) : Type 0 where
  pub readable : IsReadable m
  pub invalid : is_valid_packet_type readable.type_of ≡ false
  pub not_metadata : is_metadata readable.type_of ≡ false

pub record IsData (m : Mbuf) : Type 0 where
  pub readable : IsReadable m
  pub valid : is_valid_packet_type readable.type_of ≡ true

IsData-not_metadata : (t : PacketType) → is_valid_packet_type t ≡ true → is_metadata t ≡ false
unfolding is_valid_packet_type is_metadata
IsData-not_metadata t h = ground arith

pushed-samples :
    (m : Mbuf) (t : PacketType) (q : Queues)
    → control_of m ≡ ok t
    → is_metadata t ≡ false
    → pushed m q ≡ record q {
      hrzr_header = q.hrzr_header ++ m.hrzr ∷ [];
      hrzr_payload = q.hrzr_payload ++ samples m;
    }
pushed-samples m t q known other = rw (known, other, append-nil q.hrzr_meta) refl

write_lines-stray :
    (x m : Mbuf)
    → IsStray x
    → IsData m
    → write_lines (x.hrzr ∷ m.hrzr ∷ []) (samples x ++ samples m) []
      ≡ ok (
        hex 16 x.hrzr ∷ (hex 16 m.hrzr ++ hex_words (samples x)) ∷ [],
        record no_queues { hrzr_payload = samples m },
      )
unfolding write_lines write_line pop_if hex_words
write_lines-stray x m s d =
    rw
      (
        s.readable.known,
        s.invalid,
        s.not_metadata,
        d.readable.known,
        d.valid,
        pop_words-append samples_per_packet (samples x) (samples m)
            (samples_length x s.readable.full),
        IsData-not_metadata d.readable.type_of d.valid,
        append-nil (hex_words (samples x)),
        append-nil (hex 16 x.hrzr),
      )
      refl

module _ (floats : FloatOps) (rings : RingOps) where
  -- Once three seconds are over the file holds the last packet of a burst alone: for two packets
  -- of data or metadata with full payloads at the end of a burst, after others that are early, the
  -- second one is written over the lines of all before it.
  pub dump_burst-lost :
      (timed : List (Mbuf × ℕ)) (m n : Mbuf) (seconds later : ℕ) (st : DumpState floats rings)
      → AreTracked (packets timed ++ m ∷ [])
      → IsTracked n
      → AreEarly timed
      → 3 ≤ seconds
      → 3 ≤ later
      → st.queues ≡ no_queues
      → IsDumped floats rings st.source
          (lines (n ∷ []))
          no_queues
          ((st.freed ++ (packets timed ++ m ∷ [])) ++ n ∷ [])
          (dump_burst floats rings ((timed ++ (m, seconds) ∷ []) ++ (n, later) ∷ []) st)
  unfolding dump_burst
  dump_burst-lost timed m n seconds later st all last early late after empty =
      let d = dump_burst_lem floats rings [] timed m seconds st all early late empty in
      let e =
        dump_packet-late floats rings (n ∷ []) n later d.out (last, tt) last after
          (ap (pushed n) d.queues
            ∙ sym (
                rw
                  (append-nil (samples_of (control_of n) n), append-nil (words_of (control_of n) n))
                  refl)) in
      record {
        out = e.out;
        returns =
            dump_burst-append floats rings (timed ++ (m, seconds) ∷ []) ((n, later) ∷ []) st
            ∙ rw (d.returns, e.returns) refl;
        file = e.file;
        queues = e.queues;
        freed_all = e.freed_all ∙ ap (λ (f : List Mbuf). f ++ n ∷ []) d.freed_all;
        quit = e.quit;
        streams = e.streams ∙ d.streams;
      }

  -- The payload of a packet that is neither data nor metadata is kept, but not written with its
  -- header: the data packet that follows, the first one late, is written with the samples of that
  -- packet, and its own stay in the queue.
  pub dump_burst-stray :
      (x m : Mbuf) (seconds later : ℕ) (st : DumpState floats rings)
      → IsStray x
      → IsData m
      → seconds < 3
      → 3 ≤ later
      → st.queues ≡ no_queues
      → IsDumped floats rings st.source
          (hex 16 x.hrzr ∷ (hex 16 m.hrzr ++ hex_words (samples x)) ∷ [])
          (record no_queues { hrzr_payload = samples m })
          ((st.freed ++ x ∷ []) ++ m ∷ [])
          (dump_burst floats rings ((x, seconds) ∷ (m, later) ∷ []) st)
  unfolding dump_burst
  dump_burst-stray x m seconds later st s d early late empty =
      let p = dump_packet-early floats rings x seconds st s.readable early in
      let kept =
        ap (pushed m) (p.queues ∙ ap (pushed x) empty)
        ∙ (ap (pushed m)
              (pushed-samples x s.readable.type_of no_queues s.readable.known s.not_metadata)
            ∙ pushed-samples m d.readable.type_of
                (record { hrzr_header = x.hrzr ∷ []; hrzr_payload = samples x; hrzr_meta = [] })
                d.readable.known (IsData-not_metadata d.readable.type_of d.valid)) in
      let e =
        dump_packet-flush floats rings m later p.out
          (hex 16 x.hrzr ∷ (hex 16 m.hrzr ++ hex_words (samples x)) ∷ [])
          (record no_queues { hrzr_payload = samples m }) d.readable late
          (ap (λ (q : Queues). write_lines q.hrzr_header q.hrzr_payload q.hrzr_meta) kept
            ∙ write_lines-stray x m s d) in
      record {
        out = e.out;
        returns = rw (p.returns, e.returns) refl;
        file = e.file;
        queues = e.queues;
        freed_all = e.freed_all ∙ ap (λ (f : List Mbuf). f ++ m ∷ []) p.freed;
        quit = e.quit;
        streams = e.streams ∙ p.streams;
      }
