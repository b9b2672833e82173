-- ===== src/Dpdk/Dump/Pushed.antt =====
-- What packets leave in the queues of dumpThread, one after the other.
use rs_jerry_driver.Common.{ℕ, ◌<◌, ◌≡◌, refl, sym, ◌∙◌, List, [], ◌∷◌, ◌++◌}
use mathlib.Core.List.{append-nil, append_assoc}
use rs_jerry_driver.Header.{}
use rs_jerry_driver.Dpdk.{Mbuf}
use rs_jerry_driver.Dpdk.Dump.{Queues}
use rs_jerry_driver.Dpdk.Dump.Lines.{
  control_of, samples_of, words_of, AreTracked, headers, payloads, metas, headers-append,
  payloads-append, metas-append,
}

-- The packet's parts at the ends of the queues.
abbrev pub pushed : Mbuf → Queues → Queues
pushed m q = record {
  hrzr_header = q.hrzr_header ++ m.hrzr ∷ [];
  hrzr_payload = q.hrzr_payload ++ samples_of (control_of m) m;
  hrzr_meta = q.hrzr_meta ++ words_of (control_of m) m;
}

-- Packets with the seconds on the clock.
abbrev pub packets : List (Mbuf × ℕ) → List Mbuf
packets [] = []
packets ((m, seconds) ∷ timed) = m ∷ packets timed

-- All of them within the first three seconds.
abbrev pub AreEarly : List (Mbuf × ℕ) → Type 0
AreEarly [] = Unit {0}
AreEarly ((m, seconds) ∷ timed) = (seconds < 3) × AreEarly timed

abbrev pub push_all : List Mbuf → Queues → Queues
push_all [] q = q
push_all (m ∷ ms) q = push_all ms (pushed m q)

pub push_all_lem :
    (ms : List Mbuf) (q : Queues)
    → push_all ms q ≡ record {
      hrzr_header = q.hrzr_header ++ headers ms;
      hrzr_payload = q.hrzr_payload ++ payloads ms;
      hrzr_meta = q.hrzr_meta ++ metas ms;
    }
push_all_lem [] q =
    rw (append-nil q.hrzr_header, append-nil q.hrzr_payload, append-nil q.hrzr_meta) refl
push_all_lem (m ∷ ms) q =
    push_all_lem ms (pushed m q)
    ∙ rw
        (
          append_assoc q.hrzr_header (m.hrzr ∷ []) (headers ms),
          append_assoc q.hrzr_payload (samples_of (control_of m) m) (payloads ms),
          append_assoc q.hrzr_meta (words_of (control_of m) m) (metas ms),
        )
        refl

abbrev pub queues_of : List Mbuf → Queues
queues_of ms = record { hrzr_header = headers ms; hrzr_payload = payloads ms; hrzr_meta = metas ms }

pub tracked-append : (ms ns : List Mbuf) → AreTracked (ms ++ ns) → AreTracked ms × AreTracked ns
tracked-append [] ns t = (tt, t)
tracked-append (m ∷ ms) ns t = let (here, there) = tracked-append ms ns t.1 in ((t.0, here), there)

pub push_all_last :
    (ms : List Mbuf) (m : Mbuf) (q : Queues) → push_all (ms ++ m ∷ []) q ≡ pushed m (push_all ms q)
push_all_last [] m q = refl
push_all_last (n ∷ ms) m q = push_all_last ms m (pushed n q)

-- The packets' parts behind those of earlier packets.
pub push_all-queues :
    (prior ms : List Mbuf) → push_all ms (queues_of prior) ≡ queues_of (prior ++ ms)
push_all-queues prior ms =
    push_all_lem ms (queues_of prior)
    ∙ sym (rw (headers-append prior ms, payloads-append prior ms, metas-append prior ms) refl)
