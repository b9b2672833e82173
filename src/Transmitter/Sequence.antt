-- ===== src/Transmitter/Sequence.antt =====
-- The sequence numbers of consecutive packets.
use rs_jerry_driver.Common.{
  ℕ, suc, ◌+◌, ◌*◌, ◌%◌, ◌≤◌, ◌<◌, ◌≡◌, refl, ap, ◌∙◌, List, [], ◌∷◌, Result, ok, ◌>>=◌, length,
  arith,
}
use rs_jerry_driver.Definitions.{samples_per_packet}
use rs_jerry_driver.Transmitter.{Transmitter, send_packet, next_sequence_number}
use rs_jerry_driver.Transmitter.Datagram.{datagram_of, send_packet_lem}

pub next_sequence_number_lem : (seq : ℕ) → seq < 4096 → next_sequence_number seq ≡ (seq + 1) % 4096
unfolding next_sequence_number
next_sequence_number_lem seq h = ground arith

-- A client that sends one packet after the other; the datagrams in the order of sending.
unfoldable pub send_all :
    List ℕ → List (List ℕ) → Transmitter → Result (Transmitter × List (List ℕ))
send_all memory [] t = ok (t, [])
send_all memory (samples ∷ more) t = do
  sent ← send_packet memory samples t
  rest ← send_all memory more sent.0
  ok (rest.0, sent.1 ∷ rest.1)

-- No packet has more than 366 samples.
abbrev pub AreSmall : List (List ℕ) → Type 0
AreSmall [] = Unit {0}
AreSmall (samples ∷ more) = (length samples ≤ samples_per_packet * 2) × AreSmall more

-- The datagrams of packets that are numbered on, modulo 4096, from a sequence number.
abbrev pub numbered : ℕ → List (List ℕ) → List (List ℕ)
numbered seq [] = []
numbered seq (samples ∷ more) = datagram_of seq samples ∷ numbered ((seq + 1) % 4096) more

pub send_packet_counts :
    (memory samples : List ℕ) (t : Transmitter)
    → length memory ≡ samples_per_packet * 2
    → length samples ≤ samples_per_packet * 2
    → t.current_sequence_number < 4096
    → send_packet memory samples t
      ≡ ok (
        record t { current_sequence_number = (t.current_sequence_number + 1) % 4096 },
        datagram_of t.current_sequence_number samples,
      )
send_packet_counts memory samples t hm hs hq =
    send_packet_lem memory samples t hm hs hq
    ∙ ap
        (λ (n : ℕ).
          ok (
            record t { current_sequence_number = n },
            datagram_of t.current_sequence_number samples,
          ))
        (next_sequence_number_lem t.current_sequence_number hq)

-- Consecutive calls of `sendPacket`, each with at most 366 samples and from a sequence number below
-- 4096 on, all succeed; the packets carry the sequence numbers from the current one on, modulo 4096, and the counter ends as many further,
-- modulo 4096. Nothing else of the transmitter changes.
pub send_all_lem :
    (memory : List ℕ) (packets : List (List ℕ)) (t : Transmitter)
    → length memory ≡ samples_per_packet * 2
    → AreSmall packets
    → t.current_sequence_number < 4096
    → send_all memory packets t
      ≡ ok (
        record t { current_sequence_number = (t.current_sequence_number + length packets) % 4096 },
        numbered t.current_sequence_number packets,
      )
unfolding send_all
send_all_lem memory [] t hm hs hq =
    let same : t.current_sequence_number ≡ (t.current_sequence_number + 0) % 4096 = omega arith in
    ap (λ (n : ℕ). ok (record t { current_sequence_number = n }, [])) same
send_all_lem memory (samples ∷ more) t hm hs hq =
    let seq = t.current_sequence_number in
    let t' = record t { current_sequence_number = (seq + 1) % 4096 } in
    let count : ((seq + 1) % 4096 + length more) % 4096 ≡ (seq + suc (length more)) % 4096 =
      omega arith in
    rw
      (
        send_packet_counts memory samples t hm hs.0 hq,
        send_all_lem memory more t' hm hs.1 (omega arith),
        count,
      )
      refl
