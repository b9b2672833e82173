-- ===== src/Dpdk/Samples/Dequeue.antt =====
-- The loop of DpdkSource::getSamples over the packets of a burst.
use rs_jerry_driver.Common.{
  ℕ, zero, suc, ◌+◌, ◌*◌, ◌/◌, ◌^◌, ◌≤◌, ◌<◌, ◌≡◌, refl, sym, ◌∙◌, ◌⊎◌, ℤ, pos, false, List, [],
  ◌∷◌, ◌++◌, some, Result, ok, err, undefined, inl, checked_int_fits, u16, words16, length-words16,
  length, get_elem?, ◌==◌, dec_lt, arith,
}
use mathlib.Core.List.{append-nil, append_assoc}
use rs_jerry_driver.Definitions.{payload_size, samples_per_packet}
use rs_jerry_driver.Floats.{FloatOps, Complex}
use rs_jerry_driver.Parser.Loop.{
  sample, parse_payload_samples-IsParsed, parse_payload_samples_overflow,
}
use rs_jerry_driver.Dpdk.{Mbuf, RingOps, StreamAttr, DpdkSource}
use rs_jerry_driver.Dpdk.Samples.{
  Dequeued, dequeue_packet, dequeue_from, get_samples, packets_to_dequeue,
}

-- The data room of every buffer holds a payload of the full size behind the headers.
abbrev pub AreFull : List Mbuf → Type 0
AreFull [] = Unit {0}
AreFull (m ∷ mbufs) = (payload_size ≤ length m.payload) × AreFull mbufs

-- The payload of a packet of a burst.
abbrev pub payload_at : List Mbuf → ℕ → List ℕ
payload_at [] i = []
payload_at (m ∷ mbufs) zero = m.payload
payload_at (m ∷ mbufs) (suc i) = payload_at mbufs i

-- What holds of the slot of a packet and of those behind it holds of all of them.
inside-cons :
    {A : Type 0} (read : ℕ → A) (want : ℕ → ℕ → A) (n packet_idx : ℕ)
    → ((k : ℕ) → k < samples_per_packet → read (packet_idx * samples_per_packet + k) ≡ want 0 k)
    → ((i k : ℕ)
        → i < n
        → k < samples_per_packet
        → read ((packet_idx + 1 + i) * samples_per_packet + k) ≡ want (suc i) k)
    → (i k : ℕ) → i < suc n
    → k < samples_per_packet
    → read ((packet_idx + i) * samples_per_packet + k) ≡ want i k
inside-cons read want n packet_idx here later zero k hi hk =
    let e : (packet_idx + 0) * samples_per_packet + k ≡ packet_idx * samples_per_packet + k =
      omega arith in
    rw e (here k hk)
inside-cons read want n packet_idx here later (suc i) k hi hk =
    let e : (packet_idx + suc i) * samples_per_packet + k
        ≡ (packet_idx + 1 + i) * samples_per_packet + k =
      omega arith in
    rw e (later i k (omega arith) hk)

module _ (floats : FloatOps) (rings : RingOps) (source : DpdkSource floats rings) where
  -- The loop decoded every packet into the slot of its index, counted 366 samples for each and
  -- freed them all.
  pub record AreDequeued (packet_idx : ℕ) (mbufs : List Mbuf) (d : Dequeued floats rings)
      (result : Result (Dequeued floats rings)) : Type 0 where
    pub out : Dequeued floats rings
    pub returns : result ≡ ok out
    pub counted : out.total ≡ d.total + length mbufs * samples_per_packet
    pub freed : out.freed ≡ d.freed ++ mbufs
    pub same_length : length out.samples ≡ length d.samples
    pub inside :
        (i k : ℕ)
        → i < length mbufs
        → k < samples_per_packet
        → get_elem? out.samples ((packet_idx + i) * samples_per_packet + k)
          ≡ some (sample floats source.hrzr_parser (words16 (payload_at mbufs i)) k)
    pub outside :
        (j : ℕ)
        → (j < packet_idx * samples_per_packet)
          ⊎ ((packet_idx + length mbufs) * samples_per_packet ≤ j)
        → get_elem? out.samples j ≡ get_elem? d.samples j

  enough_words :
      (m : Mbuf)
      → payload_size ≤ length m.payload
      → samples_per_packet * 2 ≤ length (words16 m.payload)
  enough_words m h = omega (arith, length-words16 m.payload)

  dequeue_from-AreDequeued :
      (mbufs : List Mbuf) (packet_idx : ℕ) (d : Dequeued floats rings)
      → AreFull mbufs
      → (packet_idx + length mbufs) * samples_per_packet ≤ length d.samples
      → (packet_idx + length mbufs) * samples_per_packet ≤ 2 ^ 31
      → d.total ≤ packet_idx * samples_per_packet
      → AreDequeued packet_idx mbufs d (dequeue_from floats rings source packet_idx mbufs d)
  unfolding dequeue_from dequeue_packet
  dequeue_from-AreDequeued [] packet_idx d full fits small few = record {
    out = d;
    returns = refl;
    counted = omega arith;
    freed = sym (append-nil d.freed);
    same_length = refl;
    inside = λ i k hi hk. absurd (omega arith);
    outside = λ j h. refl;
  }
  dequeue_from-AreDequeued (m ∷ mbufs) packet_idx d full fits small few =
      let s =
        parse_payload_samples-IsParsed floats source.hrzr_parser packet_idx (words16 m.payload)
          d.samples (enough_words m full.0) (omega arith) (omega arith) in
      let count = checked_int_fits (d.total + samples_per_packet) (omega arith) in
      let d' : Dequeued floats rings = record {
        samples = s.out;
        total = d.total + samples_per_packet;
        freed = d.freed ++ m ∷ [];
      } in
      let t =
        dequeue_from-AreDequeued mbufs (packet_idx + 1) d' full.1 (rw s.same_length (omega arith))
          (omega arith) (omega arith) in
      record {
        out = t.out;
        returns = rw (s.returns, count) t.returns;
        counted = omega (arith, t.counted);
        freed = t.freed ∙ append_assoc d.freed (m ∷ []) mbufs;
        same_length = t.same_length ∙ s.same_length;
        inside =
            inside-cons (λ j. get_elem? t.out.samples j)
              (λ i k.
                some (sample floats source.hrzr_parser (words16 (payload_at (m ∷ mbufs) i)) k))
              (length mbufs) packet_idx
              (λ k h.
                t.outside (packet_idx * samples_per_packet + k) (omega arith)
                ∙ s.inside k (omega arith) h)
              t.inside;
        outside = λ j h. t.outside j (omega arith) ∙ s.outside j (omega arith);
      }

  dequeue_from_overflow :
      (mbufs : List Mbuf) (packet_idx : ℕ) (d : Dequeued floats rings)
      → AreFull mbufs
      → 0 < length mbufs
      → packet_idx * samples_per_packet ≤ length d.samples
      → length d.samples < (packet_idx + length mbufs) * samples_per_packet
      → (packet_idx + length mbufs) * samples_per_packet ≤ 2 ^ 31
      → d.total ≤ packet_idx * samples_per_packet
      → dequeue_from floats rings source packet_idx mbufs d ≡ err undefined
  unfolding dequeue_from dequeue_packet
  dequeue_from_overflow [] packet_idx d full some_packet start past small few = absurd (omega arith)
  dequeue_from_overflow (m ∷ mbufs) packet_idx d full some_packet start past small few =
      let words = words16 m.payload in
      elim (dec_lt (length d.samples) (packet_idx * samples_per_packet + samples_per_packet)) [
        | yes short ↦
            rw
              (parse_payload_samples_overflow floats source.hrzr_parser packet_idx words d.samples
                (enough_words m full.0) (inl short))
              refl
        | no room ↦
            let s =
              parse_payload_samples-IsParsed floats source.hrzr_parser packet_idx words d.samples
                (enough_words m full.0) (omega arith) (omega arith) in
            let count = checked_int_fits (d.total + samples_per_packet) (omega arith) in
            let d' : Dequeued floats rings = record {
              samples = s.out;
              total = d.total + samples_per_packet;
              freed = d.freed ++ m ∷ [];
            } in
            rw (s.returns, count)
              (dequeue_from_overflow mbufs (packet_idx + 1) d' full.1 (omega arith)
                (rw s.same_length (omega arith)) (rw s.same_length (omega arith)) (omega arith)
                (omega arith))
      ]

  module _ (k : ℕ) (stream : StreamAttr floats rings) (rx_burst : ℤ → ℕ → List Mbuf) (n : ℕ)
      (found : get_elem? source.streams k ≡ some stream) (small : n < 65535 * samples_per_packet)
      (full : AreFull (rx_burst stream.dpdk_port_id (n / samples_per_packet + 1))) where
    abbrev burst : List Mbuf
    burst = rx_burst stream.dpdk_port_id (n / samples_per_packet + 1)

    enters :
        (samples : List (Complex floats.Float))
        → get_samples floats rings k (pos n) rx_burst samples source
          ≡ dequeue_from floats rings source 0 burst
              (record { samples = samples; total = 0; freed = [] })
    unfolding get_samples packets_to_dequeue
    enters samples =
        let wanted : u16 (n / samples_per_packet + 1) ≡ n / samples_per_packet + 1 = omega arith in
        let positive : (n / samples_per_packet + 1 == 0) ≡ false = ground arith in
        rw (found, positive, wanted) refl

    -- Total correctness of DpdkSource::getSamples: for a request below 65535 packets, on a stream
    -- that exists, with full payloads, a burst whose size is a `uint16_t` (as `rte_eth_rx_burst`
    -- returns it) and a caller's array that holds 366 samples for each packet of the burst, the
    -- call returns 366 for each packet; the packets' samples fill the array from
    -- its beginning, packet by packet, the rest of the array is as before, and every buffer of
    -- the burst is freed.
    pub get_samples-AreDequeued :
        (samples : List (Complex floats.Float))
        → length (rx_burst stream.dpdk_port_id (n / samples_per_packet + 1)) * samples_per_packet
          ≤ length samples
        → length (rx_burst stream.dpdk_port_id (n / samples_per_packet + 1)) < 2 ^ 16
        → AreDequeued 0
            (rx_burst stream.dpdk_port_id (n / samples_per_packet + 1))
            (record { samples = samples; total = 0; freed = [] })
            (get_samples floats rings k (pos n) rx_burst samples source)
    get_samples-AreDequeued samples fits counted = rw (enters samples) (
        dequeue_from-AreDequeued burst 0 (record { samples = samples; total = 0; freed = [] }) full
          (omega arith) (omega arith) (omega arith))

    -- With an array of exactly the number of samples that is asked for, DpdkSource::getSamples
    -- writes past its end whenever the card delivers as many packets as the call asks it for.
    pub get_samples_burst_overflow :
        (samples : List (Complex floats.Float))
        → length samples ≡ n
        → length (rx_burst stream.dpdk_port_id (n / samples_per_packet + 1))
          ≡ n / samples_per_packet + 1
        → get_samples floats rings k (pos n) rx_burst samples source ≡ err undefined
    get_samples_burst_overflow samples size all =
        enters samples
        ∙ dequeue_from_overflow burst 0 (record { samples = samples; total = 0; freed = [] }) full
            (omega arith) (omega arith) (omega arith) (omega arith) (omega arith)
