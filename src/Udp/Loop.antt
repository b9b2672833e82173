-- ===== src/Udp/Loop.antt =====
-- The loop of UdpSource::getSamples over the datagrams that arrive, and the caller's array.
use rs_jerry_driver.Common.{
  ℕ, zero, suc, ◌+◌, ◌*◌, ◌/◌, ◌^◌, ◌≤◌, ◌<◌, ◌≡◌, ◌≢◌, refl, ap, ap₂, ◌∙◌, ◌⊎◌, ℤ, pos, List, [],
  ◌∷◌, Option, Result, ok, err, undefined, inl, inr, checked_int_fits, checked_int_overflow, dec_lt,
  length, get_or, get_elem?, arith,
}
use rs_jerry_driver.Definitions.{packet_size, samples_per_packet}
use rs_jerry_driver.Floats.{FloatOps, Complex}
use rs_jerry_driver.Parser.{HrzrParser}
use rs_jerry_driver.Udp.{
  Receiving, Arrival, datagram, receive_packet, receive_from, get_samples, packets_to_dequeue,
}
use rs_jerry_driver.Udp.Receive.{
  Kind, too_short, other, carrier, malformed, kind, worth, slot, IsReceived,
  receive_packet-IsReceived, receive_packet_overflow,
}

-- The arrivals of some datagrams before others.
abbrev pub arriving : List (List ℕ) → List Arrival → List Arrival
arriving [] rest = rest
arriving (bytes ∷ packets) rest = datagram bytes ∷ arriving packets rest

-- Every datagram has control bits that the header parser knows, or is skipped for its size.
abbrev pub Known : List (List ℕ) → Type 0
Known [] = Unit {0}
Known (bytes ∷ packets) = (kind bytes ≢ malformed) × Known packets

-- 366 for each data packet of the full size.
abbrev pub worth_all : List (List ℕ) → ℕ
worth_all [] = 0
worth_all (bytes ∷ packets) = worth (kind bytes) + worth_all packets

worth_most : (c : Kind) → worth c ≤ samples_per_packet
worth_most carrier = omega arith
worth_most _ = omega arith

carrier-or : (c : Kind) → (c ≡ carrier) ⊎ (c ≢ carrier)
carrier-or carrier = inl refl
carrier-or too_short = inr (λ e. cc)
carrier-or other = inr (λ e. cc)
carrier-or malformed = inr (λ e. cc)

module _ (floats : FloatOps) where
  -- The loop consumed the datagrams and wrote, for each data packet, the slot of its index.
  pub record AreReceived (packet_idx : ℕ) (packets : List (List ℕ)) (rest : List Arrival)
      (total : ℕ) (r : Receiving floats) (result : Result (Receiving floats × ℕ)) : Type 0 where
    pub out : Receiving floats
    pub returns : result ≡ ok (out, total + worth_all packets)
    pub consumed : out.queue ≡ rest
    pub same_parser : out.source.hrzr_parser ≡ r.source.hrzr_parser
    pub same_buffer : length out.source.buf ≡ length r.source.buf
    pub same_length : length out.samples ≡ length r.samples
    pub inside :
        (i k : ℕ)
        → i < length packets
        → k < samples_per_packet
        → get_elem? out.samples ((packet_idx + i) * samples_per_packet + k)
          ≡ slot floats r.source.hrzr_parser
              (kind (get_or packets i []))
              (get_or packets i [])
              k
              (get_elem? r.samples ((packet_idx + i) * samples_per_packet + k))
    pub outside :
        (j : ℕ)
        → (j < packet_idx * samples_per_packet)
          ⊎ ((packet_idx + length packets) * samples_per_packet ≤ j)
        → get_elem? out.samples j ≡ get_elem? r.samples j

  receive_from-suc :
      (left packet_idx total : ℕ) {n : ℕ} (r : Receiving floats) {out : Receiving floats}
      → receive_packet floats packet_idx r ≡ ok (out, n)
      → total + n < 2 ^ 31
      → receive_from floats (suc left) packet_idx total r
        ≡ receive_from floats left (packet_idx + 1) (total + n) out
  unfolding receive_from
  receive_from-suc left packet_idx total {n} r e small =
      rw (e, checked_int_fits (total + n) small) refl

  receive_from-undefined :
      (left packet_idx total : ℕ) {n : ℕ} (r : Receiving floats) {out : Receiving floats}
      → receive_packet floats packet_idx r ≡ ok (out, n)
      → 2 ^ 31 ≤ total + n
      → receive_from floats (suc left) packet_idx total r ≡ err undefined
  unfolding receive_from
  receive_from-undefined left packet_idx total {n} r e large =
      rw (e, checked_int_overflow (total + n) large) refl

  AreReceived-cons :
      {packet_idx total : ℕ} {bytes : List ℕ} {packets : List (List ℕ)} {rest queue : List Arrival}
      {r : Receiving floats}
      (s : IsReceived floats packet_idx bytes queue r (receive_packet floats packet_idx r))
      → total + worth (kind bytes) < 2 ^ 31
      → AreReceived
          (packet_idx + 1)
          packets
          rest
          (total + worth (kind bytes))
          s.out
          (receive_from floats (length packets) (packet_idx + 1) (total + worth (kind bytes)) s.out)
      → AreReceived packet_idx
          (bytes ∷ packets)
          rest
          total
          r
          (receive_from floats (suc (length packets)) packet_idx total r)
  AreReceived-cons {packet_idx} {total} {bytes} {packets} {r} s small t = record {
    out = t.out;
    returns =
        receive_from-suc (length packets) packet_idx total r s.returns small
        ∙ t.returns
        ∙ ap (λ (n : ℕ). ok (t.out, n)) (omega arith);
    consumed = t.consumed;
    same_parser = t.same_parser ∙ s.same_parser;
    same_buffer = t.same_buffer ∙ s.same_buffer;
    same_length = t.same_length ∙ s.same_length;
    inside = go;
    outside = λ j h. t.outside j (omega arith) ∙ s.outside j (omega arith);
  }
    where
      go :
          (i k : ℕ)
          → i < suc (length packets)
          → k < samples_per_packet
          → get_elem? t.out.samples ((packet_idx + i) * samples_per_packet + k)
            ≡ slot floats r.source.hrzr_parser
                (kind (get_or (bytes ∷ packets) i []))
                (get_or (bytes ∷ packets) i [])
                k
                (get_elem? r.samples ((packet_idx + i) * samples_per_packet + k))
      go zero k hi hk =
          let e : (packet_idx + 0) * samples_per_packet + k ≡ packet_idx * samples_per_packet + k =
            omega arith in
          rw e (t.outside (packet_idx * samples_per_packet + k) (omega arith) ∙ s.inside k hk)
      go (suc i) k hi hk =
          let place = (packet_idx + 1 + i) * samples_per_packet + k in
          let e : (packet_idx + suc i) * samples_per_packet + k ≡ place = omega arith in
          rw e (
            t.inside i k (omega arith) hk
            ∙ ap₂
                (λ (p : HrzrParser floats) (old : Option (Complex floats.Float)).
                  slot floats p (kind (get_or packets i [])) (get_or packets i []) k old)
                s.same_parser (s.outside place (omega arith)))

  receive_from-AreReceived :
      (packets : List (List ℕ)) (rest : List Arrival) (packet_idx total : ℕ) (r : Receiving floats)
      → r.queue ≡ arriving packets rest
      → length r.source.buf ≡ packet_size
      → Known packets
      → (packet_idx + length packets) * samples_per_packet ≤ length r.samples
      → (packet_idx + length packets) * samples_per_packet ≤ 2 ^ 31
      → total ≤ packet_idx * samples_per_packet
      → AreReceived packet_idx packets rest total r
          (receive_from floats (length packets) packet_idx total r)
  receive_from-AreReceived [] rest packet_idx total r q b known fits small few = record {
    out = r;
    returns = unfold receive_from in ap (λ (n : ℕ). ok (r, n)) (omega arith);
    consumed = q;
    same_parser = refl;
    same_buffer = refl;
    same_length = refl;
    inside = λ i k hi hk. absurd (omega arith);
    outside = λ j h. refl;
  }
  receive_from-AreReceived (bytes ∷ packets) rest packet_idx total r q b known fits small few =
      let most : worth (kind bytes) ≤ samples_per_packet = worth_most (kind bytes) in
      let s =
        receive_packet-IsReceived floats packet_idx bytes (arriving packets rest) r q b known.0
          (omega arith) (λ e. omega arith) in
      AreReceived-cons s (omega (arith, most)) (
        receive_from-AreReceived packets rest (packet_idx + 1) (total + worth (kind bytes)) s.out
          s.consumed (s.same_buffer ∙ b) known.1 (rw s.same_length (omega arith)) (omega arith)
          (omega (arith, most)))

  -- Total correctness of UdpSource::getSamples: with the receive buffer of the class, as many
  -- datagrams to come as the loop asks for (`number_of_samples / 366 + 1`, none of them malformed)
  -- and a caller's array that holds 366 samples for each of them, all whose indices fit an `int`
  -- (`number_of_samples` up to 2147483405), the call returns, consumes just
  -- those datagrams, and reports 366 samples for each data packet of the full size. The slot of
  -- each such packet, at 366 times its index among all datagrams, holds its decoded samples; every
  -- other element keeps its value, also the slots of packets that were skipped.
  pub get_samples-AreReceived :
      (number_of_samples : ℤ) (packets : List (List ℕ)) (rest : List Arrival) (r : Receiving floats)
      → length packets ≡ packets_to_dequeue number_of_samples
      → r.queue ≡ arriving packets rest
      → length r.source.buf ≡ packet_size
      → Known packets
      → length packets * samples_per_packet ≤ length r.samples
      → length packets * samples_per_packet ≤ 2 ^ 31
      → AreReceived 0 packets rest 0 r (get_samples floats number_of_samples r)
  unfolding get_samples
  get_samples-AreReceived number_of_samples packets rest r n q b known fits small = rw (← n) (
      receive_from-AreReceived packets rest 0 0 r q b known (omega arith) (omega arith)
        (omega arith))

  receive_from_overflow :
      (packets : List (List ℕ)) (rest : List Arrival) (last : List ℕ) (packet_idx total : ℕ)
      (r : Receiving floats)
      → r.queue ≡ arriving packets (datagram last ∷ rest)
      → length r.source.buf ≡ packet_size
      → Known packets
      → kind last ≡ carrier
      → (packet_idx + length packets) * samples_per_packet ≤ length r.samples
      → length r.samples < (packet_idx + length packets + 1) * samples_per_packet
      → receive_from floats (suc (length packets)) packet_idx total r ≡ err undefined
  receive_from_overflow [] rest last packet_idx total r q b known c fits past =
      unfold receive_from in
      rw (receive_packet_overflow floats packet_idx last rest r q b c (inl (omega arith))) refl
  receive_from_overflow (bytes ∷ packets) rest last packet_idx total r q b known c fits past =
      let queue = arriving packets (datagram last ∷ rest) in
      let goes_on : (kind bytes ≡ carrier
            → packet_idx * samples_per_packet + samples_per_packet ≤ 2 ^ 31)
          → receive_from floats (suc (suc (length packets))) packet_idx total r ≡ err undefined =
        λ small.
          let s =
            receive_packet-IsReceived floats packet_idx bytes queue r q b known.0 (omega arith)
              small in
          elim (dec_lt (total + worth (kind bytes)) (2 ^ 31)) [
            | no large ↦
                receive_from-undefined (suc (length packets)) packet_idx total r s.returns
                  (omega arith)
            | yes counted ↦
                receive_from-suc (suc (length packets)) packet_idx total r s.returns counted
                ∙ receive_from_overflow packets rest last (packet_idx + 1)
                    (total + worth (kind bytes)) s.out s.consumed (s.same_buffer ∙ b) known.1 c
                    (rw s.same_length (omega arith)) (rw s.same_length (omega arith))
          ] in
      elim (dec_lt (2 ^ 31) (packet_idx * samples_per_packet + samples_per_packet)) [
        | no small ↦ goes_on (λ e. omega arith)
        | yes large ↦ elim (carrier-or (kind bytes)) [
          | inr other_kind ↦ goes_on (λ e. absurd (other_kind e))
          | inl e ↦
              unfold receive_from in
              rw (receive_packet_overflow floats packet_idx bytes queue r q b e (inr large)) refl
        ]
      ]

  -- UdpSource::getSamples writes past the end of an array of the size that was asked for: for
  -- every number of samples, if the last of the datagrams that the loop reads is a data packet of
  -- the full size (and those before it are not malformed), a call with an array of just that many
  -- samples is undefined.
  pub get_samples_overflow :
      (n : ℕ) (packets : List (List ℕ)) (rest : List Arrival) (last : List ℕ) (r : Receiving floats)
      → length packets ≡ n / samples_per_packet
      → r.queue ≡ arriving packets (datagram last ∷ rest)
      → length r.source.buf ≡ packet_size
      → Known packets
      → kind last ≡ carrier
      → length r.samples ≡ n
      → get_samples floats (pos n) r ≡ err undefined
  unfolding get_samples packets_to_dequeue
  get_samples_overflow n packets rest last r len q b known c size =
      let rounds : n / samples_per_packet + 1 ≡ suc (length packets) = omega arith in
      rw rounds
        (receive_from_overflow packets rest last 0 0 r q b known c (omega arith) (omega arith))
