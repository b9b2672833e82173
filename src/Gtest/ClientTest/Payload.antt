-- ===== src/Gtest/ClientTest/Payload.antt =====
-- The test SendPayload of gtest/iqClient/iqClientTest.cc: 4097 packets of one array.
use Prim.Native.String.{String}
use rs_jerry_driver.Common.{
  ℕ, zero, suc, ℤ, pos, ◌+◌, ◌*◌, ◌%◌, ◌^◌, ◌<◌, ◌≡◌, refl, ap, sym, ◌∙◌, Bool, true, ◌&&◌, List,
  [], ◌∷◌, Option, none, some, bits16, Result, ok, ◌>>=◌, ◌==◌, htons, length, get_elem?, replicate,
  length-replicate, arith,
}
use rs_jerry_driver.Floats.{FloatOps, Complex}
use rs_jerry_driver.Net.{SockAddr, af_inet}
use rs_jerry_driver.Transmitter.{
  Transmitter, SocketCall, bind, connect, new_transmitter, set_local_sockaddr, set_dest_sockaddr,
  convert_addr, open_socket_and_connect,
}
use rs_jerry_driver.Transmitter.Sequence.{numbered, send_packet_counts}
use rs_jerry_driver.Transmitter.Datagram.{datagram_of}
use rs_jerry_driver.Iq.Payload.{send_payload, HasSample, CanConvert, convert_from_lem}

module _ (floats : FloatOps) where
  open floats use {Float, of_int16, to_int16}

  -- `samples[i] = std::complex<float>(i, i)`, from an index on.
  unfoldable pub ramp : ℕ → ℕ → List (Complex Float)
  ramp zero i = []
  ramp (suc left) i =
      record { real = of_int16 (pos i); imag = of_int16 (pos i) } ∷ ramp left (i + 1)

  -- The loop of SendPayload, with the datagrams in their order.
  unfoldable pub send_times :
      ℕ → List ℕ → List (Complex Float) → ℕ → Transmitter → Result (Transmitter × List (List ℕ))
  send_times zero memory samples n t = ok (t, [])
  send_times (suc left) memory samples n t = do
    sent ← send_payload floats memory samples n t
    rest ← send_times left memory samples n sent.0
    ok (rest.0, sent.1 ∷ rest.1)

  -- What the test expects of the two addresses.
  abbrev pub expects_addresses : Transmitter → Bool
  expects_addresses t =
      t.local.family == af_inet
      && t.local.port == 5000
      && t.dest.family == af_inet
      && t.dest.port == htons 5001

  -- The test, with the calls on the socket and what is sent.
  unfoldable pub send_payload_test :
      (String → Option ℕ)
      → ℕ
      → Transmitter
      → List ℕ
      → Result (Bool × List SocketCall × Transmitter × List (List ℕ))
  send_payload_test inet_pton sock fresh memory =
      let t =
        set_dest_sockaddr inet_pton "192.168.40.1" 5001
          (set_local_sockaddr inet_pton "192.168.30.1" 5000 (new_transmitter fresh)) in
      let opened = open_socket_and_connect sock t in
      send_times 0x1001 memory (ramp 366 0) 366 opened.0 >>= λ sent.
      ok (expects_addresses opened.0, opened.1, sent.0, sent.1)

  length-ramp : (n i : ℕ) → length (ramp n i) ≡ n
  unfolding ramp
  length-ramp zero i = refl
  length-ramp (suc n) i = ap suc (length-ramp n (i + 1))

  get_elem?-ramp :
      (n i k : ℕ)
      → k < n
      → get_elem? (ramp n i) k
        ≡ some (record { real = of_int16 (pos (i + k)); imag = of_int16 (pos (i + k)) })
  unfolding ramp
  get_elem?-ramp zero i k h = absurd (omega arith)
  get_elem?-ramp (suc n) i zero h =
      ap (λ (j : ℕ). some (record { real = of_int16 (pos j); imag = of_int16 (pos j) }))
        (omega arith)
  get_elem?-ramp (suc n) i (suc k) h =
      get_elem?-ramp n (i + 1) k (omega arith)
      ∙ ap (λ (j : ℕ). some (record { real = of_int16 (pos j); imag = of_int16 (pos j) }))
          (omega arith)

  -- Every round sends the same numbers.
  send_times_lem :
      (left : ℕ) (memory : List ℕ) (samples : List (Complex Float)) (n : ℕ) (out : List ℕ)
      (t : Transmitter)
      → ((t : Transmitter)
          → t.current_sequence_number < 4096
          → send_payload floats memory samples n t
            ≡ ok (
              record t { current_sequence_number = (t.current_sequence_number + 1) % 4096 },
              datagram_of t.current_sequence_number out,
            ))
      → t.current_sequence_number < 4096
      → send_times left memory samples n t
        ≡ ok (
          record t { current_sequence_number = (t.current_sequence_number + left) % 4096 },
          numbered t.current_sequence_number (replicate left out),
        )
  unfolding send_times replicate
  send_times_lem zero memory samples n out t each below =
      let same : t.current_sequence_number ≡ (t.current_sequence_number + 0) % 4096 = omega arith in
      ap (λ (k : ℕ). ok (record t { current_sequence_number = k }, [])) same
  send_times_lem (suc left) memory samples n out t each below =
      let seq = t.current_sequence_number in
      let t' = record t { current_sequence_number = (seq + 1) % 4096 } in
      let count : ((seq + 1) % 4096 + left) % 4096 ≡ (seq + suc left) % 4096 = omega arith in
      rw (each t below, send_times_lem left memory samples n out t' each (omega arith), count) refl

  -- An array of the numbers 0 to 365, each twice.
  abbrev pub IsRamp : List ℕ → Type 0
  IsRamp out =
      (length out ≡ 732)
      × ((k : ℕ)
          → k < 366
          → (get_elem? out (2 * k) ≡ some k) × (get_elem? out (2 * k + 1) ≡ some k))

  ramp-CanConvert :
      (k : ℕ)
      → to_int16 (of_int16 (pos k)) ≡ some (pos k)
      → k < 366
      → CanConvert floats (ramp 366 0) k
  ramp-CanConvert k exact below = record {
    c = record { real = of_int16 (pos k); imag = of_int16 (pos k) };
    re = pos k;
    im = pos k;
    found =
        get_elem?-ramp 366 0 k below
        ∙ ap (λ (j : ℕ). some (record { real = of_int16 (pos j); imag = of_int16 (pos j) }))
            (omega arith);
    real_fits = exact;
    imag_fits = exact;
  }

  HasSample-ramp :
      (out : List ℕ) (k : ℕ)
      → to_int16 (of_int16 (pos k)) ≡ some (pos k)
      → k < 366
      → HasSample floats (ramp 366 0) out k
      → (get_elem? out (2 * k) ≡ some k) × (get_elem? out (2 * k + 1) ≡ some k)
  unfolding bits16
  HasSample-ramp out k exact below h =
      let c : some h.c ≡ some (record { real = of_int16 (pos k); imag = of_int16 (pos k) }) =
        sym h.found
        ∙ get_elem?-ramp 366 0 k below
        ∙ ap (λ (j : ℕ). some (record { real = of_int16 (pos j); imag = of_int16 (pos j) }))
            (omega arith) in
      let same : h.c ≡ record { real = of_int16 (pos k); imag = of_int16 (pos k) } = cc in
      let real_is : some h.real ≡ some (pos k) =
        sym h.real_is ∙ ap (λ (x : Complex Float). to_int16 x.real) same ∙ exact in
      let imag_is : some h.imag ≡ some (pos k) =
        sym h.imag_is ∙ ap (λ (x : Complex Float). to_int16 x.imag) same ∙ exact in
      let real : h.real ≡ pos k = cc real_is in
      let imag : h.imag ≡ pos k = cc imag_is in
      let small : k % 2 ^ 16 ≡ k = omega arith in
      (
        h.re ∙ ap (λ (z : ℤ). some (bits16 z)) real ∙ ap (λ (j : ℕ). some j) small,
        h.im ∙ ap (λ (z : ℤ). some (bits16 z)) imag ∙ ap (λ (j : ℕ). some j) small,
      )

  convert_addr-family :
      (inet_pton : String → Option ℕ) (ip : String) (sock : SockAddr)
      → (convert_addr inet_pton ip sock).family ≡ sock.family
  unfolding convert_addr
  convert_addr-family inet_pton ip sock = go (inet_pton ip)
    where
      go :
          (answer : Option ℕ)
          → (elim answer as (λ x. SockAddr) [
            | none ↦ sock
            | some a ↦ record sock { addr = a }
          ]).family
            ≡ sock.family
      go none = refl
      go (some a) = refl

  -- The numbers of the array, and that any call sends them.
  same_numbers :
      (memory : List ℕ)
      → length memory ≡ 732
      → ((k : ℕ) → k < 366 → to_int16 (of_int16 (pos k)) ≡ some (pos k))
      → (out : List ℕ) × (length out ≡ 732)
        × ((k : ℕ) → k < 366 → HasSample floats (ramp 366 0) out k)
        × ((t : Transmitter)
            → t.current_sequence_number < 4096
            → send_payload floats memory (ramp 366 0) 366 t
              ≡ ok (
                record t { current_sequence_number = (t.current_sequence_number + 1) % 4096 },
                datagram_of t.current_sequence_number out,
              ))
  unfolding send_payload
  same_numbers memory array exact =
      let size = length-replicate {A = ℕ} 732 0 in
      let (out, converted, size', inside, before) =
        convert_from_lem floats 366 0 (ramp 366 0) (replicate 732 0)
          (λ k ge lt. ramp-CanConvert k (exact k (omega arith)) (omega arith))
          (omega (arith, size)) in
      (
        out,
        size' ∙ size,
        λ k h. inside k (omega arith) (omega arith),
        λ t below.
            rw converted (send_packet_counts memory out t array (omega (arith, size', size)) below),
      )

  -- The test SendPayload passes, and what it sends: whatever `inet_pton` says of the two addresses
  -- and whatever the new transmitter held, both addresses are as expected and no call throws; where
  -- the numbers 0 to 365 survive the way to `float` and back, each of the 4097 datagrams carries
  -- these numbers as the real and the imaginary parts, the sequence numbers run from 0 to 4095 and
  -- start at 0 again for the last, and the counter ends at 1.
  pub send_payload_test_lem :
      (inet_pton : String → Option ℕ) (sock : ℕ) (fresh : Transmitter) (memory : List ℕ)
      → length memory ≡ 732
      → ((k : ℕ) → k < 366 → to_int16 (of_int16 (pos k)) ≡ some (pos k))
      → (out : List ℕ) × (calls : List SocketCall) × (last : Transmitter) × IsRamp out
        × (send_payload_test inet_pton sock fresh memory
            ≡ ok (true, calls, last, numbered 0 (replicate 0x1001 out)))
        × (last.current_sequence_number ≡ 1)
  unfolding send_payload_test set_dest_sockaddr set_local_sockaddr open_socket_and_connect
      new_transmitter
  send_payload_test_lem inet_pton sock fresh memory array exact =
      let (out, size, inside, each) = same_numbers memory array exact in
      let opened : Transmitter =
        (open_socket_and_connect sock (
          set_dest_sockaddr inet_pton "192.168.40.1" 5001
            (set_local_sockaddr inet_pton "192.168.30.1" 5000 (new_transmitter fresh)))).0 in
      let calls = bind sock opened.local ∷ connect sock opened.dest ∷ [] in
      let local : opened.local.family ≡ af_inet = convert_addr-family inet_pton "192.168.30.1" _ in
      let dest : opened.dest.family ≡ af_inet = convert_addr-family inet_pton "192.168.40.1" _ in
      let expected : expects_addresses opened ≡ true = rw (local, dest) refl in
      (
        out,
        calls,
        record opened { current_sequence_number = (0 + 0x1001) % 4096 },
        (size, λ k h. HasSample-ramp out k (exact k h) h (inside k h)),
        ap (λ r. r >>= λ sent. ok (expects_addresses opened, calls, sent.0, sent.1))
              (send_times_lem 0x1001 memory (ramp 366 0) 366 out opened each (omega arith))
            ∙ ap
                (λ (b : Bool). ok (
                  b,
                  calls,
                  record opened { current_sequence_number = (0 + 0x1001) % 4096 },
                  numbered 0 (replicate 0x1001 out),
                ))
                expected,
        omega arith,
      )
