-- ===== src/Dpdk/Rx/Forwarding.antt =====
-- Where the packets go: to the ring of the stream, or back to the pool.
use rs_jerry_driver.Common.{
  ℕ, ◌+◌, ◌≤◌, ◌≡◌, refl, ap, sym, ◌∙◌, inl, inr, Bool, true, false, not, List, [], ◌∷◌, ◌++◌, some,
  Result, ok, length, length-append, get_elem?, set, get_elem?-set_self, get_elem?-lt, select,
  Bool-cases, arith, ltb, ◌==◌, ◌&&◌, ◌*◌, ◌/◌, ◌%◌, ◌≢◌, ◌>>=◌, if◌then◌else◌,
}
use mathlib.Core.List.{append-nil, append_assoc}
use rs_jerry_driver.Floats.{FloatOps}
use rs_jerry_driver.Dpdk.{Mbuf, RingOps, StreamAttr, DpdkSource, is_valid_packet_type}
use rs_jerry_driver.Dpdk.Rx.{
  RxState, is_accepted, count_packet, enqueue_mbuf, dispose, rx_packet, rx_burst, report,
}
use rs_jerry_driver.Header.{get_control_from_header, get_sequence_number_from_header, control_type}
use rs_jerry_driver.Header.Wire.{get_control_lem}

-- UDP (17) over IPv4 (the bytes 08 00, read as a little-endian word), with the two bytes of the port
-- swapped, in a packet of 1514 bytes.
abbrev pub addressed : ℕ → Mbuf → Bool
addressed port m =
    m.next_proto_id == 17
    && m.ether_type == 8
    && m.dst_port == port % 256 * 256 + port / 256 % 256
    && m.pkt_len == 1514

-- A full packet of samples: in the first byte of the header the two high control bits are 0.
abbrev pub accepts : ℕ → Mbuf → Bool
accepts port m = addressed port m && ltb (m.hrzr % 256) 64

abbrev pub refuses : ℕ → Mbuf → Bool
refuses port m = not (accepts port m)

-- The control bits are not those for which there is no type: 1001 and 1011.
abbrev pub HasType : Mbuf → Type 0
HasType m = (m.hrzr / 16 % 16 ≢ 9) × (m.hrzr / 16 % 16 ≢ 11)

-- Every packet whose type is read has one.
abbrev pub Readable : ℕ → List Mbuf → Type 0
Readable port [] = Unit {0}
Readable port (m ∷ mbufs) = (addressed port m ≡ true → HasType m) × Readable port mbufs

is_data_type :
    (m : Mbuf)
    → HasType m
    → (get_control_from_header m.hrzr >>= λ control. ok (is_valid_packet_type control))
      ≡ ok (ltb (m.hrzr % 256) 64)
unfolding control_type is_valid_packet_type
is_data_type m h = ground (arith, get_control_lem m.hrzr)

guarded :
    (b c : Bool) (x : Result Bool)
    → (b ≡ true → x ≡ ok c)
    → (if b then x else ok false) ≡ ok (b && c)
guarded true c x h = h refl
guarded false c x h = refl

-- The test of the thread is this one.
is_accepted_lem :
    (port : ℕ) (m : Mbuf)
    → (addressed port m ≡ true → HasType m)
    → is_accepted port m ≡ ok (accepts port m)
unfolding is_accepted
is_accepted_lem port m h =
    guarded (addressed port m) (ltb (m.hrzr % 256) 64) _ (λ e. is_data_type m (h e))

module _ (floats : FloatOps) (rings : RingOps) where
  -- The stream of a number, with its ring.
  pub record HasRing (k port : ℕ) (ring : rings.Ring) (st : RxState floats rings) : Type 0 where
    pub stream : StreamAttr floats rings
    pub found : get_elem? st.source.streams k ≡ some stream
    pub made : stream.ring ≡ some ring
    pub listens : stream.udp_rx_port ≡ port

  -- The call returned: the packets `passed` were appended to the ring of the stream, in order, and
  -- the packets `kept` were freed, in order.
  pub record Forwarded (k port : ℕ) (ring : rings.Ring) (passed kept : List Mbuf)
      (st : RxState floats rings) (result : Result (RxState floats rings)) : Type 0 where
    pub out : RxState floats rings
    pub ring' : rings.Ring
    pub returns : result ≡ ok out
    pub has_ring : HasRing k port ring' out
    pub appended : rings.contents ring' ≡ rings.contents ring ++ passed
    pub same_capacity : rings.capacity ring' ≡ rings.capacity ring
    pub freed : out.freed ≡ st.freed ++ kept

  count_packet-streams :
      (prev_seq seq : ℕ) (source : DpdkSource floats rings)
      → (count_packet floats rings prev_seq seq source).streams ≡ source.streams
  unfolding count_packet
  count_packet-streams prev_seq seq source = ground arith

  -- A buffer that is enqueued, whatever the ring does with it.
  enqueue-Forwarded :
      (k port : ℕ) (ring : rings.Ring) (m : Mbuf) (passed : List Mbuf) (st : RxState floats rings)
      → HasRing k port ring st
      → is_accepted port m ≡ ok true
      → rings.contents (rings.enqueue m ring) ≡ rings.contents ring ++ passed
      → Forwarded k port ring passed [] st (dispose floats rings k m st)
  unfolding dispose enqueue_mbuf
  enqueue-Forwarded k port ring m passed st h a e =
      let stream' = record h.stream { ring = some (rings.enqueue m ring) } in
      record {
        out = record st { source = record st.source { streams = set st.source.streams k stream' } };
        ring' = rings.enqueue m ring;
        returns = rw (h.found, h.listens, a, h.made) refl;
        has_ring = record {
          stream = stream';
          found =
              get_elem?-set_self st.source.streams k stream'
                (get_elem?-lt st.source.streams k h.found);
          made = refl;
          listens = h.listens;
        };
        appended = e;
        same_capacity = rings.capacity-enqueue m ring;
        freed = sym (append-nil st.freed);
      }

  refuse-Forwarded :
      (k port : ℕ) (ring : rings.Ring) (m : Mbuf) (st : RxState floats rings)
      → HasRing k port ring st
      → is_accepted port m ≡ ok false
      → Forwarded k port ring [] (m ∷ []) st (dispose floats rings k m st)
  unfolding dispose
  refuse-Forwarded k port ring m st h a = record {
    out = record st { freed = st.freed ++ m ∷ [] };
    ring' = ring;
    returns = rw (h.found, h.listens, a) refl;
    has_ring = record { stream = h.stream; found = h.found; made = h.made; listens = h.listens };
    appended = sym (append-nil (rings.contents ring));
    same_capacity = refl;
    freed = refl;
  }

  dispose-Forwarded :
      (k port : ℕ) (ring : rings.Ring) (m : Mbuf) (st : RxState floats rings)
      → HasRing k port ring st
      → is_accepted port m ≡ ok (accepts port m)
      → length (rings.contents ring) + length (select (accepts port) (m ∷ [])) ≤ rings.capacity ring
      → Forwarded k port ring
          (select (accepts port) (m ∷ []))
          (select (refuses port) (m ∷ []))
          st
          (dispose floats rings k m st)
  dispose-Forwarded k port ring m st h a room = go (accepts port m) refl
    where
      go :
          (b : Bool)
          → accepts port m ≡ b
          → Forwarded k port ring
              (select (accepts port) (m ∷ []))
              (select (refuses port) (m ∷ []))
              st
              (dispose floats rings k m st)
      go true e = rw e (
          enqueue-Forwarded k port ring m (m ∷ []) st h (a ∙ ap ok e)
            (rings.enqueue_room m ring (omega (arith, rw e at room))))
      go false e = rw e (refuse-Forwarded k port ring m st h (a ∙ ap ok e))

  -- The counters in front of `dispose` change neither the streams nor what was freed.
  rx_packet-HasRing :
      (k port : ℕ) (ring : rings.Ring) (st counted : RxState floats rings)
      → counted.source.streams ≡ st.source.streams
      → HasRing k port ring st
      → HasRing k port ring counted
  rx_packet-HasRing k port ring st counted e h = record {
    stream = h.stream;
    found = rw e h.found;
    made = h.made;
    listens = h.listens;
  }

  rx_packet-Forwarded :
      (k port : ℕ) (ring : rings.Ring) (m : Mbuf) (st : RxState floats rings)
      → HasRing k port ring st
      → is_accepted port m ≡ ok (accepts port m)
      → length (rings.contents ring) + length (select (accepts port) (m ∷ [])) ≤ rings.capacity ring
      → Forwarded k port ring
          (select (accepts port) (m ∷ []))
          (select (refuses port) (m ∷ []))
          st
          (rx_packet floats rings k m st)
  unfolding rx_packet
  rx_packet-Forwarded k port ring m st h a room =
      let seq = get_sequence_number_from_header m.hrzr in
      let counted = record st {
        source = count_packet floats rings st.seq seq st.source;
        seq = seq;
        printed = report (some k) st.seq seq st.printed;
      } in
      let d =
        dispose-Forwarded k port ring m counted
          (rx_packet-HasRing k port ring st counted (count_packet-streams st.seq seq st.source) h) a
          room in
      record {
        out = d.out;
        ring' = d.ring';
        returns = d.returns;
        has_ring = d.has_ring;
        appended = d.appended;
        same_capacity = d.same_capacity;
        freed = d.freed;
      }

  select-cons :
      (p : Mbuf → Bool) (m : Mbuf) (mbufs : List Mbuf)
      → select p (m ∷ mbufs) ≡ select p (m ∷ []) ++ select p mbufs
  select-cons p m mbufs = elim (Bool-cases (p m)) [ inl e ↦ rw e refl | inr e ↦ rw e refl ]

  regroup :
      (p : Mbuf → Bool) (m : Mbuf) (mbufs before after : List Mbuf)
      → after ≡ before ++ select p (m ∷ [])
      → after ++ select p mbufs ≡ before ++ select p (m ∷ mbufs)
  regroup p m mbufs before after e =
      ap (λ (xs : List Mbuf). xs ++ select p mbufs) e
      ∙ append_assoc before (select p (m ∷ [])) (select p mbufs)
      ∙ ap (λ (xs : List Mbuf). before ++ xs) (sym (select-cons p m mbufs))

  -- Every packet of a burst is accounted for: where the ring has room for the accepted packets and
  -- no packet that is addressed to the stream has one of the two control codes without a type, the
  -- loop appends to the ring of the stream just the packets that are UDP (protocol 17) over IPv4
  -- (ether type 0x0800), to the port of the stream, 1514 bytes long and, by the two high control
  -- bits, of a data type, in the order of the burst, and frees all others, in that order too.
  pub rx_burst-Forwarded :
      (k port : ℕ) (ring : rings.Ring) (mbufs : List Mbuf) (st : RxState floats rings)
      → HasRing k port ring st
      → Readable port mbufs
      → length (rings.contents ring) + length (select (accepts port) mbufs) ≤ rings.capacity ring
      → Forwarded k port ring
          (select (accepts port) mbufs)
          (select (refuses port) mbufs)
          st
          (rx_burst floats rings k mbufs st)
  unfolding rx_burst
  rx_burst-Forwarded k port ring [] st h a room = record {
    out = st;
    ring' = ring;
    returns = refl;
    has_ring = h;
    appended = sym (append-nil (rings.contents ring));
    same_capacity = refl;
    freed = sym (append-nil st.freed);
  }
  rx_burst-Forwarded k port ring (m ∷ mbufs) st h a room =
      let passed : List Mbuf = select (accepts port) (m ∷ []) in
      let size : length (select (accepts port) (m ∷ mbufs))
          ≡ length passed + length (select (accepts port) mbufs) =
        ap length (select-cons (accepts port) m mbufs)
        ∙ length-append passed (select (accepts port) mbufs) in
      let first =
        rx_packet-Forwarded k port ring m st h (is_accepted_lem port m a.0) (omega (arith, size)) in
      let grown : length (rings.contents first.ring')
          ≡ length (rings.contents ring) + length passed =
        ap length first.appended ∙ length-append (rings.contents ring) passed in
      let rest =
        rx_burst-Forwarded k port first.ring' mbufs first.out first.has_ring a.1
          (omega (arith, size, grown, first.same_capacity)) in
      record {
        out = rest.out;
        ring' = rest.ring';
        returns = rw first.returns rest.returns;
        has_ring = rest.has_ring;
        appended = rest.appended ∙ regroup (accepts port) m mbufs _ _ first.appended;
        same_capacity = rest.same_capacity ∙ first.same_capacity;
        freed = rest.freed ∙ regroup (refuses port) m mbufs _ _ first.freed;
      }

  -- An accepted packet that meets a full ring is lost to the program: the loop neither puts it
  -- into the ring nor frees it, and goes on.
  pub rx_packet_leaks :
      (k port : ℕ) (ring : rings.Ring) (m : Mbuf) (st : RxState floats rings)
      → HasRing k port ring st
      → is_accepted port m ≡ ok true
      → length (rings.contents ring) ≡ rings.capacity ring
      → Forwarded k port ring [] [] st (rx_packet floats rings k m st)
  unfolding rx_packet
  rx_packet_leaks k port ring m st h a full =
      let seq = get_sequence_number_from_header m.hrzr in
      let counted = record st {
        source = count_packet floats rings st.seq seq st.source;
        seq = seq;
        printed = report (some k) st.seq seq st.printed;
      } in
      let d =
        enqueue-Forwarded k port ring m [] counted
          (rx_packet-HasRing k port ring st counted (count_packet-streams st.seq seq st.source) h) a
          (rings.enqueue_full m ring full ∙ sym (append-nil (rings.contents ring))) in
      record {
        out = d.out;
        ring' = d.ring';
        returns = d.returns;
        has_ring = d.has_ring;
        appended = d.appended;
        same_capacity = d.same_capacity;
        freed = d.freed;
      }
