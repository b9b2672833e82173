-- ===== src/Dpdk/Threads/Handing.antt =====
-- What the end of a packet's handling, and every other access, leaves alone.
use rs_jerry_driver.Common.{
  ℕ, ◌≡◌, ◌≢◌, refl, ap, sym, ◌∙◌, subst, Bool, true, false, List, [], ◌∷◌, ◌++◌, some, ok, ◌>>=◌,
  defined, get_elem?, get_elem?-lt, get_elem?-set_self, get_elem?-set_ne, set, if◌then◌else◌,
}
use rs_jerry_driver.Common.Results.{>>=-eq-ok, defined-eq-ok, ok-inj}
use rs_jerry_driver.Floats.{FloatOps}
use rs_jerry_driver.Dpdk.{Mbuf, RingOps, StreamAttr, DpdkSource}
use rs_jerry_driver.Dpdk.Rx.{RxState, is_accepted, enqueue_mbuf, dispose}
use rs_jerry_driver.Dpdk.Threads.{
  Access, load_packets, load_lost, store_packets, store_lost, hand_over, Thread, access,
}

module _ (floats : FloatOps) (rings : RingOps) where
  -- What a packet does where its handling returns.
  pub data Disposed (i : ℕ) (m : Mbuf) (st : RxState floats rings)
      : RxState floats rings → Type 0 where
    passed :
        (s : StreamAttr floats rings) (ring : rings.Ring)
        → get_elem? st.source.streams i ≡ some s
        → is_accepted s.udp_rx_port m ≡ ok true
        → s.ring ≡ some ring
        → Disposed i m st (record st {
          source = record st.source {
            streams = set st.source.streams i (record s { ring = some (rings.enqueue m ring) });
          };
        })
    kept :
        (s : StreamAttr floats rings)
        → get_elem? st.source.streams i ≡ some s
        → is_accepted s.udp_rx_port m ≡ ok false
        → Disposed i m st (record st { freed = st.freed ++ m ∷ [] })

  pub dispose-Disposed :
      (i : ℕ) (m : Mbuf) (st x : RxState floats rings)
      → dispose floats rings i m st ≡ ok x
      → Disposed i m st x
  unfolding dispose enqueue_mbuf
  dispose-Disposed i m st x h =
      let (s, e1, h1) = >>=-eq-ok (defined (get_elem? st.source.streams i)) _ h in
      let (b, e2, h2) = >>=-eq-ok (is_accepted s.udp_rx_port m) _ h1 in
      go s b (defined-eq-ok (get_elem? st.source.streams i) s e1) e2 h2
    where
      go :
          (s : StreamAttr floats rings) (b : Bool)
          → get_elem? st.source.streams i ≡ some s
          → is_accepted s.udp_rx_port m ≡ ok b
          → (if b
              then (enqueue_mbuf floats rings i m st.source >>= λ source.
                  ok (record st { source = source }))
              else ok (record st { freed = st.freed ++ m ∷ [] }))
            ≡ ok x
          → Disposed i m st x
      go s false found test r = subst (Disposed i m st) (ok-inj r) (kept s found test)
      go s true found test r =
          let (source, e3, h3) = >>=-eq-ok (enqueue_mbuf floats rings i m st.source) _ r in
          let (s', e4, h4) = >>=-eq-ok (defined (get_elem? st.source.streams i)) _ e3 in
          let (ring, e5, h5) = >>=-eq-ok (defined s'.ring) _ h4 in
          let found' = defined-eq-ok (get_elem? st.source.streams i) s' e4 in
          let same : s ≡ s' = cc in
          subst (Disposed i m st)
            (ap (λ (o : DpdkSource floats rings). record st { source = o }) (ok-inj h5) ∙ ok-inj h3)
            (passed s' ring found'
              (subst (λ (t : StreamAttr floats rings). is_accepted t.udp_rx_port m ≡ ok true) same
                test)
              (defined-eq-ok s'.ring ring e5))

  pub Disposed-dispose :
      (i : ℕ) (m : Mbuf) (st x : RxState floats rings)
      → Disposed i m st x
      → dispose floats rings i m st ≡ ok x
  unfolding dispose enqueue_mbuf
  Disposed-dispose i m st x (passed s ring found test made) = rw (found, test, made) refl
  Disposed-dispose i m st x (kept s found test) = rw (found, test) refl

  -- The members of the object that only the counting changes.
  pub record Keeps (source source' : DpdkSource floats rings) : Type 0 where
    pub quit : source'.quit ≡ source.quit
    pub packets : source'.total_packets ≡ source.total_packets
    pub lost : source'.total_packets_lost ≡ source.total_packets_lost

  pub Disposed-Keeps :
      (i : ℕ) (m : Mbuf) (st x : RxState floats rings)
      → Disposed i m st x
      → Keeps st.source x.source
  Disposed-Keeps i m st x (passed s ring found test made) = record {
    quit = refl;
    packets = refl;
    lost = refl;
  }
  Disposed-Keeps i m st x (kept s found test) = record { quit = refl; packets = refl; lost = refl }

  -- A packet of one stream does not change another.
  pub Disposed-others :
      (i j : ℕ) (m : Mbuf) (st x : RxState floats rings)
      → Disposed i m st x
      → j ≢ i
      → get_elem? x.source.streams j ≡ get_elem? st.source.streams j
  Disposed-others i j m st x (passed s ring found test made) other =
      get_elem?-set_ne st.source.streams i j (record s { ring = some (rings.enqueue m ring) })
        (λ e. other (sym e))
  Disposed-others i j m st x (kept s found test) other = refl

  -- Two objects that agree on a stream agree on it after a packet of the stream.
  pub record Agree (j : ℕ) (x y : RxState floats rings) : Type 0 where
    pub stream : get_elem? x.source.streams j ≡ get_elem? y.source.streams j
    pub freed : x.freed ≡ y.freed

  pub Disposed-Agree :
      (j : ℕ) (m : Mbuf) (st st' x : RxState floats rings)
      → Agree j st st'
      → Disposed j m st x
      → (x' : RxState floats rings) × Disposed j m st' x' × Agree j x x'
  Disposed-Agree j m st st' x agree (passed s ring found test made) =
      let found' = sym agree.stream ∙ found in
      let s' = record s { ring = some (rings.enqueue m ring) } in
      (
        record st' { source = record st'.source { streams = set st'.source.streams j s' } },
        passed s ring found' test made,
        record {
          stream =
              get_elem?-set_self st.source.streams j s' (get_elem?-lt st.source.streams j found)
              ∙ sym (
                  get_elem?-set_self st'.source.streams j s'
                    (get_elem?-lt st'.source.streams j found'));
          freed = agree.freed;
        },
      )
  Disposed-Agree j m st st' x agree (kept s found test) = (
    record st' { freed = st'.freed ++ m ∷ [] },
    kept s (sym agree.stream ∙ found) test,
    record { stream = agree.stream; freed = ap (λ (f : List Mbuf). f ++ m ∷ []) agree.freed },
  )

  -- The end of a packet's handling, as an access of the thread.
  pub record HandedOver (i : ℕ) (m : Mbuf) (t t' : Thread)
      (source source' : DpdkSource floats rings) : Type 0 where
    pub out : RxState floats rings
    pub disposed :
        Disposed i m (record { source = source; seq = t.seq; freed = t.freed; printed = [] }) out
    pub thread : record t { freed = out.freed } ≡ t'
    pub source_is : out.source ≡ source'

  pub access-HandedOver :
      (i : ℕ) (m : Mbuf) (t t' : Thread) (source source' : DpdkSource floats rings)
      → access floats rings i (hand_over m) t source ≡ ok (t', source')
      → HandedOver i m t t' source source'
  unfolding access
  access-HandedOver i m t t' source source' h =
      let st : RxState floats rings = record {
        source = source;
        seq = t.seq;
        freed = t.freed;
        printed = [];
      } in
      let (out, e, r) = >>=-eq-ok (dispose floats rings i m st) _ h in
      let both = ok-inj r in
      record {
        out = out;
        disposed = dispose-Disposed i m st out e;
        thread = ap (λ p. p.0) both;
        source_is = ap (λ p. p.1) both;
      }

  -- No access changes the flag.
  pub access-quit :
      (i : ℕ) (a : Access) (t t' : Thread) (source source' : DpdkSource floats rings)
      → access floats rings i a t source ≡ ok (t', source')
      → source'.quit ≡ source.quit
  unfolding access
  access-quit i load_packets t t' source source' h = ap (λ p. p.1.quit) (sym (ok-inj h))
  access-quit i load_lost t t' source source' h = ap (λ p. p.1.quit) (sym (ok-inj h))
  access-quit i (store_packets n) t t' source source' h = ap (λ p. p.1.quit) (sym (ok-inj h))
  access-quit i (store_lost n) t t' source source' h = ap (λ p. p.1.quit) (sym (ok-inj h))
  access-quit i (hand_over m) t t' source source' h =
      let o = access-HandedOver i m t t' source source' h in
      ap (λ (s : DpdkSource floats rings). s.quit) (sym o.source_is)
      ∙ (Disposed-Keeps i m _ o.out o.disposed).quit
