-- ===== src/Dpdk/Threads/Streams.antt =====
-- Each thread serves its own stream: what the others do cannot be seen in its ring or in the
-- buffers that it frees.
use rs_jerry_driver.Common.{
  ℕ, ◌≡◌, ◌≢◌, refl, ap, sym, ◌∙◌, subst, inl, inr, Bool-cases, List, [], ◌∷◌, ◌++◌, Result, ok,
  err, ◌>>=◌, get_elem?, ◌==◌, if◌then◌else◌, arith,
}
use rs_jerry_driver.Common.Results.{>>=_through, ok-inj}
use rs_jerry_driver.Common.Family.{update, update_here, update_there, update_alike}
use rs_jerry_driver.Floats.{FloatOps}
use rs_jerry_driver.Dpdk.{Mbuf, RingOps, DpdkSource}
use rs_jerry_driver.Dpdk.Rx.{RxState, dispose}
use rs_jerry_driver.Dpdk.Threads.{
  Access, load_packets, load_lost, store_packets, store_lost, hand_over, Thread, System, access,
  Step, poll, advance, stop, Reach, start, later,
}
use rs_jerry_driver.Dpdk.Threads.Counters.{launched}
use rs_jerry_driver.Dpdk.Threads.Handing.{
  Disposed-others, Disposed-dispose, Agree, Disposed-Agree, access-HandedOver,
}

-- The packets that the thread of a stream has handed over in a trace, the oldest first.
abbrev pub handed_by : ℕ → ℕ → Access → List Mbuf → List Mbuf
handed_by j i (hand_over m) before = if j == i then before ++ m ∷ [] else before
handed_by j i a before = before

abbrev pub handed : ℕ → List (ℕ × Access) → List Mbuf
handed j [] = []
handed j ((i, a) ∷ trace) = handed_by j i a (handed j trace)

module _ (floats : FloatOps) (rings : RingOps) where
  -- The packets of a stream, one after the other.
  abbrev pub deliver : ℕ → List Mbuf → RxState floats rings → Result (RxState floats rings)
  deliver j [] st = ok st
  deliver j (m ∷ mbufs) st = dispose floats rings j m st >>= λ x. deliver j mbufs x

  deliver_last :
      (j : ℕ) (mbufs : List Mbuf) (m : Mbuf) (st : RxState floats rings)
      → deliver j (mbufs ++ m ∷ []) st ≡ (deliver j mbufs st >>= λ x. dispose floats rings j m x)
  deliver_last j [] m st = go (dispose floats rings j m st)
    where
      go : (r : Result (RxState floats rings)) → (r >>= λ x. ok x) ≡ r
      go (ok x) = refl
      go (err e) = refl
  deliver_last j (m' ∷ mbufs) m st =
      >>=_through (dispose floats rings j m' st) _ _ _ (λ x. deliver_last j mbufs m x)

  -- The thread of a stream as it is launched, and as it stands in a state.
  abbrev pub fresh : DpdkSource floats rings → RxState floats rings
  fresh source = record { source = source; seq = 0; freed = []; printed = [] }

  abbrev at : ℕ → System floats rings → RxState floats rings
  at j s = record { source = s.source; seq = 0; freed = (s.threads j).freed; printed = [] }

  -- The stream and the freed buffers are those of a thread that was alone.
  record IsAlone (j : ℕ) (source : DpdkSource floats rings) (mbufs : List Mbuf)
      (s : System floats rings) : Type 0 where
    pub out : RxState floats rings
    pub delivered : deliver j mbufs (fresh source) ≡ ok out
    pub agree : Agree floats rings j (at j s) out

  -- An access to the counters.
  IsAlone-plain :
      (j i : ℕ) (t : Thread) (source source' : DpdkSource floats rings) (mbufs : List Mbuf)
      (s : System floats rings)
      → source'.streams ≡ s.source.streams
      → t.freed ≡ (s.threads i).freed
      → IsAlone j source mbufs s
      → IsAlone j source mbufs (record { source = source'; threads = update i t s.threads })
  IsAlone-plain j i t source source' mbufs s streams freed alone = record {
    out = alone.out;
    delivered = alone.delivered;
    agree = record {
      stream = ap (λ x. get_elem? x j) streams ∙ alone.agree.stream;
      freed = update_alike (λ (x : Thread). x.freed) i t s.threads freed j ∙ alone.agree.freed;
    };
  }

  -- A packet of the thread's own.
  IsAlone-own :
      (j : ℕ) (m : Mbuf) (t : Thread) (rest : List Access)
      (source source' : DpdkSource floats rings) (mbufs : List Mbuf) (s : System floats rings)
      → IsAlone j source mbufs s
      → access floats rings j (hand_over m) (s.threads j) s.source ≡ ok (t, source')
      → IsAlone j source
          (mbufs ++ m ∷ [])
          (record { source = source'; threads = update j (record t { program = rest }) s.threads })
  IsAlone-own j m t rest source source' mbufs s alone h =
      let o = access-HandedOver floats rings j m (s.threads j) t s.source source' h in
      let bare : RxState floats rings = record {
        source = s.source;
        seq = (s.threads j).seq;
        freed = (s.threads j).freed;
        printed = [];
      } in
      let agree : Agree floats rings j bare alone.out = record {
        stream = alone.agree.stream;
        freed = alone.agree.freed;
      } in
      let (x, disposed, after) =
        Disposed-Agree floats rings j m bare alone.out o.out agree o.disposed in
      record {
        out = x;
        delivered =
            deliver_last j mbufs m (fresh source)
            ∙ (ap (λ r. r >>= λ y. dispose floats rings j m y) alone.delivered
                ∙ Disposed-dispose floats rings j m alone.out x disposed);
        agree = record {
          stream =
              ap (λ (y : DpdkSource floats rings). get_elem? y.streams j) (sym o.source_is)
              ∙ after.stream;
          freed =
              ap (λ (y : Thread). y.freed) (update_here j (record t { program = rest }) s.threads)
              ∙ (ap (λ (y : Thread). y.freed) (sym o.thread) ∙ after.freed);
        };
      }

  IsAlone-hand_over :
      (j i : ℕ) (m : Mbuf) (t : Thread) (rest : List Access)
      (source source' : DpdkSource floats rings) (mbufs : List Mbuf) (s : System floats rings)
      → access floats rings i (hand_over m) (s.threads i) s.source ≡ ok (t, source')
      → IsAlone j source mbufs s
      → IsAlone j source
          (handed_by j i (hand_over m) mbufs)
          (record { source = source'; threads = update i (record t { program = rest }) s.threads })
  IsAlone-hand_over j i m t rest source source' mbufs s h alone = elim (Bool-cases (j == i)) [
    | inl same ↦
        let e : j ≡ i = ground arith in
        rw same (
          subst
            (λ (k : ℕ).
              access floats rings k (hand_over m) (s.threads k) s.source ≡ ok (t, source')
              → IsAlone j source (mbufs ++ m ∷ []) (record {
                source = source';
                threads = update k (record t { program = rest }) s.threads;
              }))
            e (IsAlone-own j m t rest source source' mbufs s alone) h)
    | inr other ↦
        let apart : j ≢ i = (λ e. absurd (ground arith)) in
        let o = access-HandedOver floats rings i m (s.threads i) t s.source source' h in
        rw other (record {
          out = alone.out;
          delivered = alone.delivered;
          agree = record {
            stream =
                ap (λ (x : DpdkSource floats rings). get_elem? x.streams j) (sym o.source_is)
                ∙ (Disposed-others floats rings i j m _ o.out o.disposed apart
                    ∙ alone.agree.stream);
            freed =
                ap (λ (x : Thread). x.freed)
                  (update_there i j (record t { program = rest }) s.threads apart)
                ∙ alone.agree.freed;
          };
        })
  ]

  IsAlone-access :
      (j i : ℕ) (a : Access) (t : Thread) (rest : List Access)
      (source source' : DpdkSource floats rings) (mbufs : List Mbuf) (s : System floats rings)
      → access floats rings i a (s.threads i) s.source ≡ ok (t, source')
      → IsAlone j source mbufs s
      → IsAlone j source
          (handed_by j i a mbufs)
          (record { source = source'; threads = update i (record t { program = rest }) s.threads })
  unfolding access
  IsAlone-access j i (hand_over m) t rest source source' mbufs s h alone =
      IsAlone-hand_over j i m t rest source source' mbufs s h alone
  IsAlone-access j i load_packets t rest source source' mbufs s h alone =
      let same = sym (ok-inj h) in
      IsAlone-plain j i (record t { program = rest }) source source' mbufs s
        (ap (λ p. p.1.streams) same) (ap (λ p. p.0.freed) same) alone
  IsAlone-access j i load_lost t rest source source' mbufs s h alone =
      let same = sym (ok-inj h) in
      IsAlone-plain j i (record t { program = rest }) source source' mbufs s
        (ap (λ p. p.1.streams) same) (ap (λ p. p.0.freed) same) alone
  IsAlone-access j i (store_packets n) t rest source source' mbufs s h alone =
      let same = sym (ok-inj h) in
      IsAlone-plain j i (record t { program = rest }) source source' mbufs s
        (ap (λ p. p.1.streams) same) (ap (λ p. p.0.freed) same) alone
  IsAlone-access j i (store_lost n) t rest source source' mbufs s h alone =
      let same = sym (ok-inj h) in
      IsAlone-plain j i (record t { program = rest }) source source' mbufs s
        (ap (λ p. p.1.streams) same) (ap (λ p. p.0.freed) same) alone

  Step-IsAlone :
      (n j : ℕ) (source : DpdkSource floats rings) (s s' : System floats rings)
      (more trace : List (ℕ × Access))
      → Step floats rings n s more s'
      → IsAlone j source (handed j trace) s
      → IsAlone j source (handed j (more ++ trace)) s'
  Step-IsAlone n j source s s' more trace (poll i mbufs lt empty running) alone =
      IsAlone-plain j i _ source s.source (handed j trace) s refl refl alone
  Step-IsAlone n j source s s' more trace (stop running) alone = record {
    out = alone.out;
    delivered = alone.delivered;
    agree = record { stream = alone.agree.stream; freed = alone.agree.freed };
  }
  Step-IsAlone n j source s s' more trace (advance i a rest {t} {source = source'} lt next done)
        alone =
      IsAlone-access j i a t rest source source' (handed j trace) s done alone

  Reach-IsAlone :
      (n j : ℕ) (source : DpdkSource floats rings) (trace : List (ℕ × Access))
      (s : System floats rings)
      → Reach floats rings n (launched floats rings source) trace s
      → IsAlone j source (handed j trace) s
  Reach-IsAlone n j source trace s start = record {
    out = fresh source;
    delivered = refl;
    agree = record { stream = refl; freed = refl };
  }
  Reach-IsAlone n j source trace s (later {trace = before} {more} {t} r step) =
      Step-IsAlone n j source t s more before step (Reach-IsAlone n j source before t r)

  -- The threads do not disturb each other: in every state that is reached from the launch, however
  -- the accesses of the threads are interleaved, the stream of a thread, with its ring, and the
  -- buffers that the thread freed are the same as if its packets had been handed over one after the
  -- other with no other thread there, and handing these over does not throw.
  pub Reach-deliver :
      (n j : ℕ) (source : DpdkSource floats rings) (trace : List (ℕ × Access))
      (s : System floats rings)
      → Reach floats rings n (launched floats rings source) trace s
      → (out : RxState floats rings) × (deliver j (handed j trace) (fresh source) ≡ ok out)
        × (get_elem? s.source.streams j ≡ get_elem? out.source.streams j)
        × ((s.threads j).freed ≡ out.freed)
  Reach-deliver n j source trace s r =
      let alone = Reach-IsAlone n j source trace s r in
      (alone.out, alone.delivered, alone.agree.stream, alone.agree.freed)
