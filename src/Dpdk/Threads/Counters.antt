-- ===== src/Dpdk/Threads/Counters.antt =====
-- The shared counters under any interleaving of the threads.
use rs_jerry_driver.Common.{ℕ, ◌+◌, ◌≤◌, ◌≡◌, subst, List, [], ◌∷◌, ◌++◌, ok, arith}
use rs_jerry_driver.Common.Results.{ok-inj}
use rs_jerry_driver.Common.Family.{update, update_all}
use rs_jerry_driver.Floats.{FloatOps}
use rs_jerry_driver.Dpdk.{RingOps, DpdkSource}
use rs_jerry_driver.Dpdk.Threads.{
  Access, load_packets, load_lost, store_packets, store_lost, hand_over, Thread, System, access,
  Step, poll, advance, stop, Reach, start, later,
}
use rs_jerry_driver.Dpdk.Threads.Handing.{Disposed-Keeps, access-HandedOver}

-- What an access adds to the counters.
abbrev pub added : Access → ℕ
added (store_packets n) = n
added _ = 0

abbrev pub added_lost : Access → ℕ
added_lost (store_lost n) = n
added_lost _ = 0

-- What the accesses of a trace add.
abbrev pub sum_of : (Access → ℕ) → List (ℕ × Access) → ℕ
sum_of amount [] = 0
sum_of amount ((i, a) ∷ trace) = amount a + sum_of amount trace

sum_of-append :
    (amount : Access → ℕ) (xs ys : List (ℕ × Access))
    → sum_of amount (xs ++ ys) ≡ sum_of amount xs + sum_of amount ys
sum_of-append amount [] ys = omega arith
sum_of-append amount ((i, a) ∷ xs) ys = omega (arith, sum_of-append amount xs ys)

-- A thread that has not begun.
abbrev pub idle : Thread
idle = record { program = []; packets = 0; lost = 0; seq = 0; freed = [] }

module _ (floats : FloatOps) (rings : RingOps) where
  -- The threads as they are launched.
  abbrev pub launched : DpdkSource floats rings → System floats rings
  launched source = record { source = source; threads = λ i. idle }

  -- The counters and what the threads loaded of them are below bounds.
  record IsBounded (packets lost : ℕ) (s : System floats rings) : Type 0 where
    pub total : s.source.total_packets ≤ packets
    pub total_lost : s.source.total_packets_lost ≤ lost
    pub loaded : (i : ℕ) → (s.threads i).packets ≤ packets
    pub loaded_lost : (i : ℕ) → (s.threads i).lost ≤ lost

  record IsWithin (packets lost : ℕ) (t : Thread) (source : DpdkSource floats rings) : Type 0 where
    pub total : source.total_packets ≤ packets
    pub total_lost : source.total_packets_lost ≤ lost
    pub loaded : t.packets ≤ packets
    pub loaded_lost : t.lost ≤ lost

  abbrev Within : ℕ → ℕ → Thread × DpdkSource floats rings → Type 0
  Within packets lost r = IsWithin packets lost r.0 r.1

  access-IsWithin :
      (i : ℕ) (a : Access) (t t' : Thread) (source source' : DpdkSource floats rings)
      (packets lost packets' lost' : ℕ)
      → access floats rings i a t source ≡ ok (t', source')
      → added a + packets ≤ packets'
      → added_lost a + lost ≤ lost'
      → IsWithin packets lost t source
      → IsWithin packets' lost' t' source'
  unfolding access
  access-IsWithin i load_packets t t' source source' packets lost packets' lost' h p l w =
      subst (Within packets' lost') (ok-inj h) (record {
        total = omega (arith, w.total, w.loaded, p);
        total_lost = omega (arith, w.total_lost, w.loaded_lost, l);
        loaded = omega (arith, w.total, w.loaded, p);
        loaded_lost = omega (arith, w.total_lost, w.loaded_lost, l);
      })
  access-IsWithin i load_lost t t' source source' packets lost packets' lost' h p l w =
      subst (Within packets' lost') (ok-inj h) (record {
        total = omega (arith, w.total, w.loaded, p);
        total_lost = omega (arith, w.total_lost, w.loaded_lost, l);
        loaded = omega (arith, w.total, w.loaded, p);
        loaded_lost = omega (arith, w.total_lost, w.loaded_lost, l);
      })
  access-IsWithin i (store_packets n) t t' source source' packets lost packets' lost' h p l w =
      subst (Within packets' lost') (ok-inj h) (record {
        total = omega (arith, w.total, w.loaded, p);
        total_lost = omega (arith, w.total_lost, w.loaded_lost, l);
        loaded = omega (arith, w.total, w.loaded, p);
        loaded_lost = omega (arith, w.total_lost, w.loaded_lost, l);
      })
  access-IsWithin i (store_lost n) t t' source source' packets lost packets' lost' h p l w =
      subst (Within packets' lost') (ok-inj h) (record {
        total = omega (arith, w.total, w.loaded, p);
        total_lost = omega (arith, w.total_lost, w.loaded_lost, l);
        loaded = omega (arith, w.total, w.loaded, p);
        loaded_lost = omega (arith, w.total_lost, w.loaded_lost, l);
      })
  access-IsWithin i (hand_over m) t t' source source' packets lost packets' lost' h p l w =
      let o = access-HandedOver floats rings i m t t' source source' h in
      let keeps = Disposed-Keeps floats rings i m _ o.out o.disposed in
      subst (λ (x : Thread). IsWithin packets' lost' x source') o.thread
        (subst
          (λ (x : DpdkSource floats rings).
            IsWithin packets' lost' (record t { freed = o.out.freed }) x)
          o.source_is
          (record {
            total = omega (arith, w.total, keeps.packets, p);
            total_lost = omega (arith, w.total_lost, keeps.lost, l);
            loaded = omega (arith, w.loaded, p);
            loaded_lost = omega (arith, w.loaded_lost, l);
          }))

  -- One thread and the object changed.
  IsWithin-IsBounded :
      (i : ℕ) (t : Thread) (s : System floats rings) (source : DpdkSource floats rings)
      (packets lost packets' lost' : ℕ)
      → packets ≤ packets'
      → lost ≤ lost'
      → IsBounded packets lost s
      → IsWithin packets' lost' t source
      → IsBounded packets' lost' (record { source = source; threads = update i t s.threads })
  IsWithin-IsBounded i t s source packets lost packets' lost' p l b w = record {
    total = w.total;
    total_lost = w.total_lost;
    loaded =
        update_all (λ (x : Thread). x.packets ≤ packets') i t s.threads w.loaded
          (λ j. omega (arith, b.loaded j));
    loaded_lost =
        update_all (λ (x : Thread). x.lost ≤ lost') i t s.threads w.loaded_lost
          (λ j. omega (arith, b.loaded_lost j));
  }

  IsBounded-IsWithin :
      (i packets lost : ℕ) (s : System floats rings)
      → IsBounded packets lost s
      → IsWithin packets lost (s.threads i) s.source
  IsBounded-IsWithin i packets lost s b = record {
    total = b.total;
    total_lost = b.total_lost;
    loaded = b.loaded i;
    loaded_lost = b.loaded_lost i;
  }

  Step-IsBounded :
      (n packets lost packets' lost' : ℕ) (s s' : System floats rings) (trace : List (ℕ × Access))
      → Step floats rings n s trace s'
      → sum_of added trace + packets ≤ packets'
      → sum_of added_lost trace + lost ≤ lost'
      → IsBounded packets lost s
      → IsBounded packets' lost' s'
  Step-IsBounded n packets lost packets' lost' s s' trace (poll i mbufs lt empty running) p l b =
      IsWithin-IsBounded i _ s s.source packets lost packets' lost' (omega arith) (omega arith) b
        (record {
          total = omega (arith, b.total);
          total_lost = omega (arith, b.total_lost);
          loaded = omega (arith, b.loaded i);
          loaded_lost = omega (arith, b.loaded_lost i);
        })
  Step-IsBounded n packets lost packets' lost' s s' trace
        (advance i a rest {t} {source} lt next done) p l b =
      let w =
        access-IsWithin i a (s.threads i) t s.source source packets lost packets' lost' done
          (omega arith) (omega arith) (IsBounded-IsWithin i packets lost s b) in
      IsWithin-IsBounded i (record t { program = rest }) s source packets lost packets' lost'
        (omega arith) (omega arith) b
        (record {
          total = w.total;
          total_lost = w.total_lost;
          loaded = w.loaded;
          loaded_lost = w.loaded_lost;
        })
  Step-IsBounded n packets lost packets' lost' s s' trace (stop running) p l b = record {
    total = omega (arith, b.total);
    total_lost = omega (arith, b.total_lost);
    loaded = λ j. omega (arith, b.loaded j);
    loaded_lost = λ j. omega (arith, b.loaded_lost j);
  }

  Reach-IsBounded :
      (n : ℕ) (source : DpdkSource floats rings) (trace : List (ℕ × Access))
      (s : System floats rings)
      → Reach floats rings n (launched source) trace s
      → IsBounded
          (sum_of added trace + source.total_packets)
          (sum_of added_lost trace + source.total_packets_lost)
          s
  Reach-IsBounded n source trace s start = record {
    total = omega arith;
    total_lost = omega arith;
    loaded = λ j. omega arith;
    loaded_lost = λ j. omega arith;
  }
  Reach-IsBounded n source trace s (later {trace = before} {more} {t} r step) =
      Step-IsBounded n _ _ _ _ t s more step (omega (arith, sum_of-append added more before))
        (omega (arith, sum_of-append added_lost more before)) (Reach-IsBounded n source before t r)

  -- The threads never count too much: however the accesses of the threads are interleaved, each
  -- shared counter is at most what it was when they were launched and the sum of what they have
  -- added. It may be less: a store overwrites what others have added since the load.
  pub Reach-counters :
      (n : ℕ) (source : DpdkSource floats rings) (trace : List (ℕ × Access))
      (s : System floats rings)
      → Reach floats rings n (launched source) trace s
      → (s.source.total_packets ≤ source.total_packets + sum_of added trace)
        × (s.source.total_packets_lost ≤ source.total_packets_lost + sum_of added_lost trace)
  Reach-counters n source trace s r =
      let b = Reach-IsBounded n source trace s r in
      (omega (arith, b.total), omega (arith, b.total_lost))
