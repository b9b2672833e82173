-- ===== src/Iq/Sources/Lifetime.antt =====
-- When the pointer to the sample source may be followed, and what a second set-up does to the first
-- source.
use rs_jerry_driver.Common.{
  ℕ, zero, suc, ◌<◌, ◌≡◌, ◌≢◌, refl, ap, sym, ◌∙◌, subst, Bool, true, false, List, [], ◌∷◌, ◌++◌,
  Option, none, some, ok, get_elem?, get_elem?-lt, get_elem?-set_ne, length, arith,
}
use rs_jerry_driver.Common.Run.{continue-eq-ok}
use rs_jerry_driver.Floats.{FloatOps}
use rs_jerry_driver.Dpdk.{RingOps}
use rs_jerry_driver.Dpdk.Setup.{DpdkOps}
use rs_jerry_driver.Iq.Sources.{Network, Source, at, object_of, put_at}
use rs_jerry_driver.Iq.Sources.Calls.{
  SourceCall, begin_udp, begin_dpdk, teardown_udp, teardown_dpdk, take_samples, choose_norm,
  choose_dump_mode, World, Made, Replaced, Kept, Effect, perform, perform_all, perform-Effect,
}

module _ (floats : FloatOps) (rings : RingOps) where
  abbrev Heap : Type 0
  Heap = List (Option (Source floats rings))

  abbrev Call : Type 0
  Call = SourceCall floats rings

  -- The rules of use: a source is live from its set-up to its tear-down, only a live one is torn down
  -- or asked for samples.
  abbrev pub allowed : Bool → Call → Bool
  allowed live teardown_udp = live
  allowed live teardown_dpdk = live
  allowed live (take_samples i n rx_burst samples) = live
  allowed live _ = true

  abbrev pub live_after : Bool → Call → Bool
  live_after live (begin_udp memory) = true
  live_after live (begin_dpdk streams n) = true
  live_after live teardown_udp = false
  live_after live teardown_dpdk = false
  live_after live _ = live

  abbrev pub Follows : Bool → List Call → Type 0
  Follows live [] = Unit {0}
  Follows live (call ∷ calls) = (allowed live call ≡ true) × Follows (live_after live call) calls

  abbrev is_some : Option (Source floats rings) → Bool
  is_some none = false
  is_some (some source) = true

  abbrev pub is_live : World floats rings → Bool
  is_live w = is_some (at floats rings w.heap w.sample_source)

  at_new :
      (heap : Heap) (object : Option (Source floats rings))
      → get_elem? (heap ++ object ∷ []) (length heap) ≡ some object
  at_new [] object = refl
  at_new (x ∷ heap) object = at_new heap object

  at_put :
      (object : Option (Source floats rings)) (heap : Heap) (p : Option ℕ)
      (source : Source floats rings)
      → at floats rings heap p ≡ some source
      → at floats rings (put_at floats rings p object heap) p ≡ object
  at_put object heap none source h = absurd (cc)
  at_put object [] (some p) source h = absurd (cc)
  at_put object (x ∷ heap) (some zero) source h = refl
  at_put object (x ∷ heap) (some (suc p)) source h = at_put object heap (some p) source h

  Made-is_live : (w w' : World floats rings) → Made floats rings w w' → is_live w' ≡ true
  Made-is_live w w' m = ap is_some (
      ap (at floats rings w'.heap) m.pointer
      ∙ ap (object_of floats rings)
          (ap (λ (h : Heap). get_elem? h (length w.heap)) m.heap ∙ at_new w.heap (some m.source)))

  Replaced-is_live :
      (object : Option (Source floats rings)) (w w' : World floats rings)
      → Replaced floats rings object w w'
      → (is_live w ≡ true) × (is_live w' ≡ is_some object)
  Replaced-is_live object w w' r = (
    ap is_some r.found,
    ap is_some (
        ap (at floats rings w'.heap) r.pointer
        ∙ (ap (λ (h : Heap). at floats rings h w.sample_source) r.heap
            ∙ at_put object w.heap w.sample_source r.source r.found)),
  )

  Kept-is_live : (w w' : World floats rings) → Kept floats rings w w' → is_live w' ≡ is_live w
  Kept-is_live w w' k = ap is_some (
      ap (at floats rings w'.heap) k.pointer
      ∙ ap (λ (h : Heap). at floats rings h w.sample_source) k.heap)

  Effect-is_live :
      (call : Call) (w w' : World floats rings)
      → Effect floats rings call w w'
      → (allowed (is_live w) call ≡ true) × (is_live w' ≡ live_after (is_live w) call)
  Effect-is_live (begin_udp memory) w w' e = (refl, Made-is_live w w' e)
  Effect-is_live (begin_dpdk streams n) w w' e = (refl, Made-is_live w w' e)
  Effect-is_live teardown_udp w w' e = Replaced-is_live none w w' e
  Effect-is_live teardown_dpdk w w' e = Replaced-is_live none w w' e
  Effect-is_live (take_samples i n rx_burst samples) w w' (source, e) =
      let (before, after) = Replaced-is_live (some source) w w' e in (before, after ∙ sym before)
  Effect-is_live (choose_norm norm) w w' e = (refl, Kept-is_live w w' e)
  Effect-is_live (choose_dump_mode value) w w' e = (refl, Kept-is_live w w' e)

  -- An object that the pointer does not name.
  pub record IsLost (p : ℕ) (source : Source floats rings) (w : World floats rings) : Type 0 where
    pub there : get_elem? w.heap p ≡ some (some source)
    pub unnamed : w.sample_source ≢ some p

  get_elem?-before :
      (heap : Heap) (object : Option (Source floats rings)) (p : ℕ)
      → p < length heap
      → get_elem? (heap ++ object ∷ []) p ≡ get_elem? heap p
  get_elem?-before [] object p h = absurd (omega arith)
  get_elem?-before (x ∷ heap) object zero h = refl
  get_elem?-before (x ∷ heap) object (suc p) h = get_elem?-before heap object p (omega arith)

  get_elem?-elsewhere :
      (object : Option (Source floats rings)) (heap : Heap) (pointer : Option ℕ) (p : ℕ)
      → pointer ≢ some p
      → get_elem? (put_at floats rings pointer object heap) p ≡ get_elem? heap p
  get_elem?-elsewhere object heap none p h = refl
  get_elem?-elsewhere object heap (some q) p h =
      get_elem?-set_ne heap q p object (λ e. h (ap some e))

  -- A set-up loses whatever the pointer named before, and keeps what was lost already.
  Made-there :
      (p : ℕ) (source : Source floats rings) (w w' : World floats rings)
      → get_elem? w.heap p ≡ some (some source)
      → Made floats rings w w'
      → IsLost p source w'
  Made-there p source w w' there m =
      let inside = get_elem?-lt w.heap p there in
      record {
        there =
            ap (λ (h : Heap). get_elem? h p) m.heap
            ∙ (get_elem?-before w.heap (some m.source) p inside ∙ there);
        unnamed = λ e. let same : length w.heap ≡ p = cc in absurd (omega arith);
      }

  Replaced-IsLost :
      (object : Option (Source floats rings)) (p : ℕ) (source : Source floats rings)
      (w w' : World floats rings)
      → IsLost p source w
      → Replaced floats rings object w w'
      → IsLost p source w'
  Replaced-IsLost object p source w w' lost r = record {
    there =
        ap (λ (h : Heap). get_elem? h p) r.heap
        ∙ (get_elem?-elsewhere object w.heap w.sample_source p lost.unnamed ∙ lost.there);
    unnamed = λ e. lost.unnamed (sym r.pointer ∙ e);
  }

  Kept-IsLost :
      (p : ℕ) (source : Source floats rings) (w w' : World floats rings)
      → IsLost p source w
      → Kept floats rings w w'
      → IsLost p source w'
  Kept-IsLost p source w w' lost k = record {
    there = ap (λ (h : Heap). get_elem? h p) k.heap ∙ lost.there;
    unnamed = λ e. lost.unnamed (sym k.pointer ∙ e);
  }

  Effect-IsLost :
      (call : Call) (p : ℕ) (source : Source floats rings) (w w' : World floats rings)
      → IsLost p source w
      → Effect floats rings call w w'
      → IsLost p source w'
  Effect-IsLost (begin_udp memory) p source w w' lost e = Made-there p source w w' lost.there e
  Effect-IsLost (begin_dpdk streams n) p source w w' lost e = Made-there p source w w' lost.there e
  Effect-IsLost teardown_udp p source w w' lost e = Replaced-IsLost none p source w w' lost e
  Effect-IsLost teardown_dpdk p source w w' lost e = Replaced-IsLost none p source w w' lost e
  Effect-IsLost (take_samples i n rx_burst samples) p source w w' lost (s, e) =
      Replaced-IsLost (some s) p source w w' lost e
  Effect-IsLost (choose_norm norm) p source w w' lost e = Kept-IsLost p source w w' lost e
  Effect-IsLost (choose_dump_mode value) p source w w' lost e = Kept-IsLost p source w w' lost e

  abbrev pub IsSetup : Call → Type 0
  IsSetup (begin_udp memory) = Unit {0}
  IsSetup (begin_dpdk streams n) = Unit {0}
  IsSetup _ = ⊥

  setup-Made :
      (call : Call) (w w' : World floats rings)
      → IsSetup call
      → Effect floats rings call w w'
      → Made floats rings w w'
  setup-Made (begin_udp memory) w w' s e = e
  setup-Made (begin_dpdk streams n) w w' s e = e
  setup-Made teardown_udp w w' s e = absurd s
  setup-Made teardown_dpdk w w' s e = absurd s
  setup-Made (take_samples i n rx_burst samples) w w' s e = absurd s
  setup-Made (choose_norm norm) w w' s e = absurd s
  setup-Made (choose_dump_mode value) w w' s e = absurd s

  module _ (network : Network) (ops : DpdkOps rings) where
    -- Any sequence of calls that returns has followed the rules: samples are taken from, and a
    -- tear-down ends, only a source that was set up and not torn down since; any other sequence does
    -- not return.
    pub perform_all-Follows :
        (calls : List Call) (w w' : World floats rings)
        → perform_all floats rings network ops calls w ≡ (ok tt, w')
        → Follows (is_live w) calls
    perform_all-Follows [] w w' h = tt
    perform_all-Follows (call ∷ calls) w w' h =
        let (u, mid, first, rest) = continue-eq-ok (perform floats rings network ops call w) _ h in
        let (fine, after) =
          Effect-is_live call w mid (perform-Effect floats rings network ops call w mid first).0 in
        (fine, subst (λ live. Follows live calls) after (perform_all-Follows calls mid w' rest))

    perform_all-IsLost :
        (calls : List Call) (p : ℕ) (source : Source floats rings) (w w' : World floats rings)
        → perform_all floats rings network ops calls w ≡ (ok tt, w')
        → IsLost p source w
        → IsLost p source w'
    perform_all-IsLost [] p source w w' h lost = subst (IsLost p source) (ap (λ r. r.1) h) lost
    perform_all-IsLost (call ∷ calls) p source w w' h lost =
        let (u, mid, first, rest) = continue-eq-ok (perform floats rings network ops call w) _ h in
        perform_all-IsLost calls p source mid w' rest (
          Effect-IsLost call p source w mid lost
            (perform-Effect floats rings network ops call w mid first).0)

    -- A source that is replaced without a tear-down is lost: when the pointer names a live source
    -- and another one is set up, over the kernel or over DPDK, then after any further calls that
    -- return the first object is still on the heap, undeleted and as it was, and the pointer does
    -- not name it.
    pub perform_all_loses :
        (call : Call) (calls : List Call) (p : ℕ) (source : Source floats rings)
        (w w' : World floats rings)
        → IsSetup call
        → w.sample_source ≡ some p
        → get_elem? w.heap p ≡ some (some source)
        → perform_all floats rings network ops (call ∷ calls) w ≡ (ok tt, w')
        → IsLost p source w'
    perform_all_loses call calls p source w w' setup named there h =
        let (u, mid, first, rest) = continue-eq-ok (perform floats rings network ops call w) _ h in
        perform_all-IsLost calls p source mid w' rest (
          Made-there p source w mid there (
            setup-Made call w mid setup
              (perform-Effect floats rings network ops call w mid first).0))
