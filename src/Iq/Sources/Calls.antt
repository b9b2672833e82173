-- ===== src/Iq/Sources/Calls.antt =====
-- Calls of IqClient on its sample source, one after the other, and what each does with the pointer,
-- the heap and the addresses that are in use.
use rs_jerry_driver.Common.{
  ℕ, zero, suc, ◌≡◌, refl, ap, sym, ◌∙◌, subst, ℤ, Bool, List, [], ◌∷◌, ◌++◌, Option, none, some,
  Result, ok, err, length,
}
use mathlib.Core.List.{Mem, mem-cons_of_mem}
use rs_jerry_driver.Common.Run.{Run, ◌>>=◌, ◌>>◌, returns, continue-eq-ok}
use rs_jerry_driver.Floats.{FloatOps, Complex}
use rs_jerry_driver.Net.{SockAddr}
use rs_jerry_driver.Udp
use rs_jerry_driver.Udp.{UdpSource, new_udp_source}
use rs_jerry_driver.Dpdk.{Mbuf, RingOps, StreamAttr, DpdkSource}
use rs_jerry_driver.Dpdk.Samples
use rs_jerry_driver.Dpdk.Setup.{DpdkOps, DpdkCall, new_dpdk_source}
use rs_jerry_driver.Iq.Sources.{
  Network, sockets_of, Source, udp, dpdk, Sources, at, put_at, udp_made, dpdk_made, deleted,
  received, udp_received, dpdk_received, set_norm, set_dump_mode, disconnect, delete_udp_source,
  setup_udp_source, setup_dpdk_source, teardown_udp_source, teardown_dpdk_source, get_samples,
}

module _ (floats : FloatOps) (rings : RingOps) where
  open floats use {Float}

  -- A call of the program that uses the library.
  pub data SourceCall : Type 0 where
    begin_udp : UdpSource floats → SourceCall
    begin_dpdk : List (StreamAttr floats rings) → ℕ → SourceCall
    teardown_udp teardown_dpdk : SourceCall
    take_samples : ℕ → ℤ → (ℤ → ℕ → List Mbuf) → List (Complex Float) → SourceCall
    choose_norm : Float → SourceCall
    choose_dump_mode : Bool → SourceCall

  abbrev pub World : Type 0
  World = Sources floats rings

  -- What a call that returned does with the pointer, the heap and the addresses.
  pub record KeepsAddresses (w w' : World) : Type 0 where
    pub keeps : (a : SockAddr) → Mem a w.in_use → Mem a w'.in_use

  pub record Made (w w' : World) : Type 0 where
    pub source : Source floats rings
    pub heap : w'.heap ≡ w.heap ++ some source ∷ []
    pub pointer : w'.sample_source ≡ some (length w.heap)

  pub record Replaced (object : Option (Source floats rings)) (w w' : World) : Type 0 where
    pub source : Source floats rings
    pub found : at floats rings w.heap w.sample_source ≡ some source
    pub heap : w'.heap ≡ put_at floats rings w.sample_source object w.heap
    pub pointer : w'.sample_source ≡ w.sample_source

  pub record Kept (w w' : World) : Type 0 where
    pub heap : w'.heap ≡ w.heap
    pub pointer : w'.sample_source ≡ w.sample_source

  -- The same for each kind of call.
  abbrev pub Effect : SourceCall → World → World → Type 0
  Effect (begin_udp memory) w w' = Made w w'
  Effect (begin_dpdk streams n) w w' = Made w w'
  Effect teardown_udp w w' = Replaced none w w'
  Effect teardown_dpdk w w' = Replaced none w w'
  Effect (take_samples i n rx_burst samples) w w' =
      (source : Source floats rings) × Replaced (some source) w w'
  Effect (choose_norm norm) w w' = Kept w w'
  Effect (choose_dump_mode value) w w' = Kept w w'

  module _ (network : Network) (ops : DpdkOps rings) where
    abbrev pub perform : SourceCall → Run World (Unit {0})
    perform (begin_udp memory) = setup_udp_source floats rings network memory
    perform (begin_dpdk streams n) = setup_dpdk_source floats rings ops streams n
    perform teardown_udp = teardown_udp_source floats rings ops
    perform teardown_dpdk = teardown_dpdk_source floats rings ops
    perform (take_samples i n rx_burst samples) =
        get_samples floats rings i n rx_burst samples >>= λ r. returns tt
    perform (choose_norm norm) = λ w. (ok tt, record w { client = set_norm floats norm w.client })
    perform (choose_dump_mode value) =
        λ w. (ok tt, record w { client = set_dump_mode floats value w.client })

    abbrev pub perform_all : List SourceCall → Run World (Unit {0})
    perform_all [] = returns tt
    perform_all (call ∷ calls) = perform call >> perform_all calls

    udp_made-Made :
        (r : Result (UdpSource floats)) (w w' : World)
        → udp_made floats rings r w ≡ (ok tt, w')
        → Made w w' × KeepsAddresses w w'
    udp_made-Made (ok source) w w' h = (
      record {
        source = udp source;
        heap = ap (λ r. r.1.heap) (sym h);
        pointer = ap (λ r. r.1.sample_source) (sym h);
      },
      record {
        keeps = λ a m. subst (Mem a) (ap (λ r. r.1.in_use) h) (mem-cons_of_mem source.si_other m);
      },
    )
    udp_made-Made (err e) w w' h = absurd (cc)

    dpdk_made-Made :
        (r : Result (DpdkSource floats rings) × List DpdkCall) (w w' : World)
        → dpdk_made floats rings r w ≡ (ok tt, w')
        → Made w w' × KeepsAddresses w w'
    dpdk_made-Made (ok source, calls) w w' h = (
      record {
        source = dpdk source;
        heap = ap (λ r. r.1.heap) (sym h);
        pointer = ap (λ r. r.1.sample_source) (sym h);
      },
      record { keeps = λ a m. subst (Mem a) (ap (λ r. r.1.in_use) h) m },
    )
    dpdk_made-Made (err e, calls) w w' h = absurd (cc)

    replaced :
        (object : Option (Source floats rings)) (source : Source floats rings) (w w' : World)
        → at floats rings w.heap w.sample_source ≡ some source
        → w'.heap ≡ put_at floats rings w.sample_source object w.heap
        → w'.sample_source ≡ w.sample_source
        → w.in_use ≡ w'.in_use
        → Replaced object w w' × KeepsAddresses w w'
    replaced object source w w' found heap pointer same = (
      record { source = source; found = found; heap = heap; pointer = pointer },
      record { keeps = λ a m. subst (Mem a) same m },
    )

    -- An object that stays as it is.
    put_at_same :
        (source : Source floats rings) (heap : List (Option (Source floats rings))) (p : Option ℕ)
        → at floats rings heap p ≡ some source
        → put_at floats rings p (some source) heap ≡ heap
    put_at_same source heap none h = refl
    put_at_same source [] (some p) h = refl
    put_at_same source (x ∷ heap) (some zero) h = ap (λ o. o ∷ heap) (sym h)
    put_at_same source (x ∷ heap) (some (suc p)) h =
        ap (λ t. x ∷ t) (put_at_same source heap (some p) h)

    deleted-Replaced :
        (o : Option (Source floats rings)) (w w' : World)
        → at floats rings w.heap w.sample_source ≡ o
        → deleted floats rings o ops w ≡ (ok tt, w')
        → Replaced none w w' × KeepsAddresses w w'
    unfolding delete_udp_source disconnect
    deleted-Replaced none w w' found h = absurd (cc)
    deleted-Replaced (some (udp source)) w w' found h =
        replaced none (udp source) w w' found (ap (λ r. r.1.heap) (sym h))
          (ap (λ r. r.1.sample_source) (sym h)) (ap (λ r. r.1.in_use) h)
    deleted-Replaced (some (dpdk source)) w w' found h =
        replaced none (dpdk source) w w' found (ap (λ r. r.1.heap) (sym h))
          (ap (λ r. r.1.sample_source) (sym h)) (ap (λ r. r.1.in_use) h)

    received-Replaced :
        (o : Option (Source floats rings)) (i : ℕ) (n : ℤ) (rx_burst : ℤ → ℕ → List Mbuf)
        (samples : List (Complex Float)) (w w' : World) (r : List (Complex Float) × ℕ)
        → at floats rings w.heap w.sample_source ≡ o
        → received floats rings o i n rx_burst samples w ≡ (ok r, w')
        → ((source : Source floats rings) × Replaced (some source) w w') × KeepsAddresses w w'
    received-Replaced none i n rx_burst samples w w' r found h = absurd (cc)
    received-Replaced (some (udp source)) i n rx_burst samples w w' r found h =
        go
          (Udp.get_samples floats n
            (record { source = source; samples = samples; queue = w.queue }))
          h
      where
        go :
            (taken : Result (Udp.Receiving floats × ℕ))
            → udp_received floats rings taken w ≡ (ok r, w')
            → ((s : Source floats rings) × Replaced (some s) w w') × KeepsAddresses w w'
        go (ok (t, total)) run =
            let (kept, keeps) =
              replaced (some (udp t.source)) (udp source) w w' found (ap (λ r. r.1.heap) (sym run))
                (ap (λ r. r.1.sample_source) (sym run)) (ap (λ r. r.1.in_use) run) in
            ((udp t.source, kept), keeps)
        go (err e) run = absurd (cc)
    received-Replaced (some (dpdk source)) i n rx_burst samples w w' r found h =
        go (Samples.get_samples floats rings i n rx_burst samples source) h
      where
        go :
            (taken : Result (Samples.Dequeued floats rings))
            → dpdk_received floats rings taken w ≡ (ok r, w')
            → ((s : Source floats rings) × Replaced (some s) w w') × KeepsAddresses w w'
        go (ok d) run =
            let (kept, keeps) =
              replaced (some (dpdk source)) (dpdk source) w w' found
                (ap (λ r. r.1.heap) (sym run)
                  ∙ sym (put_at_same (dpdk source) w.heap w.sample_source found))
                (ap (λ r. r.1.sample_source) (sym run)) (ap (λ r. r.1.in_use) run) in
            ((dpdk source, kept), keeps)
        go (err e) run = absurd (cc)

    pub perform-Effect :
        (call : SourceCall) (w w' : World)
        → perform call w ≡ (ok tt, w')
        → Effect call w w' × KeepsAddresses w w'
    unfolding setup_udp_source setup_dpdk_source teardown_udp_source teardown_dpdk_source
        get_samples set_norm set_dump_mode
    perform-Effect (begin_udp memory) w w' h =
        udp_made-Made (new_udp_source floats (sockets_of network w.in_use) memory w.client.norm) w
          w' h
    perform-Effect (begin_dpdk streams n) w w' h =
        dpdk_made-Made (new_dpdk_source floats rings ops streams n w.client.norm w.client.dump_mode)
          w w' h
    perform-Effect teardown_udp w w' h =
        deleted-Replaced (at floats rings w.heap w.sample_source) w w' refl h
    perform-Effect teardown_dpdk w w' h =
        deleted-Replaced (at floats rings w.heap w.sample_source) w w' refl h
    perform-Effect (take_samples i n rx_burst samples) w w' h =
        let (r, mid, got, end) =
          continue-eq-ok (get_samples floats rings i n rx_burst samples w) _ h in
        received-Replaced (at floats rings w.heap w.sample_source) i n rx_burst samples w w' r refl
          (got ∙ ap (λ x. (ok r, x.1)) end)
    perform-Effect (choose_norm norm) w w' h = (
      record { heap = ap (λ r. r.1.heap) (sym h); pointer = ap (λ r. r.1.sample_source) (sym h) },
      record { keeps = λ a m. subst (Mem a) (ap (λ r. r.1.in_use) h) m },
    )
    perform-Effect (choose_dump_mode value) w w' h = (
      record { heap = ap (λ r. r.1.heap) (sym h); pointer = ap (λ r. r.1.sample_source) (sym h) },
      record { keeps = λ a m. subst (Mem a) (ap (λ r. r.1.in_use) h) m },
    )
