-- ===== src/Dpdk/Setup/Rounds.antt =====
-- The rounds of the constructor's loops: what each calls and changes where it returns.
use Prim.Native.String.{String}
use rs_jerry_driver.Common.{
  ℕ, ◌≡◌, refl, ap, sym, ◌∙◌, subst, ℤ, pos, Bool, false, List, [], ◌∷◌, ◌++◌, Option, none, some,
  Result, ok, err, Error, exit_process, undefined, ◌⊎◌, get_elem?, get_elem?-lt, get_elem?-set_self,
  get_elem?-set_ne, set, bit_and, Bool-cases, inl, inr, if◌then◌else◌,
}
use rs_jerry_driver.Common.Text.{to_string, join}
use rs_jerry_driver.Floats.{FloatOps}
use rs_jerry_driver.Definitions.{ring_size}
use rs_jerry_driver.Dpdk.{RingOps, StreamAttr}
use rs_jerry_driver.Dpdk.Setup.{
  DpdkCall, DpdkOps, EthConf, SetupState, dev_info_get, dev_configure, rx_queue_setup,
  promiscuous_enable, dev_start, link_get, pool_create, ring_create, sp_enq, sc_deq, remote_launch,
  run_rx_thread, run_dump_thread, is_null, allocate_pool, launch,
}
use rs_jerry_driver.Dpdk.Setup.Loops.{Changed}

abbrev pub pool_name : ℕ → String
pool_name i = join "mbuf_pool_" (to_string (pos i))

abbrev pub ring_name : ℕ → String
ring_name i = join "rx_ring_" (to_string (pos i))

module _ (floats : FloatOps) (rings : RingOps) (dpdk : DpdkOps rings) where
  -- The configuration of a port, which asks for no offloads: `0 & capabilities` is 0.
  abbrev pub port_conf : ℤ → EthConf
  port_conf port = record {
    rxmode_offloads = 0;
    txmode_offloads = bit_and 0 (dpdk.dev_info port).1.tx_offload_capa;
  }

  -- The streams after the first and the second loop.
  abbrev pub with_pool : ℕ → StreamAttr floats rings → StreamAttr floats rings
  with_pool i s = record s { mbuf_pool = dpdk.pool (pool_name i) }

  abbrev pub with_ring : ℕ → StreamAttr floats rings → StreamAttr floats rings
  with_ring i s = record s { ring = dpdk.ring (ring_name i) }

  -- The calls of a round, the newest first.
  abbrev pub pool_calls : ℕ → StreamAttr floats rings → List DpdkCall
  pool_calls i s = pool_create (pool_name i) 4096 0 0 ∷ []

  abbrev pub stream_calls : ℕ → StreamAttr floats rings → List DpdkCall
  stream_calls i s =
      let port = s.dpdk_port_id in
      ring_create (ring_name i) ring_size (sp_enq ∷ sc_deq ∷ [])
      ∷ link_get port
      ∷ dev_start port
      ∷ promiscuous_enable port
      ∷ rx_queue_setup port 0 (record (dpdk.dev_info port).1.default_rxconf { offloads = 0 })
          s.mbuf_pool
      ∷ dev_configure port (port_conf port)
      ∷ dev_info_get port
      ∷ []

  abbrev pub launch_calls : Bool → ℕ → StreamAttr floats rings → List DpdkCall
  launch_calls dump_mode i s =
      remote_launch (if dump_mode then run_dump_thread else run_rx_thread) i s.l_cores.1 ∷ []

  -- A run does not both return and throw.
  refuted :
      {A : Type 0} {r : Result A × SetupState floats rings} {a : A} {e : Error}
      {x : SetupState floats rings}
      → r ≡ (ok a, x)
      → r.0 ≡ err e
      → ⊥
  refuted h k = let returned = ap (λ o. o.0) h in cc

  -- An array has an element at an index, or not.
  pub has_stream :
      (streams : List (StreamAttr floats rings)) (i : ℕ)
      → (get_elem? streams i ≡ none)
        ⊎ (s : StreamAttr floats rings) × (get_elem? streams i ≡ some s)
  has_stream streams i = go (get_elem? streams i) refl
    where
      go :
          (found : Option (StreamAttr floats rings))
          → get_elem? streams i ≡ found
          → (get_elem? streams i ≡ none)
            ⊎ (s : StreamAttr floats rings) × (get_elem? streams i ≡ some s)
      go none e = inl e
      go (some s) e = inr (s, e)

  -- One element was replaced.
  pub set-Changed :
      (change : ℕ → StreamAttr floats rings → StreamAttr floats rings)
      (calls : ℕ → StreamAttr floats rings → List DpdkCall) (i : ℕ) (s : StreamAttr floats rings)
      (st : SetupState floats rings)
      → get_elem? st.source.streams i ≡ some s
      → Changed floats rings change calls i st (record {
        source = record st.source { streams = set st.source.streams i (change i s) };
        log = calls i s ++ st.log;
      })
  set-Changed change calls i s st found = record {
    s = s;
    found = found;
    log = refl;
    streams = set st.source.streams i (change i s);
    source = refl;
    here =
        get_elem?-set_self st.source.streams i (change i s)
          (get_elem?-lt st.source.streams i found);
    others = λ j h. get_elem?-set_ne st.source.streams i j (change i s) (λ e. h (sym e));
  }

  pub launch-Changed :
      (dump_mode : Bool) (i : ℕ) (st st' : SetupState floats rings)
      → launch floats rings dpdk dump_mode i st ≡ (ok tt, st')
      → Changed floats rings (λ j s. s) (launch_calls dump_mode) i st st'
  unfolding launch
  launch-Changed dump_mode i st st' run = elim (has_stream st.source.streams i) [
    | inl missing ↦
        let thrown : (launch floats rings dpdk dump_mode i st).0 ≡ err undefined =
          rw missing refl in
        absurd (refuted run thrown)
    | inr (s, found) ↦
        let returned : launch floats rings dpdk dump_mode i st
            ≡ (ok tt, record st { log = launch_calls dump_mode i s ++ st.log }) =
          rw found refl in
        subst
          (λ (last : SetupState floats rings).
            Changed floats rings (λ j t. t) (launch_calls dump_mode) i st last)
          (ap (λ r. r.1) (sym returned ∙ run))
          (record {
            s = s;
            found = found;
            log = refl;
            streams = st.source.streams;
            source = refl;
            here = found;
            others = λ j h. refl;
          })
  ]

  pub allocate_pool-Changed :
      (i : ℕ) (st st' : SetupState floats rings)
      → allocate_pool floats rings dpdk i st ≡ (ok tt, st')
      → Changed floats rings with_pool pool_calls i st st'
        × (is_null (dpdk.pool (pool_name i)) ≡ false)
  unfolding allocate_pool
  allocate_pool-Changed i st st' run = elim (has_stream st.source.streams i) [
    | inl missing ↦
        let thrown : (allocate_pool floats rings dpdk i st).0 ≡ err undefined = rw missing refl in
        absurd (refuted run thrown)
    | inr (s, found) ↦
        let last : SetupState floats rings = record {
          source = record st.source { streams = set st.source.streams i (with_pool i s) };
          log = pool_calls i s ++ st.log;
        } in
        elim (Bool-cases (is_null (dpdk.pool (pool_name i)))) [
          | inl null ↦
              let thrown : (allocate_pool floats rings dpdk i st).0 ≡ err exit_process =
                rw (found, null) refl in
              absurd (refuted run thrown)
          | inr made ↦
              let returned : allocate_pool floats rings dpdk i st ≡ (ok tt, last) =
                rw (found, made) refl in
              (
                subst
                    (λ (x : SetupState floats rings).
                      Changed floats rings with_pool pool_calls i st x)
                    (ap (λ r. r.1) (sym returned ∙ run))
                    (set-Changed with_pool pool_calls i s st found),
                made,
              )
        ]
  ]
