-- ===== src/Dpdk/Setup/Order.antt =====
-- The order of the constructor's calls.
use Prim.Native.String.{String}
use rs_jerry_driver.Common.{
  ℕ, zero, suc, ◌+◌, ◌≤◌, ◌<◌, ◌≡◌, refl, ap, ap₂, sym, ◌∙◌, subst, Bool, false, List, [], ◌∷◌,
  ◌++◌, some, Result, ok, err, get_elem?, ◌==◌, arith,
}
use rs_jerry_driver.Common.Run.{continue-eq-ok}
use rs_jerry_driver.Floats.{FloatOps}
use rs_jerry_driver.Parser.{HrzrParser, new_hrzr_parser}
use rs_jerry_driver.Dpdk.{RingOps, StreamAttr, DpdkSource}
use rs_jerry_driver.Dpdk.Setup.{
  DpdkCall, DpdkOps, SetupState, eal_init, dev_count_avail, is_negative, is_null, for_streams,
  l_cores_from, stream_at, setup_eal, check_available_ports, allocate_mem_pool, allocate_pool,
  setup_dpdk, setup_stream, launch, construct, new_dpdk_source, constructed, initial, after_parser,
}
use rs_jerry_driver.Dpdk.Setup.Loops.{
  Touched, Touched-inside, calls_from, calls_from_cong, calls_for, for_streams-Touched,
  for_streams-each,
}
use rs_jerry_driver.Dpdk.Setup.Rounds.{
  pool_name, with_pool, with_ring, pool_calls, stream_calls, launch_calls, launch-Changed,
  allocate_pool-Changed,
}
use rs_jerry_driver.Dpdk.Setup.Port.{tested, setup_stream-Changed}

module _ (floats : FloatOps) (rings : RingOps) (dpdk : DpdkOps rings) where
  abbrev State : Type 0
  State = SetupState floats rings

  -- The list of the cores is read without any call.
  l_cores_from-same :
      (left i : ℕ) (text cores : String) (st st' : State)
      → l_cores_from floats rings left i text st ≡ (ok cores, st')
      → st ≡ st'
  unfolding l_cores_from
  l_cores_from-same zero i text cores st st' run = ap (λ r. r.1) run
  l_cores_from-same (suc left) i text cores st st' run =
      let (s, mid, first, rest) = continue-eq-ok (stream_at floats rings i st) _ run in
      ap (λ r. r.1) first ∙ l_cores_from-same left (i + 1) _ cores mid st' rest

  -- The arguments of `rte_eal_init`.
  abbrev pub argv : String → List String
  argv cores = "dpdk" ∷ "-l" ∷ cores ∷ "--log-level" ∷ "lib.eal:error" ∷ []

  setup_dpdk_lem :
      (n : ℕ) (st st' : State)
      → setup_dpdk floats rings dpdk n st ≡ (ok tt, st')
      → (cores : String) × Touched floats rings
          (with_pool floats rings dpdk)
          (pool_calls floats rings dpdk)
          n
          0
          (record st { log = dev_count_avail ∷ eal_init (argv cores) ∷ st.log })
          st'
        × ((j : ℕ) → j < n → is_null (dpdk.pool (pool_name j)) ≡ false)
        × ((l_cores_from floats rings n 0 "" st).0 ≡ ok cores)
  unfolding setup_dpdk setup_eal check_available_ports allocate_mem_pool
  setup_dpdk_lem n st st' run =
      let (cores, st0, e0, run0) = continue-eq-ok (l_cores_from floats rings n 0 "" st) _ run in
      let (u1, st1, e1, run1) =
        continue-eq-ok (setup_eal floats rings dpdk (argv cores) st0) _ run0 in
      let (u2, st2, e2, run2) =
        continue-eq-ok (check_available_ports floats rings dpdk st1) _ run1 in
      let same0 = l_cores_from-same n 0 "" cores st st0 e0 in
      let same1 =
        (tested floats rings (eal_init (argv cores)) (is_negative (dpdk.eal_result (argv cores)))
          st0 st1 e1).0 in
      let same2 = (tested floats rings dev_count_avail (dpdk.dev_count == 0) st1 st2 e2).0 in
      let start : record st { log = dev_count_avail ∷ eal_init (argv cores) ∷ st.log } ≡ st2 =
        ap (λ (x : State). record x { log = dev_count_avail ∷ eal_init (argv cores) ∷ x.log }) same0
        ∙ ap (λ (x : State). record x { log = dev_count_avail ∷ x.log }) same1
        ∙ same2 in
      (
        cores,
        subst
            (λ (x : State).
              Touched floats rings (with_pool floats rings dpdk) (pool_calls floats rings dpdk) n 0
                x st')
            (sym start)
            (for_streams-Touched floats rings (with_pool floats rings dpdk)
              (pool_calls floats rings dpdk) (allocate_pool floats rings dpdk)
              (λ i a b h. (allocate_pool-Changed floats rings dpdk i a b h).0) n 0 st2 st' run2),
        λ j lt.
            let (a, b, h) =
              for_streams-each floats rings (allocate_pool floats rings dpdk) n 0 st2 st' run2 j
                (omega arith) (omega arith) in
            (allocate_pool-Changed floats rings dpdk j a b h).1,
        ap (λ r. r.0) e0,
      )

  -- The calls of the first loop, by the streams before they got their pools.
  abbrev pub port_calls : ℕ → StreamAttr floats rings → List DpdkCall
  port_calls i s = stream_calls floats rings dpdk i (with_pool floats rings dpdk i s)

  -- The object was made, with a pool and the port set up for every stream, and the calls were made
  -- in this order, the oldest last: the environment, the pools, the ports with their rings, and
  -- then the threads.
  pub record IsConstructed (n : ℕ) (dump_mode : Bool) (streams : List (StreamAttr floats rings))
      (source : DpdkSource floats rings) (log : List DpdkCall) : Type 0 where
    pub cores : String
    pub log_is :
        log
        ≡ calls_from (launch_calls floats rings dpdk dump_mode) streams n 0
          ++ (calls_from port_calls streams n 0
              ++ (calls_from (pool_calls floats rings dpdk) streams n 0
                  ++ (dev_count_avail ∷ eal_init (argv cores) ∷ [])))
    pub pools : (j : ℕ) → j < n → is_null (dpdk.pool (pool_name j)) ≡ false
    pub equipped :
        (j : ℕ)
        → j < n
        → (s : StreamAttr floats rings) × (get_elem? streams j ≡ some s)
          × (get_elem? source.streams j
              ≡ some (with_ring floats rings dpdk j (with_pool floats rings dpdk j s)))
    pub rest :
        (source.quit ≡ false)
        × (source.num_streams ≡ n)
        × (source.total_packets ≡ 0)
        × (source.total_packets_lost ≡ 0)

  -- The calls of a loop over changed streams, by the streams before.
  calls_from_before :
      (f : ℕ → StreamAttr floats rings → List DpdkCall)
      (change : ℕ → StreamAttr floats rings → StreamAttr floats rings)
      (before after : List (StreamAttr floats rings)) (n : ℕ)
      → ((j : ℕ)
          → 0 ≤ j
          → j < 0 + n
          → (s : StreamAttr floats rings) × (get_elem? before j ≡ some s)
            × (get_elem? after j ≡ some (change j s)))
      → calls_from f after n 0 ≡ calls_from (λ i s. f i (change i s)) before n 0
  calls_from_before f change before after n inside =
      calls_from_cong f (λ i s. f i (change i s)) after before n 0
        (λ j ge lt.
          let (s, found, changed) = inside j ge lt in
          ap (calls_for f j) changed ∙ sym (ap (calls_for (λ i t. f i (change i t)) j) found))

  -- Two changes of the streams, one after the other.
  inside_both :
      (f g : ℕ → StreamAttr floats rings → StreamAttr floats rings)
      (xs ys zs : List (StreamAttr floats rings)) (j : ℕ)
      → (s : StreamAttr floats rings) × (get_elem? xs j ≡ some s) × (get_elem? ys j ≡ some (f j s))
      → (s : StreamAttr floats rings) × (get_elem? ys j ≡ some s) × (get_elem? zs j ≡ some (g j s))
      → (s : StreamAttr floats rings) × (get_elem? xs j ≡ some s)
        × (get_elem? zs j ≡ some (g j (f j s)))
  inside_both f g xs ys zs j (s, found, first) (t, found', second) =
      let same : t ≡ f j s = cc in (s, found, second ∙ ap (λ x. some (g j x)) same)

  assemble :
      (n : ℕ) (dump_mode : Bool) (source : DpdkSource floats rings) (st1 st2 st' : State)
      (cores : String)
      → Touched floats rings
          (with_pool floats rings dpdk)
          (pool_calls floats rings dpdk)
          n
          0
          (record { source = source; log = dev_count_avail ∷ eal_init (argv cores) ∷ [] })
          st1
      → Touched floats rings
          (with_ring floats rings dpdk)
          (stream_calls floats rings dpdk)
          n
          0
          st1
          st2
      → Touched floats rings (λ i s. s) (launch_calls floats rings dpdk dump_mode) n 0 st2 st'
      → ((j : ℕ) → j < n → is_null (dpdk.pool (pool_name j)) ≡ false)
      → (source.quit ≡ false)
        × (source.num_streams ≡ n)
        × (source.total_packets ≡ 0)
        × (source.total_packets_lost ≡ 0)
      → IsConstructed n dump_mode source.streams st'.source st'.log
  assemble n dump_mode source st1 st2 st' cores t1 t2 t3 pools fresh =
      let st : State = record {
        source = source;
        log = dev_count_avail ∷ eal_init (argv cores) ∷ [];
      } in
      let pool = with_pool floats rings dpdk in
      let ring = with_ring floats rings dpdk in
      let in1 = Touched-inside floats rings pool (pool_calls floats rings dpdk) n 0 st st1 t1 in
      let in2 = Touched-inside floats rings ring (stream_calls floats rings dpdk) n 0 st1 st2 t2 in
      let in3 =
        Touched-inside floats rings (λ i s. s) (launch_calls floats rings dpdk dump_mode) n 0 st2
          st' t3 in
      let both = λ (j : ℕ) (ge : 0 ≤ j) (lt : j < 0 + n).
        inside_both pool ring source.streams st1.source.streams st2.source.streams j (in1 j ge lt)
          (in2 j ge lt) in
      let launches =
        calls_from_before (launch_calls floats rings dpdk dump_mode) (λ i s. ring i (pool i s))
          source.streams st2.source.streams n both in
      let ports =
        calls_from_before (stream_calls floats rings dpdk) pool source.streams st1.source.streams n
          in1 in
      record {
        cores = cores;
        log_is = t3.log ∙ ap₂ ◌++◌ launches (t2.log ∙ ap₂ ◌++◌ ports t1.log);
        pools = pools;
        equipped = λ j lt.
            inside_both (λ i s. ring i (pool i s)) (λ i s. s) source.streams st2.source.streams
              st'.source.streams j (both j (omega arith) (omega arith))
              (in3 j (omega arith) (omega arith));
        rest = (
          ap (λ o. o.quit) t3.source
              ∙ ap (λ o. o.quit) t2.source
              ∙ ap (λ o. o.quit) t1.source
              ∙ fresh.0,
          ap (λ o. o.num_streams) t3.source
              ∙ ap (λ o. o.num_streams) t2.source
              ∙ ap (λ o. o.num_streams) t1.source
              ∙ fresh.1,
          ap (λ o. o.total_packets) t3.source
              ∙ ap (λ o. o.total_packets) t2.source
              ∙ ap (λ o. o.total_packets) t1.source
              ∙ fresh.2,
          ap (λ o. o.total_packets_lost) t3.source
              ∙ ap (λ o. o.total_packets_lost) t2.source
              ∙ ap (λ o. o.total_packets_lost) t1.source
              ∙ fresh.3,
        );
      }

  construct-IsConstructed :
      (n : ℕ) (dump_mode : Bool) (source : DpdkSource floats rings) (st' : State)
      → (source.quit ≡ false)
        × (source.num_streams ≡ n)
        × (source.total_packets ≡ 0)
        × (source.total_packets_lost ≡ 0)
      → construct floats rings dpdk n dump_mode (record { source = source; log = [] })
        ≡ (ok tt, st')
      → IsConstructed n dump_mode source.streams st'.source st'.log
  unfolding construct
  construct-IsConstructed n dump_mode source st' fresh run =
      let st : State = record { source = source; log = [] } in
      let (u1, st1, e1, run1) = continue-eq-ok (setup_dpdk floats rings dpdk n st) _ run in
      let (u2, st2, e2, run2) =
        continue-eq-ok (for_streams floats rings n 0 (setup_stream floats rings dpdk) st1) _ run1 in
      let (cores, t1, pools, c) = setup_dpdk_lem n st st1 e1 in
      let t2 =
        for_streams-Touched floats rings (with_ring floats rings dpdk)
          (stream_calls floats rings dpdk) (setup_stream floats rings dpdk)
          (setup_stream-Changed floats rings dpdk) n 0 st1 st2 e2 in
      let t3 =
        for_streams-Touched floats rings (λ i s. s) (launch_calls floats rings dpdk dump_mode)
          (launch floats rings dpdk dump_mode) (launch-Changed floats rings dpdk dump_mode) n 0 st2
          st' run2 in
      assemble n dump_mode source st1 st2 st' cores t1 t2 t3 pools fresh

  -- A constructor that returns has made its calls in this order: `rte_eal_init` with the list of
  -- the cores, the count of the ports, a memory pool for every stream, then for every stream the
  -- set-up of its port (information, configuration without offloads, one receive queue over the
  -- stream's pool, promiscuous mode, start, link) and its ring, and only then the launches of the
  -- threads, one for each stream on its second core, with the dump function in dump mode. Each of
  -- the `n` streams has a pool that is not null and what the creation of its ring gave; the
  -- counters are 0 and the flag is clear.
  pub new_dpdk_source-IsConstructed :
      (streams : List (StreamAttr floats rings)) (n : ℕ) (norm : floats.Float) (dump_mode : Bool)
      {source : DpdkSource floats rings} {log : List DpdkCall}
      → new_dpdk_source floats rings dpdk streams n norm dump_mode ≡ (ok source, log)
      → IsConstructed n dump_mode streams source log
  unfolding new_dpdk_source
  new_dpdk_source-IsConstructed streams n norm dump_mode {source} {log} run =
      go (new_hrzr_parser floats norm) run
    where
      go :
          (p : Result (HrzrParser floats))
          → after_parser floats rings dpdk streams n dump_mode p ≡ (ok source, log)
          → IsConstructed n dump_mode streams source log
      go (err e) h = absurd (cc)
      go (ok parser) h =
          finish
            (construct floats rings dpdk n dump_mode
              (record { source = initial floats rings dpdk streams n parser; log = [] }))
            refl h
        where
          finish :
              (r : Result (Unit {0}) × State)
              → construct floats rings dpdk n dump_mode
                  (record { source = initial floats rings dpdk streams n parser; log = [] })
                ≡ r
              → constructed floats rings dpdk r ≡ (ok source, log)
              → IsConstructed n dump_mode streams source log
          finish (err e, st) c k = absurd (cc)
          finish (ok u, st) c k =
              let is =
                construct-IsConstructed n dump_mode (initial floats rings dpdk streams n parser) st
                  (refl, refl, refl, refl) c in
              let source_is : st.source ≡ source = cc in
              let log_is : st.log ≡ log = cc in
              subst (λ (l : List DpdkCall). IsConstructed n dump_mode streams source l) log_is
                (subst (λ (o : DpdkSource floats rings). IsConstructed n dump_mode streams o st.log)
                  source_is is)
