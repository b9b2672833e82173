-- ===== src/Dpdk/Setup/Failure.antt =====
-- A constructor that fails starts no thread.
use Prim.Native.String.{String}
use rs_jerry_driver.Common.{
  ℕ, zero, suc, ◌+◌, ◌≤◌, ◌<◌, ◌≡◌, refl, Bool, true, false, List, [], ◌∷◌, ◌++◌, some, Result, ok,
  err, Error, get_elem?, arith,
}
use rs_jerry_driver.Common.Run.{Run, ◌>>◌, ◌>>=◌, continue, returns}
use rs_jerry_driver.Floats.{FloatOps}
use rs_jerry_driver.Parser.{HrzrParser, new_hrzr_parser}
use rs_jerry_driver.Dpdk.{RingOps, StreamAttr}
use rs_jerry_driver.Dpdk.Setup.{
  DpdkCall, DpdkOps, DevInfo, RxConf, SetupState, remote_launch, call, exit_if, stream_at,
  set_stream, for_streams, l_cores_from, setup_eal, check_available_ports, allocate_mem_pool,
  allocate_pool, setup_dpdk, get_dev_info, configure_port, get_port_conf, configure_rx_conf,
  setup_rx_queue, setup_rx_queues, enable_promiscuous_mode, start_port, assert_link_status,
  setup_port, setup_stream, launch, construct, new_dpdk_source, constructed, initial, after_parser,
}
use rs_jerry_driver.Dpdk.Setup.Loops.{for_streams-Touched, Touched-inside}
use rs_jerry_driver.Dpdk.Setup.Rounds.{with_ring, stream_calls, launch_calls}
use rs_jerry_driver.Dpdk.Setup.Port.{setup_stream-Changed}

abbrev pub is_launch : DpdkCall → Bool
is_launch (remote_launch f i core) = true
is_launch _ = false

-- No call of a log starts a thread.
abbrev pub IsQuiet : List DpdkCall → Type 0
IsQuiet [] = Unit {0}
IsQuiet (c ∷ log) = (is_launch c ≡ false) × IsQuiet log

module _ (floats : FloatOps) (rings : RingOps) where
  abbrev State : Type 0
  State = SetupState floats rings

  -- A run that starts no thread, whether it returns or exits.
  record Keeps {A : Type 0} (run : Run State A) : Type 0 where
    quiet : (st : State) → IsQuiet st.log → IsQuiet (run st).1.log

  Keeps->>= :
      {A B : Type 0} (run : Run State A) (next : A → Run State B)
      → Keeps run
      → ((a : A) → Keeps (next a))
      → Keeps (run >>= next)
  Keeps->>= {A} {B} run next first later = record { quiet = λ st q. go (run st) (first.quiet st q) }
    where
      go : (r : Result A × State) → IsQuiet r.1.log → IsQuiet (continue r next).1.log
      go (ok a, mid) h = (later a).quiet mid h
      go (err e, mid) h = h

  Keeps->> :
      {A B : Type 0} (run : Run State A) (next : Run State B)
      → Keeps run
      → Keeps next
      → Keeps (run >> next)
  Keeps->> {A} {B} run next first later = record { quiet = λ st q. go (run st) (first.quiet st q) }
    where
      go : (r : Result A × State) → IsQuiet r.1.log → IsQuiet (continue r (λ a. next)).1.log
      go (ok a, mid) h = later.quiet mid h
      go (err e, mid) h = h

  call-Keeps : (c : DpdkCall) → is_launch c ≡ false → Keeps (call floats rings c)
  call-Keeps c h = record { quiet = λ st q. (h, q) }

  exit_if-Keeps : (test : Bool) → Keeps (exit_if floats rings test)
  exit_if-Keeps true = record { quiet = λ st q. q }
  exit_if-Keeps false = record { quiet = λ st q. q }

  stream_at-Keeps : (i : ℕ) → Keeps (stream_at floats rings i)
  stream_at-Keeps i = record { quiet = λ st q. q }

  set_stream-Keeps : (i : ℕ) (s : StreamAttr floats rings) → Keeps (set_stream floats rings i s)
  set_stream-Keeps i s = record { quiet = λ st q. q }

  returns-Keeps : {A : Type 0} (a : A) → Keeps (returns {World = State} a)
  returns-Keeps a = record { quiet = λ st q. q }

  for_streams-Keeps :
      (body : ℕ → Run State (Unit {0}))
      → ((i : ℕ) → Keeps (body i))
      → (left i : ℕ) → Keeps (for_streams floats rings left i body)
  unfolding for_streams
  for_streams-Keeps body keeps zero i = returns-Keeps tt
  for_streams-Keeps body keeps (suc left) i =
      Keeps->> (body i) (for_streams floats rings left (i + 1) body) (keeps i)
        (for_streams-Keeps body keeps left (i + 1))

  ruleset keeping = (
    Keeps->>=, Keeps->>, call-Keeps, exit_if-Keeps, stream_at-Keeps, set_stream-Keeps,
    returns-Keeps, for_streams-Keeps, refl,
  )

  l_cores_from-Keeps : (left i : ℕ) (text : String) → Keeps (l_cores_from floats rings left i text)
  unfolding l_cores_from
  l_cores_from-Keeps zero i text = returns-Keeps text
  l_cores_from-Keeps (suc left) i text =
      Keeps->>= (stream_at floats rings i) _ (stream_at-Keeps i)
        (λ s. l_cores_from-Keeps left (i + 1) _)

  module _ (dpdk : DpdkOps rings) where
    allocate_pool-Keeps : (i : ℕ) → Keeps (allocate_pool floats rings dpdk i)
    unfolding allocate_pool
    allocate_pool-Keeps i = search keeping

    setup_dpdk-Keeps : (n : ℕ) → Keeps (setup_dpdk floats rings dpdk n)
    unfolding setup_dpdk setup_eal check_available_ports allocate_mem_pool
    setup_dpdk-Keeps n = search (keeping, l_cores_from-Keeps, allocate_pool-Keeps)

    get_dev_info-Keeps : (i : ℕ) → Keeps (get_dev_info floats rings dpdk i)
    unfolding get_dev_info
    get_dev_info-Keeps i = search keeping

    get_port_conf-Keeps : (i : ℕ) (info : DevInfo) → Keeps (get_port_conf floats rings dpdk i info)
    unfolding get_port_conf configure_port
    get_port_conf-Keeps i info = search keeping

    configure_rx_conf-Keeps : (i : ℕ) → Keeps (configure_rx_conf floats rings dpdk i)
    unfolding configure_rx_conf
    configure_rx_conf-Keeps i = search (keeping, get_dev_info-Keeps, get_port_conf-Keeps)

    setup_rx_queues-Keeps :
        (i : ℕ) (conf : RxConf) → Keeps (setup_rx_queues floats rings dpdk i conf)
    unfolding setup_rx_queues setup_rx_queue
    setup_rx_queues-Keeps i conf = search keeping

    enable_promiscuous_mode-Keeps : (i : ℕ) → Keeps (enable_promiscuous_mode floats rings dpdk i)
    unfolding enable_promiscuous_mode
    enable_promiscuous_mode-Keeps i = search keeping

    start_port-Keeps : (i : ℕ) → Keeps (start_port floats rings dpdk i)
    unfolding start_port
    start_port-Keeps i = search keeping

    assert_link_status-Keeps : (i : ℕ) → Keeps (assert_link_status floats rings dpdk i)
    unfolding assert_link_status
    assert_link_status-Keeps i = search keeping

    setup_port-Keeps : (i : ℕ) → Keeps (setup_port floats rings dpdk i)
    unfolding setup_port
    setup_port-Keeps i = search (
      keeping, configure_rx_conf-Keeps, setup_rx_queues-Keeps, enable_promiscuous_mode-Keeps,
      start_port-Keeps, assert_link_status-Keeps,
    )

    setup_stream-Keeps : (i : ℕ) → Keeps (setup_stream floats rings dpdk i)
    unfolding setup_stream
    setup_stream-Keeps i = search (keeping, setup_port-Keeps)

    -- The launches fail for no stream that is there.
    launches-return :
        (dump_mode : Bool) (left i : ℕ) (st : State)
        → ((j : ℕ)
            → i ≤ j
            → j < i + left
            → (s : StreamAttr floats rings) × (get_elem? st.source.streams j ≡ some s))
        → (for_streams floats rings left i (launch floats rings dpdk dump_mode) st).0 ≡ ok tt
    unfolding for_streams launch
    launches-return dump_mode zero i st there = refl
    launches-return dump_mode (suc left) i st there =
        let (s, found) = there i (omega arith) (omega arith) in
        rw found (
          launches-return dump_mode left (i + 1)
            (record st { log = launch_calls floats rings dpdk dump_mode i s ++ st.log })
            (λ j ge lt. there j (omega arith) (omega arith)))

    -- The loops of the constructor.
    abbrev after_setup : ℕ → Bool → Run State (Unit {0})
    after_setup n dump_mode =
        for_streams floats rings n 0 (setup_stream floats rings dpdk)
        >> for_streams floats rings n 0 (launch floats rings dpdk dump_mode)

    construct-failed :
        (n : ℕ) (dump_mode : Bool) (st : State)
        → IsQuiet st.log
        → (e : Error) → (construct floats rings dpdk n dump_mode st).0 ≡ err e
        → IsQuiet (construct floats rings dpdk n dump_mode st).1.log
    unfolding construct
    construct-failed n dump_mode st q e failed =
        first (setup_dpdk floats rings dpdk n st) ((setup_dpdk-Keeps n).quiet st q) failed
      where
        second :
            (st1 : State) (r : Result (Unit {0}) × State)
            → for_streams floats rings n 0 (setup_stream floats rings dpdk) st1 ≡ r
            → IsQuiet r.1.log
            → (continue r
                (λ u. for_streams floats rings n 0 (launch floats rings dpdk dump_mode))).0
              ≡ err e
            → IsQuiet
                (continue r
                  (λ u. for_streams floats rings n 0 (launch floats rings dpdk dump_mode))).1.log
        second st1 (ok u, st2) run h f =
            let t =
              for_streams-Touched floats rings (with_ring floats rings dpdk)
                (stream_calls floats rings dpdk) (setup_stream floats rings dpdk)
                (setup_stream-Changed floats rings dpdk) n 0 st1 st2 run in
            let returned = launches-return dump_mode n 0 st2 (λ j ge lt.
              let (s, found, now) =
                Touched-inside floats rings (with_ring floats rings dpdk)
                  (stream_calls floats rings dpdk) n 0 st1 st2 t j ge lt in
              (with_ring floats rings dpdk j s, now)) in
            absurd (cc)
        second st1 (err x, st2) run h f = h

        first :
            (r : Result (Unit {0}) × State)
            → IsQuiet r.1.log
            → (continue r (λ u. after_setup n dump_mode)).0 ≡ err e
            → IsQuiet (continue r (λ u. after_setup n dump_mode)).1.log
        first (ok u, st1) h f =
            second st1 (for_streams floats rings n 0 (setup_stream floats rings dpdk) st1) refl
              ((for_streams-Keeps (setup_stream floats rings dpdk) setup_stream-Keeps n 0).quiet st1
                h)
              f
        first (err x, st1) h f = h

    -- A constructor that throws or exits, at whatever call and whatever is wrong, has not started
    -- any thread.
    pub new_dpdk_source-IsQuiet :
        (streams : List (StreamAttr floats rings)) (n : ℕ) (norm : floats.Float) (dump_mode : Bool)
        (e : Error)
        → (new_dpdk_source floats rings dpdk streams n norm dump_mode).0 ≡ err e
        → IsQuiet (new_dpdk_source floats rings dpdk streams n norm dump_mode).1
    unfolding new_dpdk_source
    new_dpdk_source-IsQuiet streams n norm dump_mode e failed =
        go (new_hrzr_parser floats norm) failed
      where
        body :
            (r : Result (Unit {0}) × State)
            → ((x : Error) → r.0 ≡ err x → IsQuiet r.1.log)
            → (constructed floats rings dpdk r).0 ≡ err e
            → IsQuiet (constructed floats rings dpdk r).1
        body (ok u, st) h f = absurd (cc)
        body (err x, st) h f = h x refl

        go :
            (p : Result (HrzrParser floats))
            → (after_parser floats rings dpdk streams n dump_mode p).0 ≡ err e
            → IsQuiet (after_parser floats rings dpdk streams n dump_mode p).1
        go (err x) f = tt
        go (ok parser) f =
            let st : State = record {
              source = initial floats rings dpdk streams n parser;
              log = [];
            } in
            body (construct floats rings dpdk n dump_mode st) (construct-failed n dump_mode st tt) f
