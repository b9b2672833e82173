-- ===== src/Dpdk/Setup/Port.antt =====
-- The set-up of a port: the functions that the constructor calls for it, where they return.
use rs_jerry_driver.Common.{
  ℕ, ◌≡◌, refl, ap, ap₂, sym, ◌∙◌, subst, ℤ, Bool, true, false, not, ◌||◌, List, [], ◌∷◌, ◌++◌,
  Option, some, ok, defined, get_elem?, set, bit_and,
}
use mathlib.Core.List.{append_assoc}
use rs_jerry_driver.Common.Run.{Run, ◌>>=◌, ◌>>◌, continue, continue-eq-ok, returns}
use rs_jerry_driver.Common.Results.{defined-eq-ok}
use rs_jerry_driver.Floats.{FloatOps}
use rs_jerry_driver.Definitions.{ring_size}
use rs_jerry_driver.Dpdk.{RingOps, StreamAttr}
use rs_jerry_driver.Dpdk.Setup.{
  DpdkCall, DpdkOps, DevInfo, EthConf, RxConf, SetupState, call, exit_if, stream_at, set_stream,
  dev_info_get, dev_configure, rx_queue_setup, promiscuous_enable, dev_start, link_get, ring_create,
  sp_enq, sc_deq, is_negative, is_nonzero, setup_port, setup_stream, configure_rx_conf,
  get_dev_info, get_port_conf, configure_port, setup_rx_queues, setup_rx_queue, for_streams,
  enable_promiscuous_mode, start_port, assert_link_status,
}
use rs_jerry_driver.Dpdk.Setup.Loops.{Changed}
use rs_jerry_driver.Dpdk.Setup.Rounds.{ring_name, port_conf, with_ring, stream_calls, set-Changed}

module _ (floats : FloatOps) (rings : RingOps) where
  abbrev State : Type 0
  State = SetupState floats rings

  abbrev Stream : Type 0
  Stream = StreamAttr floats rings

  -- A call and a test that did not exit.
  pub tested :
      (c : DpdkCall) (test : Bool) (st st' : State)
      → (call floats rings c >> exit_if floats rings test) st ≡ (ok tt, st')
      → (record st { log = c ∷ st.log } ≡ st') × (test ≡ false)
  tested c true st st' run = absurd (cc)
  tested c false st st' run = (ap (λ r. r.1) run, refl)

  -- A run called these, the newest first, and did nothing else.
  record Logged (calls : List DpdkCall) (st st' : State) : Type 0 where
    same : record st { log = calls ++ st.log } ≡ st'

  -- Two runs, one after the other; the second was seen from the state after the first.
  Logged-then :
      (first later : List DpdkCall) (st mid st' : State)
      → Logged first st mid
      → Logged later mid st'
      → Logged (later ++ first) st st'
  Logged-then first later st mid st' a b = record {
    same =
        ap (λ (log : List DpdkCall). record st { log = log }) (append_assoc later first st.log)
        ∙ (ap (λ (x : State). record x { log = later ++ x.log }) a.same ∙ b.same);
  }

  Logged-found :
      (calls : List DpdkCall) (i : ℕ) (s : Stream) (st st' : State)
      → Logged calls st st'
      → get_elem? st.source.streams i ≡ some s
      → get_elem? st'.source.streams i ≡ some s
  Logged-found calls i s st st' a found =
      ap (λ (x : State). get_elem? x.source.streams i) (sym a.same) ∙ found

  -- A function that reads its stream goes on with it.
  with_stream :
      {A : Type 0} (i : ℕ) (s : Stream) (next : Stream → Run State A) (st : State)
      → get_elem? st.source.streams i ≡ some s
      → (stream_at floats rings i >>= next) st ≡ next s st
  with_stream i s next st found = ap (λ (o : Option Stream). continue (defined o, st) next) found

  -- The common shape: a call for the stream, and a test of its answer.
  checked :
      (i : ℕ) (c : Stream → DpdkCall) (test : Stream → Bool) (s : Stream) (st st' : State)
      → get_elem? st.source.streams i ≡ some s
      → (stream_at floats rings i >>= λ t. call floats rings (c t) >> exit_if floats rings (test t))
          st
        ≡ (ok tt, st')
      → Logged (c s ∷ []) st st'
  checked i c test s st st' found run = record {
    same =
        (tested (c s) (test s) st st' (
          sym (
            with_stream i s (λ t. call floats rings (c t) >> exit_if floats rings (test t)) st
              found)
          ∙ run)).0;
  }

  -- The same, where the function returns something.
  checked_returning :
      {A : Type 0} (i : ℕ) (c : Stream → DpdkCall) (test : Stream → Bool) (x : Stream → A)
      (s : Stream) (st st' : State) (a : A)
      → get_elem? st.source.streams i ≡ some s
      → (stream_at floats rings i >>= λ t.
            call floats rings (c t) >> (exit_if floats rings (test t) >> returns (x t)))
          st
        ≡ (ok a, st')
      → Logged (c s ∷ []) st st' × (x s ≡ a)
  checked_returning i c test x s st st' a found run =
      let seen =
        sym (
          with_stream i s
            (λ t. call floats rings (c t) >> (exit_if floats rings (test t) >> returns (x t))) st
            found)
        ∙ run in
      let (u, mid, first, rest) =
        continue-eq-ok (exit_if floats rings (test s) (record st { log = c s ∷ st.log })) _ seen in
      (
        record { same = (tested (c s) (test s) st mid first).0 ∙ ap (λ r. r.1) rest },
        (let returned = ap (λ r. r.0) rest in cc),
      )

  module _ (dpdk : DpdkOps rings) (i : ℕ) (s : Stream) where
    get_dev_info-Logged :
        (st st' : State) (info : DevInfo)
        → get_elem? st.source.streams i ≡ some s
        → get_dev_info floats rings dpdk i st ≡ (ok info, st')
        → Logged (dev_info_get s.dpdk_port_id ∷ []) st st'
          × ((dpdk.dev_info s.dpdk_port_id).1 ≡ info)
    unfolding get_dev_info
    get_dev_info-Logged st st' info found run =
        checked_returning i (λ t. dev_info_get t.dpdk_port_id)
          (λ t. is_nonzero (dpdk.dev_info t.dpdk_port_id).0) (λ t. (dpdk.dev_info t.dpdk_port_id).1)
          s st st' info found run

    abbrev port : ℤ
    port = s.dpdk_port_id

    get_port_conf-Logged :
        (info : DevInfo) (st st' : State) (conf : EthConf)
        → get_elem? st.source.streams i ≡ some s
        → get_port_conf floats rings dpdk i info st ≡ (ok conf, st')
        → Logged (dev_configure port conf ∷ []) st st'
          × (record { rxmode_offloads = 0; txmode_offloads = bit_and 0 info.tx_offload_capa }
              ≡ conf)
    unfolding get_port_conf configure_port
    get_port_conf-Logged info st st' conf found run =
        let c : EthConf = record {
          rxmode_offloads = 0;
          txmode_offloads = bit_and 0 info.tx_offload_capa;
        } in
        let (u, mid, first, rest) =
          continue-eq-ok (configure_port floats rings dpdk i c st) _ run in
        let returned : c ≡ conf = (let e = ap (λ r. r.0) rest in cc) in
        let l =
          checked i (λ t. dev_configure t.dpdk_port_id c)
            (λ t. is_negative (dpdk.configured t.dpdk_port_id c)) s st mid found first in
        (
          record {
            same =
                ap (λ (x : EthConf). record st { log = dev_configure port x ∷ st.log })
                  (sym returned)
                ∙ (l.same ∙ ap (λ r. r.1) rest);
          },
          returned,
        )

    abbrev rx_conf : RxConf
    rx_conf = record (dpdk.dev_info port).1.default_rxconf { offloads = 0 }

    abbrev conf_calls : List DpdkCall
    conf_calls = dev_configure port (port_conf floats rings dpdk port) ∷ dev_info_get port ∷ []

    configure_rx_conf-Logged :
        (st st' : State) (conf : RxConf)
        → get_elem? st.source.streams i ≡ some s
        → configure_rx_conf floats rings dpdk i st ≡ (ok conf, st')
        → Logged conf_calls st st' × (rx_conf ≡ conf)
    unfolding configure_rx_conf
    configure_rx_conf-Logged st st' conf found run =
        let (info, mid, first, run1) = continue-eq-ok (get_dev_info floats rings dpdk i st) _ run in
        let (l1, info_is) = get_dev_info-Logged st mid info found first in
        let (pc, mid', second, run2) =
          continue-eq-ok (get_port_conf floats rings dpdk i info mid) _ run1 in
        let (l2, conf_is) =
          get_port_conf-Logged info mid mid' pc
            (Logged-found (dev_info_get port ∷ []) i s st mid l1 found) second in
        let asked : port_conf floats rings dpdk port ≡ pc =
          ap
            (λ (x : DevInfo). record {
              rxmode_offloads = 0;
              txmode_offloads = bit_and 0 x.tx_offload_capa;
            })
            info_is
          ∙ conf_is in
        let both =
          Logged-then (dev_info_get port ∷ []) (dev_configure port pc ∷ []) st mid mid' l1 l2 in
        (
          record {
            same =
                ap
                  (λ (x : EthConf). record st {
                    log = dev_configure port x ∷ dev_info_get port ∷ st.log;
                  })
                  asked
                ∙ (both.same ∙ ap (λ r. r.1) run2);
          },
          ap₂
                (λ (o : EthConf) (x : DevInfo). record x.default_rxconf {
                  offloads = o.rxmode_offloads;
                })
                conf_is info_is
              ∙ (let e = ap (λ r. r.0) run2 in cc),
        )

    setup_rx_queues-Logged :
        (conf : RxConf) (st st' : State)
        → get_elem? st.source.streams i ≡ some s
        → setup_rx_queues floats rings dpdk i conf st ≡ (ok tt, st')
        → Logged (rx_queue_setup port 0 conf s.mbuf_pool ∷ []) st st'
    unfolding setup_rx_queues setup_rx_queue for_streams
    setup_rx_queues-Logged conf st st' found run =
        let (u, mid, first, rest) =
          continue-eq-ok (setup_rx_queue floats rings dpdk i conf 0 st) _ run in
        let l =
          checked i (λ t. rx_queue_setup t.dpdk_port_id 0 conf t.mbuf_pool)
            (λ t. is_negative (dpdk.queue_set_up t.dpdk_port_id 0)) s st mid found first in
        record { same = l.same ∙ ap (λ r. r.1) rest }

    abbrev port_calls : List DpdkCall
    port_calls =
        link_get port
        ∷ dev_start port
        ∷ promiscuous_enable port
        ∷ rx_queue_setup port 0 rx_conf s.mbuf_pool
        ∷ conf_calls

    setup_port-Logged :
        (st st' : State)
        → get_elem? st.source.streams i ≡ some s
        → setup_port floats rings dpdk i st ≡ (ok tt, st')
        → Logged port_calls st st'
    unfolding setup_port enable_promiscuous_mode start_port assert_link_status
    setup_port-Logged st st' found run =
        let (conf, st1, e1, run1) =
          continue-eq-ok (configure_rx_conf floats rings dpdk i st) _ run in
        let (l1, conf_is) = configure_rx_conf-Logged st st1 conf found e1 in
        let f1 = Logged-found conf_calls i s st st1 l1 found in
        let (u2, st2, e2, run2) =
          continue-eq-ok (setup_rx_queues floats rings dpdk i conf st1) _ run1 in
        let l2 = setup_rx_queues-Logged conf st1 st2 f1 e2 in
        let f2 = Logged-found _ i s st1 st2 l2 f1 in
        let (u3, st3, e3, run3) =
          continue-eq-ok (enable_promiscuous_mode floats rings dpdk i st2) _ run2 in
        let l3 =
          checked i (λ t. promiscuous_enable t.dpdk_port_id)
            (λ t. is_nonzero (dpdk.promiscuous t.dpdk_port_id)) s st2 st3 f2 e3 in
        let f3 = Logged-found _ i s st2 st3 l3 f2 in
        let (u4, st4, e4, run4) = continue-eq-ok (start_port floats rings dpdk i st3) _ run3 in
        let l4 =
          checked i (λ t. dev_start t.dpdk_port_id) (λ t. is_negative (dpdk.started t.dpdk_port_id))
            s st3 st4 f3 e4 in
        let f4 = Logged-found _ i s st3 st4 l4 f3 in
        let l5 =
          checked i (λ t. link_get t.dpdk_port_id)
            (λ t. is_nonzero (dpdk.link t.dpdk_port_id).0 || not (dpdk.link t.dpdk_port_id).1) s st4
            st' f4 run4 in
        let all = Logged-then _ _ st st1 st' l1 (
          Logged-then _ _ st1 st2 st' l2
            (Logged-then _ _ st2 st3 st' l3 (Logged-then _ _ st3 st4 st' l4 l5))) in
        record {
          same =
              ap
                (λ (x : RxConf). record st {
                  log =
                      link_get port
                      ∷ dev_start port
                      ∷ promiscuous_enable port
                      ∷ rx_queue_setup port 0 x s.mbuf_pool
                      ∷ (conf_calls ++ st.log);
                })
                conf_is
              ∙ all.same;
        }

  module _ (dpdk : DpdkOps rings) where
    -- A port that was set up has a stream.
    setup_port_found :
        (i : ℕ) (st st' : State)
        → setup_port floats rings dpdk i st ≡ (ok tt, st')
        → (s : Stream) × (get_elem? st.source.streams i ≡ some s)
    unfolding setup_port configure_rx_conf get_dev_info
    setup_port_found i st st' run =
        let (conf, st1, e1, run1) =
          continue-eq-ok (configure_rx_conf floats rings dpdk i st) _ run in
        let (info, st2, e2, run2) = continue-eq-ok (get_dev_info floats rings dpdk i st) _ e1 in
        let (s, st3, e3, run3) = continue-eq-ok (stream_at floats rings i st) _ e2 in
        (s, defined-eq-ok (get_elem? st.source.streams i) s (ap (λ r. r.0) e3))

    pub setup_stream-Changed :
        (i : ℕ) (st st' : State)
        → setup_stream floats rings dpdk i st ≡ (ok tt, st')
        → Changed floats rings
            (with_ring floats rings dpdk)
            (stream_calls floats rings dpdk)
            i
            st
            st'
    unfolding setup_stream
    setup_stream-Changed i st st' run =
        let (u, mid, ready, rest) = continue-eq-ok (setup_port floats rings dpdk i st) _ run in
        let (s, found) = setup_port_found i st mid ready in
        let l = setup_port-Logged dpdk i s st mid found ready in
        let ring_made : State = record mid {
          log = ring_create (ring_name i) ring_size (sp_enq ∷ sc_deq ∷ []) ∷ mid.log;
        } in
        let kept =
          with_stream i s (λ t. set_stream floats rings i (with_ring floats rings dpdk i t))
            ring_made (Logged-found _ i s st mid l found) in
        subst
          (λ (x : State).
            Changed floats rings (with_ring floats rings dpdk) (stream_calls floats rings dpdk) i st
              x)
          (ap
              (λ (x : State). record x {
                source = record x.source {
                  streams = set x.source.streams i (with_ring floats rings dpdk i s);
                };
                log = ring_create (ring_name i) ring_size (sp_enq ∷ sc_deq ∷ []) ∷ x.log;
              })
              l.same
            ∙ ap (λ r. r.1) (sym kept ∙ rest))
          (set-Changed floats rings dpdk (with_ring floats rings dpdk)
            (stream_calls floats rings dpdk) i s st found)
