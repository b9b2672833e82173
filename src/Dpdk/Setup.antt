-- ===== src/Dpdk/Setup.antt =====
-- The constructor and the destructor of DpdkSource. DPDK is a parameter: what each call answers,
-- from its arguments. Every call is kept in a log, the newest first.
pub mod Loops
pub mod Rounds
pub mod Port
pub mod Order
pub mod Failure
pub mod Success
mod Examples
use Prim.Native.String.{String}
use rs_jerry_driver.Common.Text.{to_string, join}
use rs_jerry_driver.Common.{
  ℕ, zero, suc, ◌+◌, ℤ, pos, negsuc, Bool, true, false, not, ◌||◌, List, [], ◌∷◌, Option, none,
  some, Result, ok, err, defined, exit_process, undefined, get_elem?, set, ltb, ◌==◌, if◌then◌else◌,
  bit_and,
}
use rs_jerry_driver.Common.Run.{Run, ◌>>=◌, ◌>>◌, continue, returns, throws, lift}
use rs_jerry_driver.Definitions.{ring_size, nr_queues}
use rs_jerry_driver.Floats.{FloatOps}
use rs_jerry_driver.Parser.{HrzrParser, new_hrzr_parser}
use rs_jerry_driver.Dpdk.{RingOps, StreamAttr, DpdkSource}
use rs_jerry_driver.Dpdk.Rx.{stop_rx_thread}

-- The offloads of a `rte_eth_rxconf` and its other members.
pub record RxConf : Type 0 where
  pub offloads : ℕ
  pub others : ℕ

-- What `rte_eth_dev_info_get` writes.
pub record DevInfo : Type 0 where
  pub default_rxconf : RxConf
  pub tx_offload_capa : ℕ

-- The offloads of a `rte_eth_conf`; its other members are 0.
pub record EthConf : Type 0 where
  pub rxmode_offloads : ℕ
  pub txmode_offloads : ℕ

-- The function that a core is given.
pub data LcoreFunction : Type 0 where
  run_rx_thread run_dump_thread : LcoreFunction

-- The flags of a ring: one producer, one consumer.
pub data RingFlag : Type 0 where
  sp_enq sc_deq : RingFlag

pub data DpdkCall : Type 0 where
  eal_init : List String → DpdkCall
  dev_count_avail : DpdkCall
  -- The name, the number of elements, the size of the cache and the private size; the size of the
  -- buffers and the socket are DPDK's default and the caller's.
  pool_create : String → ℕ → ℕ → ℕ → DpdkCall
  ring_create : String → ℕ → List RingFlag → DpdkCall
  dev_info_get promiscuous_enable dev_start link_get : ℤ → DpdkCall
  dev_configure : ℤ → EthConf → DpdkCall
  rx_queue_setup : ℤ → ℕ → RxConf → Option ℕ → DpdkCall
  remote_launch : LcoreFunction → ℕ → ℤ → DpdkCall
  wait_lcore : ℕ → DpdkCall
  eal_cleanup : DpdkCall

abbrev pub is_negative : ℤ → Bool
is_negative (pos n) = false
is_negative (negsuc n) = true

abbrev pub is_nonzero : ℤ → Bool
is_nonzero (pos zero) = false
is_nonzero _ = true

abbrev pub is_null {ℓ} : {A : Type ℓ} → Option A → Bool
is_null none = true
is_null (some a) = false

-- `NULL` and failures are `none`; the codes are those that the calls return.
pub record DpdkOps (rings : RingOps) : Type 1 where
  pub eal_result : List String → ℤ
  pub dev_count : ℕ
  pub pool : String → Option ℕ
  pub ring : String → Option rings.Ring
  pub dev_info : ℤ → ℤ × DevInfo
  pub configured : ℤ → EthConf → ℤ
  pub queue_set_up : ℤ → ℕ → ℤ
  pub promiscuous : ℤ → ℤ
  pub started : ℤ → ℤ
  pub link : ℤ → ℤ × Bool

module _ (floats : FloatOps) (rings : RingOps) where
  pub record SetupState : Type 0 where
    pub source : DpdkSource floats rings
    pub log : List DpdkCall

  abbrev pub call : DpdkCall → Run SetupState (Unit {0})
  call c st = (ok tt, record st { log = c ∷ st.log })

  -- `rte_exit` under a condition.
  abbrev pub exit_if : Bool → Run SetupState (Unit {0})
  exit_if true = throws exit_process
  exit_if false = returns tt

  -- `streams[i]`
  abbrev pub stream_at : ℕ → Run SetupState (StreamAttr floats rings)
  stream_at i st = (defined (get_elem? st.source.streams i), st)

  abbrev pub set_stream : ℕ → StreamAttr floats rings → Run SetupState (Unit {0})
  set_stream i s st =
      (ok tt, record st { source = record st.source { streams = set st.source.streams i s } })

  -- `for (int i = ...; i < num_streams; i++)`, with the rounds that are left.
  unfoldable pub for_streams : ℕ → ℕ → (ℕ → Run SetupState (Unit {0})) → Run SetupState (Unit {0})
  for_streams zero i body = returns tt
  for_streams (suc left) i body = body i >> for_streams left (i + 1) body

  -- The list of the cores, `a,b,c,d`.
  unfoldable pub l_cores_from : ℕ → ℕ → String → Run SetupState String
  l_cores_from zero i text = returns text
  l_cores_from (suc left) i text = do
    s ← stream_at i
    let pair = join (to_string s.l_cores.0) (join "," (to_string s.l_cores.1))
    l_cores_from left (i + 1) (join text (if left == 0 then pair else join pair ","))

  module _ (dpdk : DpdkOps rings) where
    unfoldable pub setup_eal : List String → Run SetupState (Unit {0})
    setup_eal argv = do call (eal_init argv); exit_if (is_negative (dpdk.eal_result argv))

    -- The warning for another number of ports is only printed.
    unfoldable pub check_available_ports : Run SetupState (Unit {0})
    check_available_ports = do call dev_count_avail; exit_if (dpdk.dev_count == 0)

    -- A round of `allocateMemPool`.
    unfoldable pub allocate_pool : ℕ → Run SetupState (Unit {0})
    allocate_pool i = do
      let name = join "mbuf_pool_" (to_string (pos i))
      call (pool_create name 4096 0 0)
      s ← stream_at i
      set_stream i (record s { mbuf_pool = dpdk.pool name })
      exit_if (is_null (dpdk.pool name))

    unfoldable pub allocate_mem_pool : ℕ → Run SetupState (Unit {0})
    allocate_mem_pool num_streams = for_streams num_streams 0 allocate_pool

    unfoldable pub setup_dpdk : ℕ → Run SetupState (Unit {0})
    unfolding setup_eal check_available_ports allocate_mem_pool
    setup_dpdk num_streams = do
      l_cores ← l_cores_from num_streams 0 ""
      setup_eal ("dpdk" ∷ "-l" ∷ l_cores ∷ "--log-level" ∷ "lib.eal:error" ∷ [])
      check_available_ports
      allocate_mem_pool num_streams

    unfoldable pub get_dev_info : ℕ → Run SetupState DevInfo
    get_dev_info num_stream = do
      s ← stream_at num_stream
      call (dev_info_get s.dpdk_port_id)
      exit_if (is_nonzero (dpdk.dev_info s.dpdk_port_id).0)
      returns (dpdk.dev_info s.dpdk_port_id).1

    unfoldable pub configure_port : ℕ → EthConf → Run SetupState (Unit {0})
    configure_port num_stream conf = do
      s ← stream_at num_stream
      call (dev_configure s.dpdk_port_id conf)
      exit_if (is_negative (dpdk.configured s.dpdk_port_id conf))

    -- `port_conf` starts with zeros.
    unfoldable pub get_port_conf : ℕ → DevInfo → Run SetupState EthConf
    unfolding configure_port
    get_port_conf num_stream info = do
      let conf : EthConf = record {
        rxmode_offloads = 0;
        txmode_offloads = bit_and 0 info.tx_offload_capa;
      }
      configure_port num_stream conf
      returns conf

    unfoldable pub configure_rx_conf : ℕ → Run SetupState RxConf
    unfolding get_dev_info get_port_conf
    configure_rx_conf num_stream = do
      info ← get_dev_info num_stream
      conf ← get_port_conf num_stream info
      returns (record info.default_rxconf { offloads = conf.rxmode_offloads })

    -- A round of `setupRxQueues`.
    unfoldable pub setup_rx_queue : ℕ → RxConf → ℕ → Run SetupState (Unit {0})
    setup_rx_queue num_stream conf queue = do
      s ← stream_at num_stream
      call (rx_queue_setup s.dpdk_port_id queue conf s.mbuf_pool)
      exit_if (is_negative (dpdk.queue_set_up s.dpdk_port_id queue))

    unfoldable pub setup_rx_queues : ℕ → RxConf → Run SetupState (Unit {0})
    unfolding setup_rx_queue for_streams
    setup_rx_queues num_stream conf = for_streams nr_queues 0 (setup_rx_queue num_stream conf)

    unfoldable pub enable_promiscuous_mode : ℕ → Run SetupState (Unit {0})
    enable_promiscuous_mode num_stream = do
      s ← stream_at num_stream
      call (promiscuous_enable s.dpdk_port_id)
      exit_if (is_nonzero (dpdk.promiscuous s.dpdk_port_id))

    unfoldable pub start_port : ℕ → Run SetupState (Unit {0})
    start_port num_stream = do
      s ← stream_at num_stream
      call (dev_start s.dpdk_port_id)
      exit_if (is_negative (dpdk.started s.dpdk_port_id))

    unfoldable pub assert_link_status : ℕ → Run SetupState (Unit {0})
    assert_link_status num_stream = do
      s ← stream_at num_stream
      call (link_get s.dpdk_port_id)
      exit_if (is_nonzero (dpdk.link s.dpdk_port_id).0 || not (dpdk.link s.dpdk_port_id).1)

    unfoldable pub setup_port : ℕ → Run SetupState (Unit {0})
    unfolding configure_rx_conf setup_rx_queues enable_promiscuous_mode start_port
        assert_link_status
    setup_port num_stream = do
      conf ← configure_rx_conf num_stream
      setup_rx_queues num_stream conf
      enable_promiscuous_mode num_stream
      start_port num_stream
      assert_link_status num_stream

    -- A round of the first loop of the constructor; the ring is not tested.
    unfoldable pub setup_stream : ℕ → Run SetupState (Unit {0})
    unfolding setup_port
    setup_stream i = do
      setup_port i
      let name = join "rx_ring_" (to_string (pos i))
      call (ring_create name ring_size (sp_enq ∷ sc_deq ∷ []))
      s ← stream_at i
      set_stream i (record s { ring = dpdk.ring name })

    -- A round of the second loop, whose result is not tested.
    unfoldable pub launch : Bool → ℕ → Run SetupState (Unit {0})
    launch dump_mode i = do
      s ← stream_at i
      call (remote_launch (if dump_mode then run_dump_thread else run_rx_thread) i s.l_cores.1)

    -- The body of the constructor.
    unfoldable pub construct : ℕ → Bool → Run SetupState (Unit {0})
    construct num_streams dump_mode = do
      setup_dpdk num_streams
      for_streams num_streams 0 setup_stream
      for_streams num_streams 0 (launch dump_mode)

    -- What is left of a run: the object, and the calls.
    abbrev pub constructed :
        Result (Unit {0}) × SetupState → Result (DpdkSource floats rings) × List DpdkCall
    constructed (ok u, st) = (ok st.source, st.log)
    constructed (err e, st) = (err e, st.log)

    -- The members before the body runs.
    abbrev pub initial :
        List (StreamAttr floats rings) → ℕ → HrzrParser floats → DpdkSource floats rings
    initial streams num_streams parser = record {
      hrzr_parser = parser;
      streams = streams;
      num_streams = num_streams;
      quit = false;
      total_packets = 0;
      total_packets_lost = 0;
    }

    abbrev pub after_parser :
        List (StreamAttr floats rings)
        → ℕ
        → Bool
        → Result (HrzrParser floats)
        → Result (DpdkSource floats rings) × List DpdkCall
    after_parser streams num_streams dump_mode (err e) = (err e, [])
    after_parser streams num_streams dump_mode (ok parser) = constructed (
        construct num_streams dump_mode
          (record { source = initial streams num_streams parser; log = [] }))

    unfoldable pub new_dpdk_source :
        List (StreamAttr floats rings)
        → ℕ
        → floats.Float
        → Bool
        → Result (DpdkSource floats rings) × List DpdkCall
    new_dpdk_source streams num_streams norm dump_mode =
        after_parser streams num_streams dump_mode (new_hrzr_parser floats norm)

    -- The destructor sets the flag, waits for the core 1 and cleans up.
    unfoldable pub delete_dpdk_source :
        DpdkSource floats rings → DpdkSource floats rings × List DpdkCall
    delete_dpdk_source source =
        let (source', core) = stop_rx_thread floats rings source in
        (source', eal_cleanup ∷ wait_lcore core ∷ [])
