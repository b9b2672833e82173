-- ===== src/Dpdk/Setup/Examples.antt =====
-- The constructor over answers of DPDK at one port.
use rs_jerry_driver.Common.{
  ◌≡◌, refl, pos, negsuc, true, false, List, [], ◌∷◌, none, some, ok, err, exit_process,
}
use rs_jerry_driver.Common.Text.{to_string, decimal}
use rs_jerry_driver.Testing.{dpdk, fractions, list_rings, unit}
use rs_jerry_driver.Parser.{new_hrzr_parser}
use rs_jerry_driver.Definitions.{ring_size}
use rs_jerry_driver.Dpdk.{StreamAttr, DpdkSource}
use rs_jerry_driver.Dpdk.Rx.{stop_rx_thread}
use rs_jerry_driver.Dpdk.Setup.{
  DpdkCall, eal_init, dev_count_avail, pool_create, ring_create, sp_enq, sc_deq, dev_info_get,
  promiscuous_enable, dev_start, link_get, dev_configure, rx_queue_setup, remote_launch, wait_lcore,
  eal_cleanup, run_rx_thread, new_dpdk_source, construct, setup_dpdk, l_cores_from, setup_eal,
  check_available_ports, allocate_mem_pool, allocate_pool, for_streams, setup_stream, setup_port,
  configure_rx_conf, get_dev_info, get_port_conf, configure_port, setup_rx_queues, setup_rx_queue,
  enable_promiscuous_mode, start_port, assert_link_status, launch, delete_dpdk_source,
}
use rs_jerry_driver.Dpdk.Setup.Failure.{IsQuiet, new_dpdk_source-IsQuiet}

abbrev stream : StreamAttr fractions list_rings
stream = record {
  l_cores = (pos 0, pos 24);
  dpdk_port_id = pos 7;
  udp_rx_port = 5000;
  mbuf_pool = none;
  ring = none;
}

abbrev made : DpdkSource fractions list_rings
made = record {
  hrzr_parser = record { norm = unit };
  streams = record stream { mbuf_pool = some 9; ring = some [] } ∷ [];
  num_streams = 1;
  quit = false;
  total_packets = 0;
  total_packets_lost = 0;
}

abbrev made_log : List DpdkCall
made_log =
    remote_launch run_rx_thread 0 (pos 24)
    ∷ ring_create "rx_ring_0" ring_size (sp_enq ∷ sc_deq ∷ [])
    ∷ link_get (pos 7)
    ∷ dev_start (pos 7)
    ∷ promiscuous_enable (pos 7)
    ∷ rx_queue_setup (pos 7) 0 (record { offloads = 0; others = 4 }) (some 9)
    ∷ dev_configure (pos 7) (record { rxmode_offloads = 0; txmode_offloads = 0 })
    ∷ dev_info_get (pos 7)
    ∷ pool_create "mbuf_pool_0" 4096 0 0
    ∷ dev_count_avail
    ∷ eal_init ("dpdk" ∷ "-l" ∷ "0,24" ∷ "--log-level" ∷ "lib.eal:error" ∷ [])
    ∷ []

one_stream :
    new_dpdk_source fractions list_rings (dpdk true) (stream ∷ []) 1 unit false
    ≡ (ok made, made_log)
unfolding new_dpdk_source new_hrzr_parser construct setup_dpdk l_cores_from setup_eal
    check_available_ports allocate_mem_pool allocate_pool for_streams setup_stream setup_port
    configure_rx_conf get_dev_info get_port_conf configure_port setup_rx_queues setup_rx_queue
    enable_promiscuous_mode start_port assert_link_status launch to_string decimal
one_stream = refl

-- The link is down.
link_down :
    (new_dpdk_source fractions list_rings (dpdk false) (stream ∷ []) 1 unit false).0
    ≡ err exit_process
unfolding new_dpdk_source new_hrzr_parser construct setup_dpdk l_cores_from setup_eal
    check_available_ports allocate_mem_pool allocate_pool for_streams setup_stream setup_port
    configure_rx_conf get_dev_info get_port_conf configure_port setup_rx_queues setup_rx_queue
    enable_promiscuous_mode start_port assert_link_status
link_down = refl

new_dpdk_source-IsQuiet_example :
    IsQuiet (new_dpdk_source fractions list_rings (dpdk false) (stream ∷ []) 1 unit false).1
new_dpdk_source-IsQuiet_example =
    new_dpdk_source-IsQuiet fractions list_rings (dpdk false) (stream ∷ []) 1 unit false
      exit_process link_down

deleted :
    delete_dpdk_source fractions list_rings (dpdk true) made
    ≡ (record made { quit = true }, eal_cleanup ∷ wait_lcore 1 ∷ [])
unfolding delete_dpdk_source stop_rx_thread
deleted = refl

texts : (to_string (pos 4095) ≡ "4095") × (to_string (negsuc 11) ≡ "-12")
unfolding to_string decimal
texts = (refl, refl)
