-- ===== src/Iq/Sources/Examples.antt =====
-- A client that sets up sources, over a network with one address.
use rs_jerry_driver.Common.{
  ◌≡◌, ◌≢◌, refl, pos, negsuc, Bool, true, false, List, [], ◌∷◌, none, some, ok, err, undefined,
  exit_process,
}
use mathlib.Core.List.{Mem, not-mem-nil}
use rs_jerry_driver.Testing.{dpdk, fractions, list_rings, unit}
use rs_jerry_driver.Net.{SockAddr, af_inet}
use rs_jerry_driver.Grpc.{rx1, new_grpc_client}
use rs_jerry_driver.Parser.{new_hrzr_parser}
use rs_jerry_driver.Udp.{UdpSource, new_udp_source, connect, exit_unless}
use rs_jerry_driver.Dpdk.Rx.{stop_rx_thread}
use rs_jerry_driver.Dpdk.Setup.{
  eal_cleanup, wait_lcore, dev_count_avail, eal_init, new_dpdk_source, construct, setup_dpdk,
  l_cores_from, setup_eal, check_available_ports, allocate_mem_pool, for_streams,
  delete_dpdk_source,
}
use rs_jerry_driver.Iq.{IqClient}
use rs_jerry_driver.Iq.Sources.{
  Network, Sources, udp, new_iq_client, get_version, get_rx_channel, set_dump_mode, get_dump_mode,
  set_port_id, get_port_id, set_norm, get_norm, get_source, disconnect, delete_udp_source,
  setup_udp_source, setup_dpdk_source, teardown_udp_source, teardown_dpdk_source, get_samples,
}
use rs_jerry_driver.Iq.Sources.Calls.{
  SourceCall, begin_udp, begin_dpdk, teardown_udp, teardown_dpdk, choose_norm, choose_dump_mode,
  perform_all,
}
use rs_jerry_driver.Iq.Sources.Lifetime.{Follows, IsLost, perform_all-Follows, perform_all_loses}
use rs_jerry_driver.Iq.Sources.Exclusive.{IsExclusive, perform_all_exclusive}

-- `bind` serves one socket.
abbrev is_free : List SockAddr → Bool
is_free [] = true
is_free (a ∷ in_use) = false

abbrev network : Network
network = record {
  socket = some 3;
  inet_pton = λ text. some 1234;
  bind = λ in_use s a. is_free in_use;
}

network-IsExclusive : IsExclusive network
network-IsExclusive = record { refuses = λ in_use s a m. used in_use a m }
  where
    used : (in_use : List SockAddr) (a : SockAddr) → Mem a in_use → is_free in_use ≡ false
    used [] a m = absurd (not-mem-nil m)
    used (b ∷ in_use) a m = refl

abbrev client : IqClient fractions
client = record {
  msr4_channel = rx1;
  port_id = negsuc 0;
  dump_mode = false;
  norm = unit;
  grpc_client = record { creds = record { name = ""; password = "" }; ip = ""; token = "" };
}

abbrev memory : UdpSource fractions
memory = record {
  ip = "";
  port = pos 0;
  buf = [];
  si_other = record { family = 0; port = 0; addr = 0 };
  s = 0;
  hrzr_parser = record { norm = unit };
}

abbrev start : Sources fractions list_rings
start = record {
  client = client;
  sample_source = none;
  heap = [];
  in_use = [];
  queue = [];
  freed = [];
  calls = [];
}

abbrev made : UdpSource fractions
made = record memory { s = 3; si_other = record { family = af_inet; port = 3072; addr = 1234 } }

abbrev running : Sources fractions list_rings
running = record start {
  sample_source = some 0;
  heap = some (udp made) ∷ [];
  in_use = made.si_other ∷ [];
}

first_source : setup_udp_source fractions list_rings network memory start ≡ (ok tt, running)
unfolding setup_udp_source new_udp_source new_hrzr_parser connect exit_unless
first_source = refl

abbrev session : List (SourceCall fractions list_rings)
session = choose_norm (pos 2, pos 1) ∷ choose_dump_mode true ∷ begin_udp memory ∷ teardown_udp ∷ []

abbrev after_session : Sources fractions list_rings
after_session = record start {
  client = record client { norm = (pos 2, pos 1); dump_mode = true };
  sample_source = some 0;
  heap = none ∷ [];
  in_use = made.si_other ∷ [];
}

session_run :
    perform_all fractions list_rings network (dpdk true) session start ≡ (ok tt, after_session)
unfolding set_norm set_dump_mode setup_udp_source new_udp_source new_hrzr_parser connect exit_unless
    teardown_udp_source delete_udp_source disconnect
session_run = refl

perform_all-Follows_example : Follows fractions list_rings false session
perform_all-Follows_example =
    perform_all-Follows fractions list_rings network (dpdk true) session start after_session
      session_run

-- DPDK after the kernel's socket, without a tear-down of the first source.
abbrev replaced : List (SourceCall fractions list_rings)
replaced = begin_dpdk [] 0 ∷ teardown_dpdk ∷ []

abbrev after_replaced : Sources fractions list_rings
after_replaced = record running {
  sample_source = some 1;
  heap = some (udp made) ∷ none ∷ [];
  calls =
      eal_cleanup
      ∷ wait_lcore 1
      ∷ dev_count_avail
      ∷ eal_init ("dpdk" ∷ "-l" ∷ "" ∷ "--log-level" ∷ "lib.eal:error" ∷ [])
      ∷ [];
}

replaced_run :
    perform_all fractions list_rings network (dpdk true) replaced running ≡ (ok tt, after_replaced)
unfolding setup_dpdk_source new_dpdk_source new_hrzr_parser construct setup_dpdk l_cores_from
    setup_eal check_available_ports allocate_mem_pool for_streams teardown_dpdk_source
    delete_dpdk_source stop_rx_thread
replaced_run = refl

perform_all_loses_example : IsLost fractions list_rings 0 (udp made) after_replaced
perform_all_loses_example =
    perform_all_loses fractions list_rings network (dpdk true) (begin_dpdk [] 0)
      (teardown_dpdk ∷ []) 0 (udp made) running after_replaced tt refl refl replaced_run

perform_all_exclusive_example :
    perform_all fractions list_rings network
      (dpdk true)
      (begin_udp memory ∷ teardown_udp ∷ begin_udp memory ∷ [])
      start
    ≢ (ok tt, after_session)
perform_all_exclusive_example =
    perform_all_exclusive fractions list_rings network (dpdk true) network-IsExclusive memory memory
      (teardown_udp ∷ []) [] start after_session

-- The second source ends the process.
second_source :
    setup_udp_source fractions list_rings network memory running ≡ (err exit_process, running)
unfolding setup_udp_source new_udp_source new_hrzr_parser connect exit_unless
second_source = refl

-- Samples before any set-up, and after a tear-down.
no_source :
    (get_samples fractions list_rings 0 (pos 366) (λ port n. []) [] start ≡ (err undefined, start))
    × (get_samples fractions list_rings 0 (pos 366) (λ port n. []) [] after_session
        ≡ (err undefined, after_session))
unfolding get_samples
no_source = (refl, refl)

members :
    (new_iq_client fractions ≡ client)
    × (get_version fractions client ≡ "1.0")
    × (get_rx_channel fractions client ≡ rx1)
    × (get_dump_mode fractions (set_dump_mode fractions true client) ≡ true)
    × (get_port_id fractions (set_port_id fractions (pos 4) client) ≡ pos 4)
    × (get_norm fractions (set_norm fractions (pos 9, pos 2) client) ≡ (pos 9, pos 2))
    × (get_source fractions list_rings after_replaced ≡ some 1)
unfolding new_iq_client new_grpc_client get_version get_rx_channel get_dump_mode set_dump_mode
    get_port_id set_port_id get_norm set_norm get_source
members = (refl, refl, refl, refl, refl, refl, refl)
