-- ===== src/Iq/Sources.antt =====
-- The plain members of IqClient and its sample source (include/iqClient/iqClient.h and
-- src/iqClient/iqClient.cc), with the destructor of UdpSource. The sources live on a heap that `new`
-- and `delete` change; the operating system knows the addresses that open sockets are bound to.
-- What the threads of a DPDK source change in it in the meantime is not followed.
pub mod Calls
pub mod Lifetime
pub mod Exclusive
mod Examples
use Prim.Native.String.{String}
use rs_jerry_driver.Common.{
  ℕ, ℤ, pos, negsuc, Bool, true, false, List, [], ◌∷◌, ◌++◌, Option, none, some, Result, ok, err,
  undefined, get_elem?, set, length,
}
use rs_jerry_driver.Common.Run.{Run, ◌>>=◌, ◌>>◌, continue, returns, throws}
use rs_jerry_driver.Floats.{FloatOps, Complex}
use rs_jerry_driver.Net.{SockAddr}
use rs_jerry_driver.Grpc.{Msr4Channel, rx1, new_grpc_client}
use rs_jerry_driver.Udp
use rs_jerry_driver.Udp.{Sockets, Arrival, UdpSource, new_udp_source}
use rs_jerry_driver.Dpdk.{Mbuf, RingOps, StreamAttr, DpdkSource}
use rs_jerry_driver.Dpdk.Samples
use rs_jerry_driver.Dpdk.Setup.{DpdkCall, DpdkOps, new_dpdk_source, delete_dpdk_source}
use rs_jerry_driver.Iq.{IqClient}

abbrev pub version : String
version = "1.0"

-- The answers of the socket calls, where `bind` may look at the addresses that are in use.
pub record Network : Type 0 where
  pub socket : Option ℕ
  pub inet_pton : String → Option ℕ
  pub bind : List SockAddr → ℕ → SockAddr → Bool

abbrev pub sockets_of : Network → List SockAddr → Sockets
sockets_of network in_use = record {
  socket = network.socket;
  inet_pton = network.inet_pton;
  bind = network.bind in_use;
}

module _ (floats : FloatOps) where
  open floats use {Float, of_int16}

  -- The constructor.
  unfoldable pub new_iq_client : IqClient floats
  unfolding new_grpc_client
  new_iq_client = record {
    msr4_channel = rx1;
    port_id = negsuc 0;
    dump_mode = false;
    norm = of_int16 (pos 1);
    grpc_client = new_grpc_client;
  }

  unfoldable pub get_version : IqClient floats → String
  get_version client = version

  unfoldable pub get_rx_channel : IqClient floats → Msr4Channel
  get_rx_channel client = client.msr4_channel

  unfoldable pub set_dump_mode : Bool → IqClient floats → IqClient floats
  set_dump_mode value client = record client { dump_mode = value }

  unfoldable pub get_dump_mode : IqClient floats → Bool
  get_dump_mode client = client.dump_mode

  unfoldable pub set_port_id : ℤ → IqClient floats → IqClient floats
  set_port_id port_id client = record client { port_id = port_id }

  unfoldable pub get_port_id : IqClient floats → ℤ
  get_port_id client = client.port_id

  unfoldable pub set_norm : Float → IqClient floats → IqClient floats
  set_norm norm client = record client { norm = norm }

  unfoldable pub get_norm : IqClient floats → Float
  get_norm client = client.norm

  -- `~UdpSource` calls `disconnect`, in which the call of `close` is commented out: the addresses
  -- that are in use stay as they are.
  unfoldable pub disconnect : UdpSource floats → List SockAddr → List SockAddr
  disconnect source in_use = in_use

  unfoldable pub delete_udp_source : UdpSource floats → List SockAddr → List SockAddr
  unfolding disconnect
  delete_udp_source source in_use = disconnect source in_use

  module _ (rings : RingOps) where
    -- An object behind an `ILinuxSource *`.
    pub data Source : Type 0 where
      udp : UdpSource floats → Source
      dpdk : DpdkSource floats rings → Source

    -- The client with its pointer (`none` where it was never written), the objects that were made
    -- (`none` where deleted), the addresses in use, what the network has yet to deliver, the buffers
    -- that were freed, and the calls of DPDK.
    pub record Sources : Type 0 where
      pub client : IqClient floats
      pub sample_source : Option ℕ
      pub heap : List (Option Source)
      pub in_use : List SockAddr
      pub queue : List Arrival
      pub freed : List Mbuf
      pub calls : List DpdkCall

    unfoldable pub get_source : Sources → Option ℕ
    get_source world = world.sample_source

    -- What the pointer points to: a pointer that was never written or whose object was deleted
    -- must not be followed.
    abbrev pub object_of : Option (Option Source) → Option Source
    object_of none = none
    object_of (some object) = object

    abbrev pub at : List (Option Source) → Option ℕ → Option Source
    at heap none = none
    at heap (some p) = object_of (get_elem? heap p)

    -- `sample_source = new ...`
    abbrev pub assign_new : Source → Sources → Sources
    assign_new source world = record world {
      sample_source = some (length world.heap);
      heap = world.heap ++ some source ∷ [];
    }

    abbrev pub put_at : Option ℕ → Option Source → List (Option Source) → List (Option Source)
    put_at none object heap = heap
    put_at (some p) object heap = set heap p object

    abbrev pub put : Option Source → Sources → Sources
    put object world = record world { heap = put_at world.sample_source object world.heap }

    abbrev pub udp_made : Result (UdpSource floats) → Run Sources (Unit {0})
    udp_made (ok source) world =
        (ok tt, record (assign_new (udp source) world) { in_use = source.si_other ∷ world.in_use })
    udp_made (err e) world = (err e, world)

    -- The members that the constructor of the source leaves alone hold what the memory held.
    unfoldable pub setup_udp_source : Network → UdpSource floats → Run Sources (Unit {0})
    setup_udp_source network memory world =
        udp_made (new_udp_source floats (sockets_of network world.in_use) memory world.client.norm)
          world

    abbrev pub dpdk_made : Result (DpdkSource floats rings) × List DpdkCall → Run Sources (Unit {0})
    dpdk_made (ok source, calls) world =
        (ok tt, record (assign_new (dpdk source) world) { calls = calls ++ world.calls })
    dpdk_made (err e, calls) world = (err e, record world { calls = calls ++ world.calls })

    unfoldable pub setup_dpdk_source :
        DpdkOps rings → List (StreamAttr floats rings) → ℕ → Run Sources (Unit {0})
    setup_dpdk_source ops streams num_streams world =
        dpdk_made
          (new_dpdk_source floats rings ops streams num_streams world.client.norm
            world.client.dump_mode)
          world

    -- `delete` calls the destructor of the object.
    abbrev pub deleted : Option Source → DpdkOps rings → Run Sources (Unit {0})
    deleted none ops world = (err undefined, world)
    deleted (some (udp source)) ops world =
        (ok tt, record (put none world) { in_use = delete_udp_source source world.in_use })
    deleted (some (dpdk source)) ops world = (
      ok tt,
      record (put none world) {
        calls = (delete_dpdk_source floats rings ops source).1 ++ world.calls;
      },
    )

    unfoldable pub teardown_dpdk_source : DpdkOps rings → Run Sources (Unit {0})
    teardown_dpdk_source ops world = deleted (at world.heap world.sample_source) ops world

    unfoldable pub teardown_udp_source : DpdkOps rings → Run Sources (Unit {0})
    teardown_udp_source ops world = deleted (at world.heap world.sample_source) ops world

    abbrev pub udp_received :
        Result (Udp.Receiving floats × ℕ) → Run Sources (List (Complex Float) × ℕ)
    udp_received (ok (r, total)) world =
        (ok (r.samples, total), record (put (some (udp r.source)) world) { queue = r.queue })
    udp_received (err e) world = (err e, world)

    abbrev pub dpdk_received :
        Result (Samples.Dequeued floats rings) → Run Sources (List (Complex Float) × ℕ)
    dpdk_received (ok d) world =
        (ok (d.samples, d.total), record world { freed = world.freed ++ d.freed })
    dpdk_received (err e) world = (err e, world)

    -- The virtual call.
    abbrev pub received :
        Option Source
        → ℕ
        → ℤ
        → (ℤ → ℕ → List Mbuf)
        → List (Complex Float)
        → Run Sources (List (Complex Float) × ℕ)
    received none num_stream n rx_burst samples world = (err undefined, world)
    received (some (udp source)) num_stream n rx_burst samples world =
        udp_received
          (Udp.get_samples floats n
            (record { source = source; samples = samples; queue = world.queue }))
          world
    received (some (dpdk source)) num_stream n rx_burst samples world =
        dpdk_received (Samples.get_samples floats rings num_stream n rx_burst samples source) world

    unfoldable pub get_samples :
        ℕ → ℤ → (ℤ → ℕ → List Mbuf) → List (Complex Float) → Run Sources (List (Complex Float) × ℕ)
    get_samples num_stream n rx_burst samples world =
        received (at world.heap world.sample_source) num_stream n rx_burst samples world
