-- ===== src/Dpdk/Setup/Success.antt =====
-- A constructor for which DPDK does everything that it is asked.
use Prim.Native.String.{String}
use rs_jerry_driver.Common.{ℕ, ◌<◌, ◌≡◌, ℤ, false, not, ◌||◌, List, ok, length, bit_and, ◌==◌}
use rs_jerry_driver.Common.Run.{Run}
use rs_jerry_driver.Floats.{FloatOps}
use rs_jerry_driver.Dpdk.{RingOps}
use rs_jerry_driver.Dpdk.Setup.{DpdkOps, SetupState, is_null, is_negative, is_nonzero}
use rs_jerry_driver.Dpdk.Setup.Rounds.{pool_name}

-- The answers of DPDK that the constructor accepts, for so many streams.
pub record IsServing {rings : RingOps} (dpdk : DpdkOps rings) (n : ℕ) : Type 0 where
  pub eal : (argv : List String) → is_negative (dpdk.eal_result argv) ≡ false
  pub ports : (dpdk.dev_count == 0) ≡ false
  pub pools : (j : ℕ) → j < n → is_null (dpdk.pool (pool_name j)) ≡ false
  pub info : (port : ℤ) → is_nonzero (dpdk.dev_info port).0 ≡ false
  pub configures :
      (port : ℤ)
      → is_negative (
          dpdk.configured port (record {
            rxmode_offloads = 0;
            txmode_offloads = bit_and 0 (dpdk.dev_info port).1.tx_offload_capa;
          }))
        ≡ false
  pub queues : (port : ℤ) → is_negative (dpdk.queue_set_up port 0) ≡ false
  pub promiscuous : (port : ℤ) → is_nonzero (dpdk.promiscuous port) ≡ false
  pub starts : (port : ℤ) → is_negative (dpdk.started port) ≡ false
  pub links : (port : ℤ) → (is_nonzero (dpdk.link port).0 || not (dpdk.link port).1) ≡ false

module _ (floats : FloatOps) (rings : RingOps) (dpdk : DpdkOps rings) where
  abbrev State : Type 0
  State = SetupState floats rings

  -- A run returns, and there are as many streams as before.
  record Returns {A : Type 0} (run : Run State A) (st : State) : Type 0 where
    result : A
    last : State
    returned : run st ≡ (ok result, last)
    streams : length last.source.streams ≡ length st.source.streams
