-- ===== src/Firmware/State.antt =====
-- zephyr/app/src/main.c: the variables of the CPU3 firmware, and the lines that it publishes for
-- Linux in the control page. The stores of a line are seen here once they are all made.
use lzamp.Base.{ℕ, Bool, Option}
use lzamp.Base.Int.{ℤ}
use lzamp.Mmio.{MmioOps}
use lzamp.Endpoint.State.{Host}
use lzamp.Service.{Service}

-- `W` is the hardware. `mailbox` is the mapped mailbox 0. `arch_cpu_off` is `mailmsg_arch_cpu_off`,
-- written in assembly: `none` where it does not return, and else its error.
pub record Board (W : Type 0) : Type 0 where
  pub io : MmioOps W
  pub mailbox : ℕ
  pub stop_control : Bool
  pub arch_cpu_off : W → Option ℤ

-- `struct amp_mbox_observation_line`
pub record MboxObservation : Type 0 where
  pub magic : ℕ
  pub a2b_status : ℕ
  pub command : ℕ
  pub value : ℕ

-- `struct mailmsg_tx_full_observation`
pub record TxFullObservation : Type 0 where
  pub magic : ℕ
  pub commit : ℕ
  pub commit_inv : ℕ
  pub full_count : ℕ
  pub last_priority : ℕ
  pub last_type : ℕ
  pub last_result : ℤ

-- `struct mailmsg_worker_observation_line`
pub record WorkerObservation : Type 0 where
  pub magic : ℕ
  pub commit : ℕ
  pub commit_inv : ℕ
  pub irq_count : ℕ
  pub wake_count : ℕ
  pub drain_count : ℕ
  pub message_count : ℕ
  pub empty_wake_count : ℕ
  pub last_pending : ℕ
  pub pending_now : ℕ
  pub last_priority : ℕ

pub record Counts : Type 0 where
  pub tx_full_commit : ℕ
  pub tx_full_count : ℕ
  pub worker_commit : ℕ
  pub wake_count : ℕ
  pub drain_count : ℕ
  pub message_count : ℕ
  pub empty_wake_count : ℕ
  pub rx_error_count : ℕ
  pub irq_count : ℕ

pub record Lines : Type 0 where
  pub mailbox : MboxObservation
  pub mark : ℕ
  pub tx_full : TxFullObservation
  pub worker : WorkerObservation

-- `is_off` is CPU3 past `mailmsg_cpu_off_after_ready`, which does not return. `work_sem` counts to
-- 1.
pub record Firmware (W : Type 0) : Type 0 where
  pub peripheral_service : Service W
  pub peripherals_ready : Bool
  pub mailmsg_endpoint_ready : Bool
  pub session_ready_committed : Bool
  pub session_ready_published : Bool
  pub pending_priorities : ℕ
  pub work_sem : ℕ
  pub is_off : Bool
  pub counts : Counts
  pub lines : Lines
  pub host : Host W
