-- ===== src/Driver/State.antt =====
-- scripts/linux-support/drivers/lzamp_amp_mailmsg.c: `struct r1_amp_cpu_on_data` and its parts.
-- `Wire` holds what a doorbell touches, and is the world of the endpoint; `Platform` the calls that
-- the kernel and the firmware below it serve. Deferred work is what is pending, with its delay. A
-- wake-up has no state of its own: a sleeper looks at `rx_generation` again.
use lzamp.Base.{ℕ, ◌+◌, Bool, true, false, Option, none, some, List, [], ◌∷◌, u32}
use lzamp.Base.Int.{ℤ, pos}
use lzamp.Mmio.{MmioOps}
use lzamp.Endpoint.State.{Host}

-- `enum r1_amp_mailmsg_session_state`
pub data SessionState : Type 0 where
  unarmed starting start_timeout active stopping stop_timeout offline : SessionState

-- `struct r1_amp_mbox_channel`. The index is the place in the array; there is one controller.
pub record MboxChannel : Type 0 where
  pub tx_cmd : ℕ
  pub tx_data : ℕ
  pub rx_count : ℕ
  pub rx_last_cmd : ℕ
  pub rx_last_data : ℕ
  pub tx_ret : ℤ
  pub tx_count : ℕ
  pub notify_result : ℤ
  pub notify_sent_count : ℕ
  pub notify_coalesced_count : ℕ
  pub notify_failed_count : ℕ

abbrev pub zero_channel : MboxChannel
zero_channel = record {
  tx_cmd = 0;
  tx_data = 0;
  rx_count = 0;
  rx_last_cmd = 0;
  rx_last_data = 0;
  tx_ret = pos 0;
  tx_count = 0;
  notify_result = pos 0;
  notify_sent_count = 0;
  notify_coalesced_count = 0;
  notify_failed_count = 0;
}

-- `K` is the hardware and the firmware under the driver.
pub record Platform (K : Type 0) : Type 0 where
  pub io : MmioOps K
  pub mbox_regs : ℕ
  pub has_affinity_info : Bool
  pub has_cpu_on : Bool
  pub affinity_info : ℕ → K → ℤ × K
  pub cpu_on : ℕ → ℕ → K → ℤ × K
  pub jiffies : K → ℕ
  pub time_after_eq : ℕ → ℕ → Bool
  pub time_before : ℕ → ℕ → Bool
  pub msecs_to_jiffies : ℕ → ℕ

pub record Wire (K : Type 0) : Type 0 where
  pub mbox : List MboxChannel
  pub notify_inject_priority : ℕ
  pub notify_inject_errno : ℤ
  pub notify_inject_remaining : ℕ
  pub lifecycle_notify_bypass : Bool
  pub mailmsg_last_notify_result : ℤ
  pub platform : K

-- `struct r1_amp_mailmsg_user_channel`; the priority is the place in the array.
pub record UserChannel : Type 0 where
  pub rx_generation : ℕ
  pub reader_open_count : ℕ
  pub registered : Bool

abbrev pub zero_user : UserChannel
zero_user = record { rx_generation = 0; reader_open_count = 0; registered = false }

-- `atomic_inc(&rx_generation)` and `wake_up_interruptible`.
unfoldable pub wake : UserChannel → UserChannel
wake c = record c { rx_generation = u32 (c.rx_generation + 1) }

unfoldable pub wake_all : List UserChannel → List UserChannel
unfolding wake
wake_all [] = []
wake_all (c ∷ cs) = wake c ∷ wake_all cs

pub record Lifecycle : Type 0 where
  pub mailmsg_state : SessionState
  pub session_generation : ℕ
  pub peer_generation : ℕ
  pub session_result : ℤ
  pub stop_request_sequence : ℕ
  pub stop_reply_type : ℕ
  pub stop_result : ℤ
  pub stop_notify_result : ℤ
  pub lifecycle_deadline : ℕ

pub record Affinity : Type 0 where
  pub affinity_state : ℤ
  pub affinity_queried : Bool
  pub affinity_seen_on : Bool
  pub cpu_on_attempted : Bool
  pub cpu_on_ret : ℤ
  pub affinity_monitor_count : ℕ
  pub affinity_monitor_error_count : ℕ

pub record Works : Type 0 where
  pub control_work : Bool
  pub lifecycle_timeout_work : Option ℕ
  pub affinity_work : Option ℕ

pub record Image : Type 0 where
  pub carveout : List ℕ
  pub image_size : ℕ
  pub image_written : ℕ

pub record Driver (K : Type 0) : Type 0 where
  pub mpidr : ℕ
  pub entry : ℕ
  pub image : Image
  pub life : Lifecycle
  pub cpu : Affinity
  pub works : Works
  pub mailmsg_user : List UserChannel
  pub mailmsg_user_open_count : ℕ
  pub mailmsg_user_removing : Bool
  pub next_sequence : ℕ
  pub host : Host (Wire K)

module _ {K : Type 0} where
  abbrev pub with_state : SessionState → Driver K → Driver K
  with_state s d = record d { life = record d.life { mailmsg_state = s } }

  abbrev pub platform_of : Driver K → K
  platform_of d = d.host.world.platform

  abbrev pub with_platform : K → Driver K → Driver K
  with_platform k d = record d {
    host = record d.host { world = record d.host.world { platform = k } };
  }

  -- `cancel_delayed_work(&lifecycle_timeout_work)`
  abbrev pub cancel_timeout : Driver K → Driver K
  cancel_timeout d = record d { works = record d.works { lifecycle_timeout_work = none } }

  abbrev pub arm_timeout : ℕ → Driver K → Driver K
  arm_timeout delay d = record d { works = record d.works { lifecycle_timeout_work = some delay } }

  abbrev pub arm_affinity : ℕ → Driver K → Driver K
  arm_affinity delay d = record d { works = record d.works { affinity_work = some delay } }

  -- `schedule_work(&control_work)`
  abbrev pub schedule_control : Driver K → Driver K
  schedule_control d = record d { works = record d.works { control_work = true } }

  abbrev pub wake_users : Driver K → Driver K
  wake_users d = record d { mailmsg_user = wake_all d.mailmsg_user }
