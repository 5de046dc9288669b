-- ===== src/Notify.antt =====
-- mailmsg/mailmsg_notify.h and mailmsg/mailmsg_mailbox0.c: the doorbell.
-- A backend stands outside this code: it is a function on a world `W`. Null pointers (an endpoint,
-- its table, its function, the context of the adapter) are `none`.
pub mod Laws
use lzamp.Base.{ℕ, Bool, ◌||◌, Option, none, some, leb, ◌==◌, if◌then◌else◌, bit_or}
use lzamp.Base.Int.{ℤ, pos, negsuc, ◌==ℤ◌}
use lzamp.Protocol.{priority_count}

-- `enum mailmsg_notify_result`
abbrev pub notify_sent : ℤ
notify_sent = pos 0

abbrev pub notify_coalesced : ℤ
notify_coalesced = pos 1

pub data NotifyState : Type 0 where
  sent coalesced failed : NotifyState

unfoldable pub notify_state_from_result : ℤ → NotifyState
notify_state_from_result result =
    if result ==ℤ notify_sent
    then NotifyState.sent
    else if result ==ℤ notify_coalesced
    then NotifyState.coalesced
    else NotifyState.failed

unfoldable pub notify_accepted : ℤ → Bool
notify_accepted result = result ==ℤ notify_sent || result ==ℤ notify_coalesced

abbrev pub Backend : Type 0 → Type 0
Backend W = ℕ → W → ℤ × W

unfoldable pub notify : {W : Type 0} → Option (Backend W) → ℕ → W → ℤ × W
notify none priority w = (negsuc 0, w)
notify (some backend) priority w =
    if leb priority_count priority then (negsuc 0, w) else backend priority w

abbrev pub mailbox0_doorbell : ℕ
mailbox0_doorbell = 0xa2b10000

-- `mailmsg_mailbox_send_fn`: channel, command, data.
abbrev pub MailboxSend : Type 0 → Type 0
MailboxSend W = ℕ → ℕ → ℕ → W → ℤ × W

unfoldable pub mailbox0_notify : {W : Type 0} → Option (MailboxSend W) → Backend W
mailbox0_notify none priority w = (negsuc 0, w)
mailbox0_notify (some send) priority w =
    if leb priority_count priority
    then (negsuc 0, w)
    else send priority (bit_or mailbox0_doorbell priority) priority w
