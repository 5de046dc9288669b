-- ===== src/Notify/Laws.antt =====
-- What a doorbell is asked to do, and how its answers are told apart.
use lzamp.Base.{ℕ, zero, suc, ◌+◌, ◌≤◌, ◌<◌, ◌≡◌, ◌≢◌, ◌↔◌, refl, true, some, arith, bit_or}
use lzamp.Base.Int.{ℤ, negsuc}
use lzamp.Protocol.{priority_count}
use lzamp.Notify.{
  NotifyState, notify_state_from_result, notify_accepted, notify, MailboxSend, mailbox0_notify,
  mailbox0_doorbell,
}

-- A result is accepted exactly if its state is not `failed`.
pub notify_accepted_iff :
    (result : ℤ)
    → (notify_accepted result ≡ true) ↔ (notify_state_from_result result ≢ NotifyState.failed)
unfolding notify_accepted notify_state_from_result
notify_accepted_iff result = ground arith

doorbell_word :
    (priority : ℕ) → priority < 4 → bit_or mailbox0_doorbell priority ≡ mailbox0_doorbell + priority
doorbell_word zero h = refl
doorbell_word (suc zero) h = refl
doorbell_word (suc (suc zero)) h = refl
doorbell_word (suc (suc (suc zero))) h = refl
doorbell_word (suc (suc (suc (suc p)))) h = absurd (omega arith)

module _ {W : Type 0} (send : MailboxSend W) where
  -- Through `mailmsg_notify`, the mailbox0 adapter rings exactly the channel of a priority below
  -- four, with the doorbell command plus the priority and the priority as data, and gives back the
  -- answer; for any other priority it rings nothing and returns -1.
  pub notify-mailbox0_notify :
      (priority : ℕ) (w : W)
      → (priority < priority_count
          → notify (some (mailbox0_notify (some send))) priority w
            ≡ send priority (mailbox0_doorbell + priority) priority w)
        × (priority_count ≤ priority
            → notify (some (mailbox0_notify (some send))) priority w ≡ (negsuc 0, w))
  unfolding notify mailbox0_notify
  notify-mailbox0_notify priority w =
      (λ h. rw (← doorbell_word priority h) (ground arith), λ h. ground arith)
