-- ===== src/Driver/Machine.antt =====
-- scripts/linux-support/drivers/lzamp_amp_mailmsg.c: the driver as one machine, from the probe until
-- the device goes. A step is one critical section that may change the session, the works or the
-- readers. The test entries, which change the endpoint and the mailbox only, are cases of `outside`.
use lzamp.Base.{ℕ, Bool, false, Option, none, some, List, [], ◌∷◌}
use lzamp.Endpoint.State.{MemoryOps, Host}
use lzamp.Driver.State.{Platform, Wire, Driver, cancel_timeout}
use lzamp.Driver.Control.{control_work}
use lzamp.Driver.Watch.{affinity_work, affinity_state_show, lifecycle_timeout_work, rx_callback}
use lzamp.Driver.User.{
  UserFrame, UserFile, user_open, user_release, user_claim_reader, read_pass, user_write, user_poll,
}
use lzamp.Driver.Admin.{image_write, start_store, rearm_store}
use lzamp.Driver.Stop.{stop_store}

-- The kernel clears the pending mark of a work before it runs it. Here the mark goes when the body
-- has the lock, so a work that was taken off its queue and waits for the lock still counts as
-- pending.
module _ {K : Type 0} where
  abbrev pub take_control : Driver K → Driver K
  take_control d = record d { works = record d.works { control_work = false } }

  abbrev pub take_affinity : Driver K → Driver K
  take_affinity d = record d { works = record d.works { affinity_work = none } }

-- `outside` is whatever the peer and the hardware do to the memory and the registers.
pub data Event (K : Type 0) : Type 0 where
  interrupt : ℕ → Option (ℕ × ℕ) → Event K
  control timeout affinity affinity_read : Event K
  load : ℕ → List ℕ → Event K
  start rearm stop : Bool → Event K
  opened : Bool → ℕ → Bool → Event K
  released claimed polled : UserFile → Event K
  read : Bool → UserFile → Event K
  written : ℕ → Option UserFrame → UserFile → Event K
  outside : (Host (Wire K) → Host (Wire K)) → Event K

abbrev pub and_then : {A : Type 0} → Option A → (A → Option A) → Option A
and_then none f = none
and_then (some a) f = f a

module _ {K : Type 0} (p : Platform K) (ops : MemoryOps (Wire K)) where
  -- `none` is a control work that does not end within the fuel.
  unfoldable pub step : ℕ → Event K → Driver K → Option (Driver K)
  step fuel (Event.interrupt index message) d = some (rx_callback index message d)
  step fuel Event.control d = control_work p fuel (take_control d)
  step fuel Event.timeout d = some (lifecycle_timeout_work p (cancel_timeout d))
  step fuel Event.affinity d = some (affinity_work p (take_affinity d))
  step fuel Event.affinity_read d = some (affinity_state_show p d).1
  step fuel (Event.load off buf) d = some (image_write off buf d).1
  step fuel (Event.start text) d = some (start_store p ops text d).1
  step fuel (Event.rearm text) d = some (rearm_store p text d).1
  step fuel (Event.stop text) d = some (stop_store p ops text d).1
  step fuel (Event.opened allocated priority nonblocking) d =
      some (user_open allocated priority nonblocking d).2
  step fuel (Event.released f) d = some (user_release f d)
  step fuel (Event.claimed f) d = some (user_claim_reader f d).2
  step fuel (Event.polled f) d = some (user_poll f d).2
  step fuel (Event.read copied f) d = some (read_pass copied f d).1
  step fuel (Event.written count frame f) d = some (user_write count frame f d).1
  step fuel (Event.outside change) d = some (record d { host = change d.host })

  unfoldable pub run : ℕ → List (Event K) → Driver K → Option (Driver K)
  unfolding step
  run fuel [] d = some d
  run fuel (e ∷ es) d = and_then (step fuel e d) (run fuel es)
