-- ===== src/Driver/Wait.antt =====
-- A wait for the peer ends.
use lzamp.Base.{
  ℕ, zero, suc, List, [], ◌∷◌, ◌+◌, ◌%◌, ◌^◌, ◌<◌, ◌∙◌, some, refl, ap, subst, length, get_or, ◌≡◌,
  ◌⊎◌, true, false, arith,
}
use lzamp.Driver.Errno
use lzamp.Driver.State.{
  SessionState, Platform, Wire, UserChannel, zero_user, Driver, wake, wake_all, cancel_timeout,
}
use lzamp.Driver.Control.{now, mark_offline_locked, set_timeout_locked, expire}
use lzamp.Driver.Watch.{last_look, refresh_affinity_locked, lifecycle_timeout_work}
use lzamp.Driver.Gate.{is_waiting}
use lzamp.Driver.Invariant.{Inv, Holds, is_some}
use lzamp.Driver.Invariant.Machine.{reachable-Inv}
use lzamp.Driver.Machine.{Event, run}
use lzamp.Driver.Probe.{Geometry, probed}
use lzamp.Endpoint.State.{Shared, MemoryOps}

length-wake_all : (cs : List UserChannel) → length (wake_all cs) ≡ length cs
unfolding wake_all
length-wake_all [] = refl
length-wake_all (c ∷ cs) = ap suc (length-wake_all cs)

get_or-wake_all :
    (cs : List UserChannel) (q : ℕ)
    → q < length cs
    → (get_or (wake_all cs) q zero_user).rx_generation
      ≡ ((get_or cs q zero_user).rx_generation + 1) % 2 ^ 32
unfolding wake_all wake
get_or-wake_all [] q h = absurd (omega arith)
get_or-wake_all (c ∷ cs) zero h = refl
get_or-wake_all (c ∷ cs) (suc q) h = get_or-wake_all cs q (omega arith)

-- The states that a wait may end in.
abbrev pub Ended : {K : Type 0} → Driver K → Driver K → Type 0
Ended d d' =
    ((d.life.mailmsg_state ≡ SessionState.starting)
      × (d'.life.mailmsg_state ≡ SessionState.start_timeout)
      × (d'.life.session_result ≡ Errno.etimedout))
    ⊎ (((d.life.mailmsg_state ≡ SessionState.stopping)
          × (d'.life.mailmsg_state ≡ SessionState.stop_timeout)
          × (d'.life.stop_result ≡ Errno.etimedout))
        ⊎ ((d.life.mailmsg_state ≡ SessionState.stopping)
            × (d'.life.mailmsg_state ≡ SessionState.offline)))

-- What is left of a wait.
pub record WaitOver {K : Type 0} (d d' : Driver K) : Type 0 where
  pub result : Ended d d'
  pub same_length : length d'.mailmsg_user ≡ length d.mailmsg_user
  pub woken :
      (q : ℕ)
      → q < length d.mailmsg_user
      → (get_or d'.mailmsg_user q zero_user).rx_generation
        ≡ ((get_or d.mailmsg_user q zero_user).rx_generation + 1) % 2 ^ 32

module _ {K : Type 0} (p : Platform K) where
  refresh-users :
      (d : Driver K)
      → let d' = (refresh_affinity_locked p d).1 in
        ((d'.life ≡ d.life) × (d'.mailmsg_user ≡ d.mailmsg_user))
        ⊎ ((d'.life.mailmsg_state ≡ SessionState.offline)
            × (d'.mailmsg_user ≡ wake_all d.mailmsg_user))
  unfolding refresh_affinity_locked mark_offline_locked
  refresh-users d = ground arith

  expired :
      (d : Driver K)
      → is_waiting d.life.mailmsg_state ≡ true
      → p.time_before (now p d) d.life.lifecycle_deadline ≡ false
      → let d' = lifecycle_timeout_work p (cancel_timeout d) in
        Ended d d' × (d'.mailmsg_user ≡ wake_all d.mailmsg_user)
  unfolding lifecycle_timeout_work last_look set_timeout_locked expire
  expired d waiting late = ground (arith, refresh-users (cancel_timeout d))

  expired-WaitOver :
      (d : Driver K)
      → is_waiting d.life.mailmsg_state ≡ true
      → p.time_before (now p d) d.life.lifecycle_deadline ≡ false
      → WaitOver d (lifecycle_timeout_work p (cancel_timeout d))
  expired-WaitOver d waiting late =
      let (ended, users) = expired d waiting late in
      record {
        result = ended;
        same_length = ap length users ∙ length-wake_all d.mailmsg_user;
        woken = λ q h.
            ap (λ cs. (get_or cs q zero_user).rx_generation) users
            ∙ get_or-wake_all d.mailmsg_user q h;
      }

  -- In each state that the driver reaches from the probe by the machine's events, where it waits
  -- for the peer (STARTING or STOPPING): its timeout work is pending. Once that runs with the
  -- deadline reached, the wait is over: a start ends in START_TIMEOUT with -ETIMEDOUT; a stop ends
  -- in STOP_TIMEOUT with -ETIMEDOUT, or in OFFLINE; and for each priority the 32-bit counter that
  -- its readers wait on goes up by one.
  pub wait_ends :
      (ops : MemoryOps (Wire K)) (fuel : ℕ) (es : List (Event K)) (g : Geometry) (carveout : List ℕ)
      (memory : Shared) (k : K) (d : Driver K)
      → run p ops fuel es (probed g carveout memory k) ≡ some d
      → is_waiting d.life.mailmsg_state ≡ true
      → p.time_before (now p d) d.life.lifecycle_deadline ≡ false
      → (is_some d.works.lifecycle_timeout_work ≡ true)
        × WaitOver d (lifecycle_timeout_work p (cancel_timeout d))
  wait_ends ops fuel es g carveout memory k d reached waiting late =
      let i : Inv d =
        subst (Holds {K = K}) reached (reachable-Inv p ops fuel es g carveout memory k) in
      (i.armed waiting, expired-WaitOver d waiting late)
