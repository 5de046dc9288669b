-- ===== src/Driver/Invariant/Edges.antt =====
-- The graph of the session states, and what a wait ends in.
use lzamp.Base.{ℕ, zero, suc, ◌≡◌, refl, Bool, true, not, ◌||◌, Option, none, some, if_both, arith}
use lzamp.Base.Int.{ℤ}
use lzamp.Protocol.{Message, zero_message}
use lzamp.Endpoint.Receive.{receive}
use lzamp.Endpoint.State.{MemoryOps}
use lzamp.Driver.State.{SessionState, Platform, Wire, Driver, cancel_timeout}
use lzamp.Driver.Control.{
  mark_offline_locked, set_timeout_locked, expire, reject_frame, accept_frame, open_session,
  note_stop_ready, reopen, judge_frame, control_round, control_drain, control_work, is_expired,
}
use lzamp.Driver.Watch.{
  refresh_affinity_locked, affinity_state_show, count_sample, affinity_work, last_look,
  lifecycle_timeout_work, rx_callback,
}
use lzamp.Driver.Gate.{is_waiting, ◌==state◌}
use lzamp.Driver.User.{
  user_open, user_release, drop_claim, user_claim_reader, gated_receive, read_pass, gated_send,
  user_write, user_poll, poll_mask,
}
use lzamp.Driver.Admin.{
  image_write, bind_session, launch, start_cpu, start_store, reset_session, rearm_cpu, rearm_store,
}
use lzamp.Driver.Stop.{
  stop_preflight_locked, enter_stopping, send_stop, abandon_stop, await_reply, request_stop,
  stop_store,
}
use lzamp.Driver.Machine.{Event, step, take_affinity, take_control}
use lzamp.Driver.Invariant.{Inv, is_unarmed}
use lzamp.Driver.Invariant.Admin.{stop_preflight_locked-life}

-- The states that one critical section may lead to.
unfoldable pub may_follow : SessionState → SessionState → Bool
may_follow SessionState.unarmed t =
    t ==state SessionState.unarmed || t ==state SessionState.starting
may_follow SessionState.starting t =
    t ==state SessionState.starting
    || (t ==state SessionState.active
        || (t ==state SessionState.start_timeout || t ==state SessionState.offline))
    || t ==state SessionState.unarmed
may_follow SessionState.start_timeout t =
    t ==state SessionState.start_timeout
    || (t ==state SessionState.offline || t ==state SessionState.unarmed)
may_follow SessionState.active t =
    t ==state SessionState.active
    || (t ==state SessionState.stopping
        || (t ==state SessionState.offline || t ==state SessionState.unarmed))
may_follow SessionState.stopping t =
    t ==state SessionState.stopping
    || (t ==state SessionState.active
        || (t ==state SessionState.stop_timeout || t ==state SessionState.offline))
    || t ==state SessionState.unarmed
may_follow SessionState.stop_timeout t =
    t ==state SessionState.stop_timeout
    || (t ==state SessionState.offline || t ==state SessionState.unarmed)
may_follow SessionState.offline t = t ==state SessionState.offline || t ==state SessionState.unarmed

pub follows_itself : (s : SessionState) → may_follow s s ≡ true
unfolding may_follow
follows_itself s = ground arith

rearmed_follows : (s : SessionState) → may_follow s SessionState.unarmed ≡ true
unfolding may_follow
rearmed_follows s = ground arith

module _ {K : Type 0} where
  abbrev pub state_of : Driver K → SessionState
  state_of d = d.life.mailmsg_state

  abbrev pub Follows : SessionState → Option (Driver K) → Type 0
  Follows s none = Unit {0}
  Follows s (some d) = may_follow s (state_of d) ≡ true

  module _ (p : Platform K) where
    judge_frame-follows :
        (ret : ℤ) (m : Message) (d : Driver K)
        → is_waiting (state_of d) ≡ true
        → may_follow (state_of d) (state_of (judge_frame p ret m d).0) ≡ true
    unfolding judge_frame reject_frame accept_frame set_timeout_locked expire open_session
        note_stop_ready reopen may_follow
    judge_frame-follows ret m d waiting = ground arith

    -- A round that drains on leaves the state alone.
    judge_frame-again :
        (ret : ℤ) (m : Message) (d : Driver K)
        → (judge_frame p ret m d).1 ≡ true
        → state_of (judge_frame p ret m d).0 ≡ state_of d
    unfolding judge_frame reject_frame accept_frame
    judge_frame-again ret m d again = ground arith

    control_drain-Follows :
        (fuel : ℕ) (s : SessionState) (d : Driver K)
        → s ≡ state_of d
        → is_waiting s ≡ true
        → Follows s (control_drain p fuel d)
    unfolding control_drain control_round
    control_drain-Follows zero s d same waiting = tt
    control_drain-Follows (suc fuel) s d same waiting =
        let (ret, m, h) = receive 0 zero_message d.host in
        let seen = record d { host = h } in
        let next = judge_frame p ret m seen in
        if_both (Follows s) next.1 (control_drain p fuel next.0) (some next.0)
          (λ again.
            control_drain-Follows fuel s next.0 (ground (arith, judge_frame-again ret m seen))
              waiting)
          (λ stop. ground (arith, judge_frame-follows ret m seen))

    set_timeout_locked-follows :
        (d : Driver K) → may_follow (state_of d) (state_of (set_timeout_locked d)) ≡ true
    unfolding set_timeout_locked expire may_follow
    set_timeout_locked-follows d = ground arith

    control_work-Follows : (fuel : ℕ) (d : Driver K) → Follows (state_of d) (control_work p fuel d)
    unfolding control_work
    control_work-Follows fuel d =
        if_both (Follows (state_of d)) (not (is_waiting (state_of d))) (some d) _
          (λ idle. follows_itself (state_of d))
          (λ waits.
            if_both (Follows (state_of d)) (is_expired p d)
              (some (cancel_timeout (set_timeout_locked d))) (control_drain p fuel d)
              (λ late. set_timeout_locked-follows d)
              (λ early. control_drain-Follows fuel (state_of d) d refl (ground arith)))

    refresh-follows :
        (d : Driver K) → may_follow (state_of d) (state_of (refresh_affinity_locked p d).1) ≡ true
    unfolding refresh_affinity_locked mark_offline_locked may_follow
    refresh-follows d = ground arith

    affinity_state_show-follows :
        (d : Driver K) → may_follow (state_of d) (state_of (affinity_state_show p d).1) ≡ true
    unfolding affinity_state_show
    affinity_state_show-follows d = ground (arith, follows_itself (state_of d), refresh-follows d)

    affinity_work-follows :
        (d : Driver K)
        → may_follow (state_of d) (state_of (affinity_work p (take_affinity d))) ≡ true
    unfolding affinity_work count_sample
    affinity_work-follows d =
        ground (arith, follows_itself (state_of d), refresh-follows (take_affinity d))

    lifecycle_timeout_work-follows :
        (d : Driver K)
        → may_follow (state_of d) (state_of (lifecycle_timeout_work p (cancel_timeout d))) ≡ true
    unfolding lifecycle_timeout_work last_look set_timeout_locked expire refresh_affinity_locked
        mark_offline_locked may_follow
    lifecycle_timeout_work-follows d = ground arith

    -- What a start may leave: not started, or starting.
    launch-state :
        (ops : MemoryOps (Wire K)) (d : Driver K)
        → may_follow SessionState.unarmed (state_of (launch p ops d).1) ≡ true
    unfolding launch may_follow
    launch-state ops d = ground arith

    refresh_idle :
        (d : Driver K)
        → state_of d ≡ SessionState.unarmed
        → state_of (refresh_affinity_locked p d).1 ≡ SessionState.unarmed
    unfolding refresh_affinity_locked mark_offline_locked
    refresh_idle d idle = ground arith

    start_cpu-follows :
        (ops : MemoryOps (Wire K)) (d : Driver K)
        → state_of d ≡ SessionState.unarmed
        → may_follow SessionState.unarmed (state_of (start_cpu p ops d).1) ≡ true
    unfolding start_cpu bind_session
    start_cpu-follows ops d idle = ground (
      arith,
      refresh_idle d idle,
      follows_itself SessionState.unarmed,
      launch-state ops (bind_session p ops (refresh_affinity_locked p d).1).1,
    )

    was_idle : (s : SessionState) → is_unarmed s ≡ true → s ≡ SessionState.unarmed
    was_idle s h = ground arith

    start_store-follows :
        (ops : MemoryOps (Wire K)) (text : Bool) (d : Driver K)
        → Inv d
        → may_follow (state_of d) (state_of (start_store p ops text d).1) ≡ true
    unfolding start_store
    start_store-follows ops text d i =
        ground (arith, follows_itself (state_of d), was_idle (state_of d), start_cpu-follows ops d)

    rearm_cpu-follows : (d : Driver K) → may_follow (state_of d) (state_of (rearm_cpu p d).1) ≡ true
    unfolding rearm_cpu reset_session
    rearm_cpu-follows d = ground (arith, refresh-follows d, rearmed_follows (state_of d))

    rearm_store-follows :
        (text : Bool) (d : Driver K)
        → may_follow (state_of d) (state_of (rearm_store p text d).1) ≡ true
    unfolding rearm_store
    rearm_store-follows text d = ground (arith, rearm_cpu-follows d, follows_itself (state_of d))

    request_stop-state :
        (d : Driver K) → may_follow SessionState.active (state_of (request_stop p d).1) ≡ true
    unfolding request_stop enter_stopping send_stop abandon_stop await_reply may_follow
    request_stop-state d = ground arith

    stop_store-follows :
        (ops : MemoryOps (Wire K)) (text : Bool) (d : Driver K)
        → may_follow (state_of d) (state_of (stop_store p ops text d).1) ≡ true
    unfolding stop_store
    stop_store-follows ops text d = ground (
      arith,
      follows_itself (state_of d),
      stop_preflight_locked-life p ops d,
      request_stop-state (stop_preflight_locked p ops d).1,
    )

    -- Each event of the machine (interrupts, the three works, the reads of the affinity, the writes
    -- that load, start, rearm and stop, the calls of user space, and changes of the endpoint, the
    -- memory and the mailbox from outside) moves the session along one graph, from any driver that
    -- satisfies the invariant, if it ends within the fuel. Besides staying where it is, the session goes from
    -- UNARMED to STARTING only; from STARTING to ACTIVE, START_TIMEOUT, OFFLINE or UNARMED; from
    -- ACTIVE to STOPPING, OFFLINE or UNARMED; from STOPPING to ACTIVE, STOP_TIMEOUT, OFFLINE or
    -- UNARMED; from either timeout to OFFLINE or UNARMED only; and from OFFLINE to UNARMED only.
    pub step-Follows :
        (ops : MemoryOps (Wire K)) (fuel : ℕ) (e : Event K) (d : Driver K)
        → Inv d
        → Follows (state_of d) (step p ops fuel e d)
    unfolding step rx_callback image_write user_open user_release drop_claim user_claim_reader
        read_pass gated_receive user_poll poll_mask user_write gated_send
    step-Follows ops fuel (Event.interrupt index message) d i =
        ground (arith, follows_itself (state_of d))
    step-Follows ops fuel Event.control d i = control_work-Follows fuel (take_control d)
    step-Follows ops fuel Event.timeout d i = lifecycle_timeout_work-follows d
    step-Follows ops fuel Event.affinity d i = affinity_work-follows d
    step-Follows ops fuel Event.affinity_read d i = affinity_state_show-follows d
    step-Follows ops fuel (Event.load off buf) d i = ground (arith, follows_itself (state_of d))
    step-Follows ops fuel (Event.start text) d i = start_store-follows ops text d i
    step-Follows ops fuel (Event.rearm text) d i = rearm_store-follows text d
    step-Follows ops fuel (Event.stop text) d i = stop_store-follows ops text d
    step-Follows ops fuel (Event.opened allocated priority nonblocking) d i =
        ground (arith, follows_itself (state_of d))
    step-Follows ops fuel (Event.released f) d i = ground (arith, follows_itself (state_of d))
    step-Follows ops fuel (Event.claimed f) d i = ground (arith, follows_itself (state_of d))
    step-Follows ops fuel (Event.polled f) d i = ground (arith, follows_itself (state_of d))
    step-Follows ops fuel (Event.read copied f) d i = ground (arith, follows_itself (state_of d))
    step-Follows ops fuel (Event.written count none f) d i =
        ground (arith, follows_itself (state_of d))
    step-Follows ops fuel (Event.written count (some frame) f) d i =
        ground (arith, follows_itself (state_of d))
    step-Follows ops fuel (Event.outside change) d i = follows_itself (state_of d)
