-- ===== src/Driver/Invariant/Admin.antt =====
-- The root's entries keep the invariant of a session.
use lzamp.Base.{
  ℕ, zero, suc, ◌+◌, ◌==◌, ◌≡◌, ◌≢◌, refl, sym, ap, ◌∙◌, subst, subst₂, not, Bool, true, false,
  List, arith, if_both,
}
use lzamp.Base.Int.{ℤ, pos, ◌==ℤ◌, is_nonzero}
use lzamp.Endpoint.State.{MemoryOps}
use lzamp.Driver.State.{SessionState, Lifecycle, Platform, Wire, Driver}
use lzamp.Driver.Errno
use lzamp.Driver.Control.{mark_offline_locked}
use lzamp.Driver.Watch.{psci_off, refresh_affinity_locked}
use lzamp.Driver.Gate.{◌==state◌, is_waiting, is_watched}
use lzamp.Driver.Admin.{
  image_write, next_generation, bind_session, launch, start_cpu, start_store, reset_session,
  rearm_cpu, rearm_store, a2b_status,
}
use lzamp.Driver.Stop.{
  stop_preflight_locked, preflight_rings, preflight_verdict, reverse_pending, forward_pending,
  enter_stopping, send_stop, abandon_stop, await_reply, request_stop, stop_store,
}
use lzamp.Driver.Invariant.{Inv, is_unarmed, is_some, has_peer, refresh_affinity_locked-Inv}

next_generation_nonzero : (g : ℕ) → next_generation g ≢ 0
unfolding next_generation
next_generation_nonzero g = ground arith

is_active :
    (s : SessionState) → not (s ==state SessionState.active) ≡ false → s ≡ SessionState.active
is_active s h = ground arith

module _ {K : Type 0} where
  pub image_write-Inv :
      (off : ℕ) (buf : List ℕ) (d : Driver K) → Inv d → Inv (image_write off buf d).1
  unfolding image_write
  image_write-Inv off buf d i = ground arith

  module _ (p : Platform K) where
    -- A machine that was never started is unarmed, and sampling it changes no state.
    refresh_unarmed :
        (d : Driver K)
        → is_unarmed d.life.mailmsg_state ≡ true
        → is_unarmed (refresh_affinity_locked p d).1.life.mailmsg_state ≡ true
    unfolding refresh_affinity_locked mark_offline_locked
    refresh_unarmed d idle = ground arith

    launch-Inv :
        (ops : MemoryOps (Wire K)) (d : Driver K)
        → d.life.session_generation ≢ 0
        → d.mailmsg_user_removing ≡ false
        → Inv (launch p ops d).1
    unfolding launch
    launch-Inv ops d nonzero present = ground arith

    start_cpu-Inv :
        (ops : MemoryOps (Wire K)) (d : Driver K)
        → is_unarmed d.life.mailmsg_state ≡ true
        → Inv d
        → Inv (start_cpu p ops d).1
    unfolding start_cpu bind_session
    start_cpu-Inv ops d idle i = ground (
      arith,
      refresh_unarmed d idle,
      refresh_affinity_locked-Inv p d i,
      next_generation_nonzero (refresh_affinity_locked p d).1.life.session_generation,
      launch-Inv ops (bind_session p ops (refresh_affinity_locked p d).1).1,
    )

    pub start_store-Inv :
        (ops : MemoryOps (Wire K)) (is_start : Bool) (d : Driver K)
        → Inv d
        → Inv (start_store p ops is_start d).1
    unfolding start_store
    start_store-Inv ops is_start d i = ground (arith, start_cpu-Inv ops d)

    reset_session-Inv : (d : Driver K) → d.mailmsg_user_removing ≡ false → Inv (reset_session p d)
    unfolding reset_session
    reset_session-Inv d present = ground arith

    -- A register read changes the platform only.
    a2b_status-Inv : (d : Driver K) → Inv d → Inv (a2b_status p d).1
    a2b_status-Inv d i = ground arith

    Kept : ℤ × Driver K → Type 0
    Kept r = Inv r.1

    rearm_cpu-Inv : (d : Driver K) → Inv d → Inv (rearm_cpu p d).1
    unfolding rearm_cpu Kept
    rearm_cpu-Inv d i =
        let (state, sampled) = refresh_affinity_locked p d in
        let (status, seen) = a2b_status p sampled in
        let i' = refresh_affinity_locked-Inv p d i in
        if_both Kept (not (state ==ℤ psci_off)) (Errno.ebusy, sampled) _ (λ h. i')
          (λ h.
            if_both Kept (not (status == 0)) (Errno.ebusy, seen) (pos 0, reset_session p seen)
              (λ k. a2b_status-Inv sampled i') (λ k. reset_session-Inv seen i'.facts.present))

    pub rearm_store-Inv :
        (is_rearm : Bool) (d : Driver K) → Inv d → Inv (rearm_store p is_rearm d).1
    unfolding rearm_store
    rearm_store-Inv is_rearm d i = ground (arith, rearm_cpu-Inv d i)

    Inv-same :
        (d d' : Driver K)
        → (d'.life ≡ d.life)
          × (d'.works ≡ d.works)
          × (d'.cpu ≡ d.cpu)
          × (d'.mailmsg_user_removing ≡ d.mailmsg_user_removing)
        → Inv d
        → Inv d'
    Inv-same d d' (life, works, cpu, removing) i = record {
      facts = record {
        present = removing ∙ i.facts.present;
        peer =
            subst (λ l. has_peer l.mailmsg_state ≡ true → l.peer_generation ≡ l.session_generation)
              (sym life) i.facts.peer;
        attempted =
            subst₂ (λ l c. is_unarmed l.mailmsg_state ≡ false → c.cpu_on_attempted ≡ true)
              (sym life) (sym cpu) i.facts.attempted;
        epoch =
            subst (λ l. is_unarmed l.mailmsg_state ≡ false → l.session_generation ≢ 0) (sym life)
              i.facts.epoch;
      };
      armed =
          subst₂
            (λ l w. is_waiting l.mailmsg_state ≡ true → is_some w.lifecycle_timeout_work ≡ true)
            (sym life) (sym works) i.armed;
      watched =
          subst₂ (λ l w. is_watched l.mailmsg_state ≡ true → is_some w.affinity_work ≡ true)
            (sym life) (sym works) i.watched;
    }

    -- A preflight changes the memory and the world only.
    pub preflight_rings-life :
        (ops : MemoryOps (Wire K)) (left priority : ℕ) (d : Driver K)
        → let d' = (preflight_rings p ops left priority d).1 in
          (d'.life ≡ d.life)
          × (d'.works ≡ d.works)
          × (d'.cpu ≡ d.cpu)
          × (d'.mailmsg_user_removing ≡ d.mailmsg_user_removing)
    unfolding preflight_rings reverse_pending forward_pending
    preflight_rings-life ops zero priority d = (refl, refl, refl, refl)
    preflight_rings-life ops (suc left) priority d = ground (
      arith,
      preflight_rings-life ops left (priority + 1)
          (forward_pending p ops priority (reverse_pending priority d).1).1,
    )

    request_stop-Inv :
        (d : Driver K)
        → d.life.mailmsg_state ≡ SessionState.active
        → Inv d
        → Inv (request_stop p d).1
    unfolding request_stop enter_stopping send_stop abandon_stop await_reply
    request_stop-Inv d live i = ground arith

    pub stop_preflight_locked-life :
        (ops : MemoryOps (Wire K)) (d : Driver K)
        → let d' = (stop_preflight_locked p ops d).1 in
          (d'.life ≡ d.life)
          × (d'.works ≡ d.works)
          × (d'.cpu ≡ d.cpu)
          × (d'.mailmsg_user_removing ≡ d.mailmsg_user_removing)
    unfolding stop_preflight_locked preflight_verdict
    stop_preflight_locked-life ops d = ground (arith, preflight_rings-life ops 4 0 d)

    pub stop_store-Inv :
        (ops : MemoryOps (Wire K)) (is_stop : Bool) (d : Driver K)
        → Inv d
        → Inv (stop_store p ops is_stop d).1
    unfolding stop_store Kept
    stop_store-Inv ops is_stop d i =
        let same = stop_preflight_locked-life ops d in
        let (ret, checked) = stop_preflight_locked p ops d in
        let i' = Inv-same d checked same i in
        let state = d.life.mailmsg_state in
        if_both Kept (not is_stop) (Errno.einval, d) _ (λ h. i)
          (λ h.
            if_both Kept (state ==state SessionState.offline) (Errno.enolink, d) _ (λ h. i)
              (λ h.
                if_both Kept (not (state ==state SessionState.active)) (Errno.ebusy, d) _ (λ h. i)
                  (λ live.
                    if_both Kept (is_nonzero ret) (ret, checked) (request_stop p checked) (λ h. i')
                      (λ clear.
                        request_stop-Inv checked
                          (ap (λ (l : Lifecycle). l.mailmsg_state) same.0 ∙ is_active state live)
                          i'))))
