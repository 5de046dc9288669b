-- ===== src/Driver/Invariant.antt =====
-- What the fields of a session hold together, whatever the peer sends.
pub mod Admin
pub mod Machine
pub mod Edges
use lzamp.Base.{
  ℕ, zero, suc, ◌≡◌, ◌≢◌, refl, Bool, true, not, false, Option, none, some, arith, ap, Bool-cases,
  inl, inr, if_both, ◌∙◌, sym, subst,
}
use lzamp.Base.Int.{ℤ}
use lzamp.Protocol.{Message, zero_message}
use lzamp.Endpoint.Receive.{receive}
use lzamp.Driver.State.{SessionState, Platform, Lifecycle, Driver, cancel_timeout}
use lzamp.Driver.Machine.{take_control, take_affinity}
use lzamp.Driver.Control.{
  mark_offline_locked, set_timeout_locked, expire, reject_frame, accept_frame, open_session,
  note_stop_ready, reopen, judge_frame, control_round, control_drain, control_work, is_expired,
}
use lzamp.Driver.Watch.{
  refresh_affinity_locked, count_sample, affinity_work, last_look, lifecycle_timeout_work,
  rx_callback,
}
use lzamp.Driver.Gate.{is_waiting, is_watched}

abbrev pub is_some : {A : Type 0} → Option A → Bool
is_some none = false
is_some (some a) = true

-- The states that only a peer of this session can have led to.
abbrev pub has_peer : SessionState → Bool
has_peer SessionState.active = true
has_peer SessionState.stopping = true
has_peer SessionState.stop_timeout = true
has_peer SessionState.unarmed = false
has_peer SessionState.starting = false
has_peer SessionState.start_timeout = false
has_peer SessionState.offline = false

abbrev pub is_unarmed : SessionState → Bool
is_unarmed SessionState.unarmed = true
is_unarmed SessionState.starting = false
is_unarmed SessionState.start_timeout = false
is_unarmed SessionState.active = false
is_unarmed SessionState.stopping = false
is_unarmed SessionState.stop_timeout = false
is_unarmed SessionState.offline = false

-- The session's own fields.
pub record Facts {K : Type 0} (d : Driver K) : Type 0 where
  pub present : d.mailmsg_user_removing ≡ false
  pub peer :
      has_peer d.life.mailmsg_state ≡ true → d.life.peer_generation ≡ d.life.session_generation
  pub attempted : is_unarmed d.life.mailmsg_state ≡ false → d.cpu.cpu_on_attempted ≡ true
  pub epoch : is_unarmed d.life.mailmsg_state ≡ false → d.life.session_generation ≢ 0

-- With the works that watch over it.
pub record Inv {K : Type 0} (d : Driver K) : Type 0 where
  pub facts : Facts d
  pub armed : is_waiting d.life.mailmsg_state ≡ true → is_some d.works.lifecycle_timeout_work ≡ true
  pub watched : is_watched d.life.mailmsg_state ≡ true → is_some d.works.affinity_work ≡ true

module _ {K : Type 0} where
  pub set_timeout_locked-Inv : (d : Driver K) → Inv d → Inv (set_timeout_locked d)
  unfolding set_timeout_locked expire
  set_timeout_locked-Inv d i = ground arith

  pub mark_offline_locked-Inv : (d : Driver K) → Inv d → Inv (mark_offline_locked d)
  unfolding mark_offline_locked
  mark_offline_locked-Inv d i = ground arith

  -- A round keeps the invariant, and a round that drains on keeps waiting.
  judge_frame-Inv :
      (p : Platform K) (ret : ℤ) (m : Message) (d : Driver K)
      → is_waiting d.life.mailmsg_state ≡ true
      → Inv d
      → Inv (judge_frame p ret m d).0
  unfolding judge_frame reject_frame accept_frame set_timeout_locked expire open_session
      note_stop_ready reopen
  judge_frame-Inv p ret m d waiting i = ground arith

  judge_frame-waiting :
      (p : Platform K) (ret : ℤ) (m : Message) (d : Driver K)
      → is_waiting d.life.mailmsg_state ≡ true
      → (judge_frame p ret m d).1 ≡ true
      → is_waiting (judge_frame p ret m d).0.life.mailmsg_state ≡ true
  unfolding judge_frame reject_frame accept_frame
  judge_frame-waiting p ret m d waiting again = ground arith

  abbrev pub Holds : Option (Driver K) → Type 0
  Holds none = Unit {0}
  Holds (some d) = Inv d

  control_drain-Inv :
      (p : Platform K) (fuel : ℕ) (d : Driver K)
      → is_waiting d.life.mailmsg_state ≡ true
      → Inv d
      → Holds (control_drain p fuel d)
  unfolding control_drain control_round
  control_drain-Inv p zero d waiting i = tt
  control_drain-Inv p (suc fuel) d waiting i =
      let (ret, m, h) = receive 0 zero_message d.host in
      let seen = record d { host = h } in
      let i' : Inv seen = ground arith in
      if_both Holds (judge_frame p ret m seen).1 (control_drain p fuel (judge_frame p ret m seen).0)
        (some (judge_frame p ret m seen).0)
        (λ again.
          control_drain-Inv p fuel (judge_frame p ret m seen).0
            (judge_frame-waiting p ret m seen waiting again)
            (judge_frame-Inv p ret m seen waiting i'))
        (λ stop. judge_frame-Inv p ret m seen waiting i')

  expired-Inv :
      (d : Driver K)
      → is_waiting d.life.mailmsg_state ≡ true
      → Inv d
      → Inv (cancel_timeout (set_timeout_locked d))
  unfolding set_timeout_locked expire
  expired-Inv d waiting i = ground arith

  pub control_work-Inv :
      (p : Platform K) (fuel : ℕ) (d : Driver K) → Inv d → Holds (control_work p fuel d)
  unfolding control_work set_timeout_locked expire
  control_work-Inv p fuel d i =
      if_both Holds (not (is_waiting d.life.mailmsg_state)) (some d) _ (λ idle. i)
        (λ waits.
          if_both Holds (is_expired p d) (some (cancel_timeout (set_timeout_locked d)))
            (control_drain p fuel d) (λ late. expired-Inv d (ground arith) i)
            (λ early. control_drain-Inv p fuel d (ground arith) i))

  pub refresh_affinity_locked-Inv :
      (p : Platform K) (d : Driver K) → Inv d → Inv (refresh_affinity_locked p d).1
  unfolding refresh_affinity_locked mark_offline_locked
  refresh_affinity_locked-Inv p d i = ground arith

  refresh_affinity_locked-Facts :
      (p : Platform K) (d : Driver K) → Facts d → Facts (refresh_affinity_locked p d).1
  unfolding refresh_affinity_locked mark_offline_locked
  refresh_affinity_locked-Facts p d i = ground arith

  -- A sample starts no wait, and leaves the timeout alone where one goes on.
  refresh-waiting :
      (p : Platform K) (d : Driver K)
      → let d' = (refresh_affinity_locked p d).1 in
        is_waiting d'.life.mailmsg_state ≡ true
        → (d'.works ≡ d.works) × (is_waiting d.life.mailmsg_state ≡ true)
  unfolding refresh_affinity_locked mark_offline_locked
  refresh-waiting p d waiting = ground arith

  pub affinity_work-Inv :
      (p : Platform K) (d : Driver K) → Inv d → Inv (affinity_work p (take_affinity d))
  unfolding affinity_work count_sample
  affinity_work-Inv p d i = ground (
    arith,
    refresh_affinity_locked-Facts p (take_affinity d),
    refresh-waiting p (take_affinity d),
  )

  pub lifecycle_timeout_work-Inv :
      (p : Platform K) (d : Driver K) → Inv d → Inv (lifecycle_timeout_work p (cancel_timeout d))
  unfolding lifecycle_timeout_work last_look set_timeout_locked expire
  lifecycle_timeout_work-Inv p d i =
      ground (arith, refresh_affinity_locked-Facts p (cancel_timeout d))

  pub rx_callback-Inv :
      (index : ℕ) (message : Option (ℕ × ℕ)) (d : Driver K)
      → Inv d
      → Inv (rx_callback index message d)
  unfolding rx_callback
  rx_callback-Inv index message d i = ground arith
