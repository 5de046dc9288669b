-- ===== src/Driver/Start.antt =====
-- A start opens a new session.
use lzamp.Base.{
  zero, suc, length, replicate, get_or, subst, ℕ, ◌≡◌, ◌≢◌, ◌<◌, ◌^◌, refl, sym, ap, ◌∙◌, Bool,
  false, not, arith, if_both, ◌==◌,
}
use lzamp.Base.Int.{ℤ, pos, ◌==ℤ◌, is_nonzero}
use lzamp.Endpoint.{bind, bind_to, bound_endpoint, is_other_protocol}
use lzamp.Endpoint.State.{Header, Shared, Direction, ring_of, zero_ring, MemoryOps}
use lzamp.Protocol.{zero_message}
use lzamp.Driver.Errno
use lzamp.Driver.State.{SessionState, Affinity, Platform, Wire, Driver}
use lzamp.Driver.Doorbell.{linux_notify}
use lzamp.Driver.Control.{mark_offline_locked}
use lzamp.Driver.Watch.{refresh_affinity_locked, psci_off}
use lzamp.Driver.Admin.{next_generation, fresh_shared, bind_session, launch, start_cpu, start_store}

-- The memory of a session of generation `g` in which nothing was sent: the header, and every ring of
-- both directions with its indices and all its slots zero.
pub record IsBlank (g : ℕ) (s : Shared) : Type 0 where
  pub magic : s.header.magic ≡ 0x4d4d5347
  pub version : s.header.version ≡ 7
  pub generation : s.header.generation ≡ g
  pub four : (length s.linux_to_cpu3 ≡ 4) × (length s.cpu3_to_linux ≡ 4)
  pub idle :
      (d : Direction) (q : ℕ)
      → ((ring_of d q s).producer ≡ 0)
        × ((ring_of d q s).consumer ≡ 0)
        × ((ring_of d q s).slots ≡ replicate 8 zero_message)

-- The session that a start leaves.
pub record Opened {K : Type 0} (p : Platform K) (ops : MemoryOps (Wire K)) (before d : Driver K)
    : Type 0 where
  pub was_off : d.cpu.affinity_state ≡ psci_off
  pub switched_on : d.cpu.cpu_on_ret ≡ pos 0
  pub state : d.life.mailmsg_state ≡ SessionState.starting
  pub epoch : d.life.session_generation ≡ next_generation before.life.session_generation
  pub fresh : d.life.session_generation ≢ before.life.session_generation
  pub no_peer : d.life.peer_generation ≡ 0
  pub bound : d.host.endpoint ≡ bound_endpoint d.life.session_generation ops (linux_notify p) 0
  pub memory : IsBlank d.life.session_generation d.host.memory

next_generation-changes : (g : ℕ) → g < 2 ^ 32 → next_generation g ≢ g
unfolding next_generation
next_generation-changes g lt = ground arith

next_generation-nonzero : (g : ℕ) → (next_generation g == 0) ≡ false
unfolding next_generation
next_generation-nonzero g = ground arith

zero_of_four :
    (q : ℕ)
    → let r = get_or (replicate 4 zero_ring) q zero_ring in
      (r.producer ≡ 0) × (r.consumer ≡ 0) × (r.slots ≡ replicate 8 zero_message)
zero_of_four zero = (refl, refl, refl)
zero_of_four (suc zero) = (refl, refl, refl)
zero_of_four (suc (suc zero)) = (refl, refl, refl)
zero_of_four (suc (suc (suc zero))) = (refl, refl, refl)
zero_of_four (suc (suc (suc (suc q)))) = (refl, refl, refl)

idle_ring_of :
    (g : ℕ) (d : Direction) (q : ℕ)
    → let r = ring_of d q (fresh_shared g) in
      (r.producer ≡ 0) × (r.consumer ≡ 0) × (r.slots ≡ replicate 8 zero_message)
unfolding fresh_shared
idle_ring_of g Direction.linux_to_cpu3 q = zero_of_four q
idle_ring_of g Direction.cpu3_to_linux q = zero_of_four q

fresh_shared-IsBlank : (g : ℕ) → IsBlank g (fresh_shared g)
unfolding fresh_shared
fresh_shared-IsBlank g = record {
  magic = refl;
  version = refl;
  generation = refl;
  four = (refl, refl);
  idle = idle_ring_of g;
}

module _ {K : Type 0} (p : Platform K) (ops : MemoryOps (Wire K)) where
  refresh-generation :
      (d : Driver K)
      → (refresh_affinity_locked p d).1.life.session_generation ≡ d.life.session_generation
  unfolding refresh_affinity_locked mark_offline_locked
  refresh-generation d = ground arith

  bind_session-fresh :
      (d : Driver K)
      → ((h : Header) (w : Wire K) → ops.acquire_header h w ≡ h)
      → let (ret, d') = bind_session p ops d in
        (ret ≡ pos 0)
        × (d'.life.session_generation ≡ next_generation d.life.session_generation)
        × (d'.host.endpoint ≡ bound_endpoint d'.life.session_generation ops (linux_notify p) 0)
        × (d'.host.memory ≡ fresh_shared d'.life.session_generation)
  unfolding bind_session bind bind_to is_other_protocol fresh_shared
  bind_session-fresh d seen = ground (
    arith,
    next_generation-nonzero d.life.session_generation,
    seen (fresh_shared (next_generation d.life.session_generation)).header d.host.world,
  )

  launch-state :
      (d : Driver K)
      → (launch p ops d).0 ≡ pos 0
      → let d' = (launch p ops d).1 in
        (d'.life.mailmsg_state ≡ SessionState.starting)
        × (d'.cpu.cpu_on_ret ≡ pos 0)
        × (d'.life.peer_generation ≡ 0)
  unfolding launch
  launch-state d done = ground arith

  launch-rest :
      (d : Driver K)
      → let d' = (launch p ops d).1 in
        (d'.life.session_generation ≡ d.life.session_generation)
        × (d'.cpu.affinity_state ≡ d.cpu.affinity_state)
        × (d'.host.endpoint ≡ d.host.endpoint)
        × (d'.host.memory ≡ d.host.memory)
  unfolding launch
  launch-rest d = ground arith

  refresh-off :
      (d : Driver K)
      → (refresh_affinity_locked p d).1.cpu.affinity_state ≡ (refresh_affinity_locked p d).0
  unfolding refresh_affinity_locked mark_offline_locked
  refresh-off d = ground arith

  bind_session-cpu : (d : Driver K) → (bind_session p ops d).1.cpu ≡ d.cpu
  unfolding bind_session
  bind_session-cpu d = refl

  abbrev IsOpened : Driver K → ℤ × Driver K → Type 0
  IsOpened d r = r.0 ≡ pos 0 → Opened p ops d r.1

  -- The launch of a session that was just bound.
  launch-Opened :
      (d fresh : Driver K)
      → fresh.life.session_generation ≡ next_generation d.life.session_generation
      → d.life.session_generation < 2 ^ 32
      → fresh.host.endpoint ≡ bound_endpoint fresh.life.session_generation ops (linux_notify p) 0
      → fresh.host.memory ≡ fresh_shared fresh.life.session_generation
      → fresh.cpu.affinity_state ≡ psci_off
      → IsOpened d (launch p ops fresh)
  launch-Opened d fresh epoch lt bound memory off done =
      let (starting, on, alone) = launch-state fresh done in
      let (g, a, e, m) = launch-rest fresh in
      let d' = (launch p ops fresh).1 in
      record {
        was_off = a ∙ off;
        switched_on = on;
        state = starting;
        epoch = g ∙ epoch;
        fresh =
            λ same. next_generation-changes d.life.session_generation lt (sym (g ∙ epoch) ∙ same);
        no_peer = alone;
        bound = e ∙ bound ∙ ap (λ n. bound_endpoint n ops (linux_notify p) 0) (sym g);
        memory =
            subst (IsBlank d'.life.session_generation) (sym (m ∙ memory ∙ ap fresh_shared (sym g)))
              (fresh_shared-IsBlank d'.life.session_generation);
      }

  is_off : (state : ℤ) → not (state ==ℤ psci_off) ≡ false → state ≡ psci_off
  is_off state h = ground arith

  start_cpu-Opened :
      (d : Driver K)
      → ((h : Header) (w : Wire K) → ops.acquire_header h w ≡ h)
      → d.life.session_generation < 2 ^ 32
      → IsOpened d (start_cpu p ops d)
  unfolding start_cpu
  start_cpu-Opened d seen lt =
      let (state, sampled) = refresh_affinity_locked p d in
      let (ret, fresh) = bind_session p ops sampled in
      let (ok, epoch, bound, memory) = bind_session-fresh sampled seen in
      if_both (IsOpened d) (not (state ==ℤ psci_off)) (Errno.ebusy, sampled) _
        (λ h done. ground arith)
        (λ off.
          if_both (IsOpened d) (is_nonzero ret) (Errno.eproto, fresh) (launch p ops fresh)
            (λ h done. ground arith)
            (λ h.
              launch-Opened d fresh (epoch ∙ ap next_generation (refresh-generation d)) lt bound
                memory
                (ap (λ (c : Affinity). c.affinity_state) (bind_session-cpu sampled)
                  ∙ refresh-off d
                  ∙ is_off state off)))

  -- A start that reports success has opened a new session: CPU3 was
  -- off, CPU_ON succeeded, the state is STARTING, the
  -- session generation is the next one after the old and differs from it, no peer is known, the
  -- endpoint is bound to the new generation as Linux's side with the doorbell of this driver, and the
  -- shared memory has the header of that generation and four rings for each direction, their
  -- indices and all their slots zero.
  pub start_store-Opened :
      (is_start : Bool) (d : Driver K)
      → ((h : Header) (w : Wire K) → ops.acquire_header h w ≡ h)
      → d.life.session_generation < 2 ^ 32
      → (start_store p ops is_start d).0 ≡ pos 0
      → Opened p ops d (start_store p ops is_start d).1
  unfolding start_store
  start_store-Opened is_start d seen lt done = ground (arith, start_cpu-Opened d seen lt)
