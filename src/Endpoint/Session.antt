-- ===== src/Endpoint/Session.antt =====
-- A bind opens a session, and what later changes of the shared header do to it.
use lzamp.Base.{
  ℕ, ◌<◌, ◌≤◌, ◌≡◌, ◌≢◌, ◌⊎◌, true, false, some, none, Option, refl, if◌then◌else◌, ◌==◌, arith,
  Bool-cases, inl, inr,
}
use native.Mathlib.Decide.{ℕ_discrete}
use lzamp.Protocol.{protocol_magic, protocol_version}
use lzamp.Notify.{Backend}
use lzamp.Endpoint.{bind, bind_to, bound_endpoint, session_valid, check_session, is_other_protocol}
use lzamp.Endpoint.Result
use lzamp.Base.Int.{ℤ}
use lzamp.Endpoint.State.{Shared, Header, Direction, MemoryOps, Endpoint}

-- What a bind answers, and what it leaves of the endpoint `e`.
abbrev pub BindAnswer :
    {W : Type 0}
    → Option (MemoryOps W)
    → Option (Backend W)
    → ℕ
    → (MemoryOps W → Header)
    → Endpoint W
    → ℤ × Endpoint W
    → Type 0
BindAnswer none backend role seen e r = (r.0 ≡ Result.invalid) × (r.1 ≡ e)
BindAnswer (some ops) none role seen e r = (r.0 ≡ Result.invalid) × (r.1 ≡ e)
BindAnswer (some ops) (some backend) role seen e r =
    ((1 < role) × (r.0 ≡ Result.invalid) × (r.1 ≡ e))
    ⊎ ((role ≤ 1)
        × ((((seen ops).magic ≢ protocol_magic) ⊎ ((seen ops).version ≢ protocol_version))
            × (r.0 ≡ Result.protocol_mismatch)
            × (r.1 ≡ e)))
    ⊎ ((role ≤ 1)
        × ((seen ops).magic ≡ protocol_magic)
        × ((seen ops).version ≡ protocol_version)
        × ((seen ops).generation ≡ 0)
        × (r.0 ≡ Result.stale_session)
        × (r.1 ≡ e))
    ⊎ ((role ≤ 1)
        × ((seen ops).magic ≡ protocol_magic)
        × ((seen ops).version ≡ protocol_version)
        × ((seen ops).generation ≢ 0)
        × (r.0 ≡ Result.ok)
        × (r.1.generation ≡ (seen ops).generation)
        × (r.1.next_sequence ≡ 0)
        × (r.1.memory_ops ≡ some ops)
        × (r.1.notify ≡ some backend)
        × (r.1.tx ≡ some (if role == 0 then Direction.linux_to_cpu3 else Direction.cpu3_to_linux))
        × (r.1.rx ≡ some (if role == 0 then Direction.cpu3_to_linux else Direction.linux_to_cpu3)))

module _ {W : Type 0} (ops : MemoryOps W) (backend : Backend W) (e : Endpoint W) (s : Shared)
    (role : ℕ) (w : W) where
  bind-ok :
      (bind e s (some ops) (some backend) role w).0 ≡ Result.ok
      → let seen = ops.acquire_header s.header w in
        (is_other_protocol seen ≡ false)
        × (seen.generation ≢ 0)
        × ((bind e s (some ops) (some backend) role w).1
            ≡ bound_endpoint seen.generation ops backend role)
  unfolding bind_to bind
  bind-ok done = ground arith

  bound-session_valid :
      (generation : ℕ) (s' : Shared) (w' : W)
      → generation ≢ 0
      → let seen = ops.acquire_header s'.header w' in
        let result = (session_valid (bound_endpoint generation ops backend role) s' w').0 in
        ((is_other_protocol seen ≡ true) × (result ≡ Result.protocol_mismatch))
        ⊎ ((is_other_protocol seen ≡ false)
            × (((seen.generation ≡ generation) × (result ≡ Result.ok))
                ⊎ ((seen.generation ≢ generation) × (result ≡ Result.stale_session))))
  unfolding session_valid bound_endpoint check_session
  bound-session_valid generation s' w' ne =
      let seen = ops.acquire_header s'.header w' in
      elim (Bool-cases (is_other_protocol seen)) [
        | inl other ↦ inl (other, ground arith)
        | inr same ↦ elim (ℕ_discrete seen.generation generation) [
          | yes e ↦ inr (same, inl (e, ground arith))
          | no differs ↦ inr (same, inr (differs, ground arith))
        ]
      ]

  -- After `mailmsg_endpoint_bind` returned OK, `mailmsg_endpoint_session_valid` answers by the
  -- header that it then sees: OK for one of this protocol and of the generation at the bind, a
  -- stale session for one of another generation, a mismatch for one of another protocol.
  pub bind-session_valid :
      (bind e s (some ops) (some backend) role w).0 ≡ Result.ok
      → (s' : Shared) (w' : W)
      → let e' = (bind e s (some ops) (some backend) role w).1 in
        let seen = ops.acquire_header s'.header w' in
        let result = (session_valid e' s' w').0 in
        ((is_other_protocol seen ≡ true) × (result ≡ Result.protocol_mismatch))
        ⊎ ((is_other_protocol seen ≡ false)
            × (((seen.generation ≡ (ops.acquire_header s.header w).generation)
                  × (result ≡ Result.ok))
                ⊎ ((seen.generation ≢ (ops.acquire_header s.header w).generation)
                    × (result ≡ Result.stale_session))))
  bind-session_valid done s' w' =
      let (other, ne, e') = bind-ok done in
      rw e' (bound-session_valid (ops.acquire_header s.header w).generation s' w' ne)

-- `mailmsg_endpoint_bind` with the header `seen` that it acquires, by the code that it returns:
-- INVALID without one of the two tables or for a role that is neither side, a mismatch for another
-- protocol, a stale session for generation 0, and else OK. It leaves the endpoint alone but on OK,
-- where the endpoint has the generation and the tables, drew no sequence yet, and sends on the
-- side of its role and receives on the other.
pub bind_refuses :
    {W : Type 0} (ops : Option (MemoryOps W)) (backend : Option (Backend W)) (e : Endpoint W)
    (s : Shared) (role : ℕ) (w : W)
    → BindAnswer ops backend role
        (λ o. o.acquire_header s.header w)
        e
        ((bind e s ops backend role w).0, (bind e s ops backend role w).1)
unfolding bind bind_to is_other_protocol bound_endpoint
bind_refuses none backend e s role w = (refl, refl)
bind_refuses (some ops) none e s role w = (refl, refl)
bind_refuses (some ops) (some backend) e s role w = ground arith
