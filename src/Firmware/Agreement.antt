-- ===== src/Firmware/Agreement.antt =====
-- What CPU3 announces and answers is what the Linux driver waits for.
use lzamp.Base.{[], ◌∷◌, ◌++◌, ◌⊎◌, ℕ, ◌≡◌, Bool, true, false}
use lzamp.Protocol.{Message}
use lzamp.Endpoint.State.{Direction}
use lzamp.Protocol.MessageType
use lzamp.Endpoint.Outgoing.{queued}
use lzamp.Driver.State.{SessionState, Platform, Driver}
use lzamp.Driver.Control.{accept_frame}
use lzamp.Firmware.State.{Firmware}

module _ {W K : Type 0} (f : Firmware W) (d : Driver K) where
  abbrev pub generation : ℕ
  generation = f.host.endpoint.generation

-- A send of CPU3 adds `m` to the waiting frames of priority 0, or adds nothing and says so.
abbrev pub Adds : {W : Type 0} → Firmware W → Message → Bool × Firmware W → Type 0
Adds f m (told, g) =
    (queued Direction.cpu3_to_linux 0 g.host.memory
      ≡ queued Direction.cpu3_to_linux 0 f.host.memory ++ (m ∷ []))
    ⊎ ((told ≡ false)
        × (queued Direction.cpu3_to_linux 0 g.host.memory
            ≡ queued Direction.cpu3_to_linux 0 f.host.memory))

-- The Linux driver in STARTING takes `m` for the opening of its session, exactly if `here` holds.
abbrev pub Opens : {K : Type 0} → Message → Driver K → Platform K → Bool → Type 0
Opens m d p here =
    let (d', again) = accept_frame p m d in
    ((here ≡ true) × (d'.life.mailmsg_state ≡ SessionState.active) × (again ≡ false))
    ⊎ ((here ≡ false) × (d' ≡ d) × (again ≡ true))

-- The Linux driver in STOPPING takes `m` for the answer to its stop, exactly if `here` holds; it
-- goes on waiting for CPU3 to go off, or is back in ACTIVE.
abbrev pub Answers : {K : Type 0} → Message → Driver K → Platform K → SessionState → Bool → Type 0
Answers m d p after here =
    let (d', again) = accept_frame p m d in
    ((here ≡ true)
      × (d'.life.mailmsg_state ≡ after)
      × (d'.life.stop_reply_type ≡ m.type)
      × (again ≡ false))
    ⊎ ((here ≡ false) × (d' ≡ d) × (again ≡ true))
