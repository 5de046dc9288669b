-- ===== src/Firmware/Announce.antt =====
-- The announcement of a session.
use lzamp.Base.{◌⊎◌, false, some, ℕ, zero, suc, ◌≡◌, true}
use lzamp.Firmware.State.{Board, Firmware}
use lzamp.Base.Int.{is_nonzero}
use lzamp.Protocol.MessageType
use lzamp.Notify.{notify_accepted}
use lzamp.Endpoint.Send.{send, no_result}
use lzamp.Firmware.Reply.{announcement, cpu3_notify, service_session_ready}

module _ {W : Type 0} (b : Board W) where
  -- The main loop calls the service again and again.
  unfoldable pub announce : ℕ → Firmware W → Firmware W
  unfolding service_session_ready
  announce zero f = f
  announce (suc n) f = announce n (service_session_ready b f)

  -- What a call may do, by whether the frame was committed before it.
  pub record Announced (f g : Firmware W) : Type 0 where
    pub never_again :
        f.session_ready_committed ≡ true
        → (g.session_ready_committed ≡ true)
          × (g.host.memory ≡ f.host.memory)
          × (g.host.endpoint ≡ f.host.endpoint)
    pub settled :
        f.session_ready_published ≡ true
        → (g.session_ready_published ≡ true) × (g.host.world ≡ f.host.world)
    pub in_order :
        (f.session_ready_published ≡ true → f.session_ready_committed ≡ true)
        → g.session_ready_published ≡ true
        → g.session_ready_committed ≡ true

  -- The call in the state `e` has its doorbell accepted: the one that is rung again for a frame
  -- committed before, or the one of the frame that this call commits.
  abbrev pub IsAccepted : Firmware W → Type 0
  IsAccepted e =
      ((e.session_ready_committed ≡ true)
        × (notify_accepted (cpu3_notify b 0 e.host.world).0 ≡ true))
      ⊎ ((e.session_ready_committed ≡ false)
          × (let (ret, result, h) =
                send 0 MessageType.session_ready (some (announcement e.host.endpoint.generation)) 8
                  no_result e.host in
              (is_nonzero ret ≡ false) × (notify_accepted result.notify_result ≡ true)))
