-- ===== src/Firmware/Legacy.antt =====
-- zephyr/app/src/main.c: the command line of the control page, which the loop of main polls, and
-- the loop's heartbeat. A line is read and published at once.
use lzamp.Base.{
  ◌≡◌, ◌∙◌, ◌%◌, arith, zero, suc, refl, ℕ, ◌<◌, ◌+◌, ◌-◌, ◌^◌, Bool, false, not, ◌&&◌, ◌==◌,
  if◌then◌else◌, bit_and, bit_or, u32,
}
use lzamp.Base.Int.{ℤ, pos, negsuc}
use lzamp.Firmware.State.{Board, Firmware}
use lzamp.Firmware.Reply.{mbox_b2a_status, mbox_b2a_cmd, mbox_b2a_dat, service_session_ready}
use lzamp.Firmware.Serve.{observe}

-- `struct amp_payload_line`
pub record PayloadLine : Type 0 where
  pub command : ℕ
  pub value : ℕ
  pub status : ℤ
  pub result : ℕ

-- `struct amp_commit_line`
pub record CommitLine : Type 0 where
  pub sequence : ℕ
  pub sequence_inv : ℕ

-- The four lines, and the variables of main.
pub record Desk : Type 0 where
  pub request : PayloadLine
  pub request_commit : CommitLine
  pub response : PayloadLine
  pub response_commit : CommitLine
  pub last_sequence : ℕ
  pub heartbeat : ℕ
  pub spin : ℕ

abbrev pub b2a_ack_command : ℕ
b2a_ack_command = 0xb2a00001

abbrev pub complement64 : ℕ → ℕ
complement64 word = 2 ^ 64 - 1 - word

unfoldable pub is_new_request : Desk → Bool
is_new_request d =
    let sequence = d.request_commit.sequence in
    not (sequence == 0)
    && (not (sequence == d.last_sequence) && d.request_commit.sequence_inv == complement64 sequence)

unfoldable pub answer : PayloadLine → PayloadLine
answer request = record {
  command = request.command;
  value = request.value;
  status = if request.command == 1 then pos 0 else negsuc 0;
  result = if request.command == 1 then u32 (request.value + 1) else 0;
}

unfoldable pub respond : Desk → Desk
unfolding answer
respond d = record d {
  response = answer d.request;
  response_commit = record {
    sequence = d.request_commit.sequence;
    sequence_inv = complement64 d.request_commit.sequence;
  };
  last_sequence = d.request_commit.sequence;
}

-- The lines and the sequence number, without the counters of the heartbeat.
pub record Same (d e : Desk) : Type 0 where
  pub same_request : e.request ≡ d.request
  pub same_request_commit : e.request_commit ≡ d.request_commit
  pub same_response : e.response ≡ d.response
  pub same_commit : e.response_commit ≡ d.response_commit
  pub same_last : e.last_sequence ≡ d.last_sequence

-- The response's commit is whole and answers the last sequence number taken.
pub record IsWhole (d : Desk) : Type 0 where
  pub whole : d.response_commit.sequence_inv ≡ complement64 d.response_commit.sequence
  pub answered : d.response_commit.sequence ≡ d.last_sequence
  pub beating : d.spin < 1000000

module _ {W : Type 0} (b : Board W) where
  unfoldable pub send_b2a_ack : ℕ → Firmware W → Firmware W
  unfolding observe
  send_b2a_ack sequence f =
      let w₁ = b.io.write32 b2a_ack_command (b.mailbox + mbox_b2a_cmd 0) f.host.world in
      let w₂ = b.io.write32 sequence (b.mailbox + mbox_b2a_dat 0) w₁ in
      let (status, w₃) = b.io.read32 (b.mailbox + mbox_b2a_status) w₂ in
      observe 0x42324154 status b2a_ack_command sequence
        (record f { host = record f.host { world = w₃ } })

  unfoldable pub poll_request : Desk → Firmware W → Desk × Firmware W
  unfolding is_new_request respond send_b2a_ack
  poll_request d f =
      if is_new_request d
      then (respond d, send_b2a_ack (u32 d.request_commit.sequence) f)
      else (d, f)

  -- `if (++spin == 1000000U)`
  unfoldable pub beat : Desk → Firmware W → Desk × Firmware W
  beat d f =
      let spin = u32 (d.spin + 1) in
      if spin == 1000000
      then (
        record d { spin = 0; heartbeat = (d.heartbeat + 1) % 2 ^ 64 },
        record f {
          lines = record f.lines { mark = bit_or 0x48420000 (bit_and d.heartbeat 0xffff) };
        },
      )
      else (record d { spin = spin }, f)

  unfoldable pub main_round : Desk → Firmware W → Desk × Firmware W
  unfolding poll_request beat
  main_round d f = let (d₁, f₁) = poll_request d f in beat d₁ (service_session_ready b f₁)

  unfoldable pub main_rounds : ℕ → Desk → Firmware W → Desk × Firmware W
  unfolding main_round
  main_rounds zero d f = (d, f)
  main_rounds (suc n) d f = let (d₁, f₁) = main_round d f in main_rounds n d₁ f₁

  -- A polled request is not new again.
  main_round-is_new_request :
      (d : Desk) (f : Firmware W) → is_new_request (main_round d f).0 ≡ false
  unfolding main_round poll_request beat respond is_new_request
  main_round-is_new_request d f = ground arith

  main_round-Same :
      (d : Desk) (f : Firmware W) → is_new_request d ≡ false → Same d (main_round d f).0
  unfolding main_round poll_request beat is_new_request
  main_round-Same d f old = ground arith

  old_rounds-Same :
      (n : ℕ) (d : Desk) (f : Firmware W) → is_new_request d ≡ false → Same d (main_rounds n d f).0
  unfolding main_rounds
  old_rounds-Same zero d f old = record {
    same_request = refl;
    same_request_commit = refl;
    same_response = refl;
    same_commit = refl;
    same_last = refl;
  }
  old_rounds-Same (suc n) d f old =
      let (e, g) = main_round d f in
      let one = main_round-Same d f old in
      let rest = old_rounds-Same n e g (main_round-is_new_request d f) in
      record {
        same_request = rest.same_request ∙ one.same_request;
        same_request_commit = rest.same_request_commit ∙ one.same_request_commit;
        same_response = rest.same_response ∙ one.same_response;
        same_commit = rest.same_commit ∙ one.same_commit;
        same_last = rest.same_last ∙ one.same_last;
      }

  -- However often the main loop polls the command line after the round that meets it, while Linux
  -- leaves it alone, the request, the response, their commits and the last sequence number stay
  -- what that round made them, and the request is not new again.
  pub main_rounds-Same :
      (n : ℕ) (d : Desk) (f : Firmware W)
      → let (e, g) = main_round d f in Same e (main_rounds n e g).0 × (is_new_request e ≡ false)
  main_rounds-Same n d f =
      let (e, g) = main_round d f in
      let old = main_round-is_new_request d f in (old_rounds-Same n e g old, old)

  main_round-IsWhole : (d : Desk) (f : Firmware W) → IsWhole d → IsWhole (main_round d f).0
  unfolding main_round poll_request beat respond is_new_request
  main_round-IsWhole d f d-IsWhole =
      let whole = d-IsWhole.whole in
      let answered = d-IsWhole.answered in let beating = d-IsWhole.beating in ground arith
