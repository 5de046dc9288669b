-- ===== src/Endpoint/Examples.antt =====
-- Runs of an endpoint at concrete inputs.
use lzamp.Base.{
  ℕ, zero, suc, ◌≡◌, ◌≢◌, ◌<◌, ◌⊎◌, refl, false, true, Option, some, List, [], ◌∷◌, arith, length,
  replicate,
}
use lzamp.Base.Int.{pos, is_nonzero}
use lzamp.Protocol.{Message, zero_message, protocol_magic, protocol_version}
use lzamp.Protocol.RingResult
use lzamp.Ring.{
  is_bad_header, push, offer_frame, store_frame, fill_slot, commit_slot, advance_producer, count,
}
use lzamp.Ring.Queue.{committed}
use lzamp.Ring.Invariant.{IsValid}
use lzamp.Ring.Intact.{IsIntact, committed-IsIntact}
use lzamp.Ring.Fixture.{Still, still_ops, frame_of}
use lzamp.Notify.{Backend, notify}
use lzamp.Endpoint.{
  session_valid, check_session, session_with, bind, bind_to, is_other_protocol, next_sequence,
  stats_of,
}
use lzamp.Endpoint.Result
use lzamp.Endpoint.State.{
  Shared, Direction, MemoryOps, Endpoint, Host, SendResult, zero_ring, zero_stats, ring_of, lane,
}
use lzamp.Endpoint.Send.{
  send, no_result, send_via, enqueue, push_message, announce, refuse, build_message, is_bad_request,
  copy_bytes,
}
use lzamp.Endpoint.Receive.{receive, has_received}
use lzamp.Endpoint.Outgoing.{queued, SendEffect, message_of, send-effect}
use lzamp.Endpoint.Incoming.{ReceiveEffect, receive-effect}
use lzamp.Endpoint.RoundTrip.{Carries, receive-send}
use lzamp.Endpoint.Session.{bind-session_valid, BindAnswer, bind_refuses}
use lzamp.Endpoint.Sequence.{sequence_after, sequence_after_distinct}
use lzamp.Endpoint.Rejection.{IsUntouched, closed_session}
use lzamp.Endpoint.Counters.Stats.{IsSane}
use lzamp.Endpoint.Counters.{IsCounted, send-IsCounted}
use lzamp.Endpoint.Counters.Received.{Tallies, receive-tallies}

abbrev bus : MemoryOps Still
bus = record { acquire_header = λ h w. h; rings = λ d p. still_ops }

abbrev bell : Backend Still
bell = λ priority w. (pos 0, w)

abbrev blank : Shared
blank = record {
  header = record { magic = protocol_magic; version = protocol_version; generation = 9 };
  linux_to_cpu3 = replicate 4 zero_ring;
  cpu3_to_linux = replicate 4 zero_ring;
}

abbrev linux_endpoint : Endpoint Still
linux_endpoint = record {
  shared = true;
  tx = some Direction.linux_to_cpu3;
  rx = some Direction.cpu3_to_linux;
  memory_ops = some bus;
  notify = some bell;
  next_sequence = 4;
  generation = 9;
  stats = replicate 4 zero_stats;
}

abbrev cpu3_endpoint : Endpoint Still
cpu3_endpoint = record linux_endpoint {
  tx = some Direction.cpu3_to_linux;
  rx = some Direction.linux_to_cpu3;
}

abbrev linux_host : Host Still
linux_host = record { endpoint = linux_endpoint; memory = blank; world = tt }

abbrev two_bytes : List ℕ
two_bytes = 7 ∷ 8 ∷ []

-- The peer, with the memory that a send leaves.
abbrev cpu3_host : Host Still
cpu3_host = record {
  endpoint = cpu3_endpoint;
  memory = (send 1 3 (some two_bytes) 2 no_result linux_host).2.memory;
  world = tt;
}

-- The memory with one frame in a ring.
abbrev loaded : Host Still
loaded = record linux_host {
  memory = record blank {
    cpu3_to_linux =
        zero_ring
        ∷ record {
          producer = 1;
          consumer = 0;
          slots = committed (frame_of 5) ∷ replicate 7 zero_message;
        }
        ∷ zero_ring
        ∷ zero_ring
        ∷ [];
  };
}

zero_ring-IsValid : IsValid zero_ring
zero_ring-IsValid = record { eight = refl; producer_in = ground arith; consumer_in = ground arith }

blank_accepted : is_nonzero (session_valid linux_endpoint blank tt).0 ≡ false
unfolding session_valid session_with check_session is_other_protocol
blank_accepted = refl

loaded_open : is_nonzero (session_valid loaded.endpoint loaded.memory tt).0 ≡ false
unfolding session_valid session_with check_session is_other_protocol
loaded_open = refl

send-effect_example :
    SendEffect Direction.linux_to_cpu3 1
      (message_of linux_host 3 (some two_bytes) 2)
      (queued Direction.linux_to_cpu3 1 blank)
      (send 1 3 (some two_bytes) 2 no_result linux_host)
send-effect_example =
    send-effect Direction.linux_to_cpu3 bus 1 (λ f r w. refl) 3 (some two_bytes) 2 no_result
      linux_host refl refl (ground arith) zero_ring-IsValid

frame_of-IsIntact : IsIntact (committed (frame_of 5))
unfolding is_bad_header
frame_of-IsIntact = committed-IsIntact (frame_of 5) refl

one_ring-IsValid : IsValid (ring_of Direction.cpu3_to_linux 1 loaded.memory)
one_ring-IsValid = record { eight = refl; producer_in = ground arith; consumer_in = ground arith }

receive-effect_example :
    ReceiveEffect Direction.cpu3_to_linux 1 9
      (committed (frame_of 5))
      []
      (receive 1 zero_message loaded)
receive-effect_example =
    receive-effect Direction.cpu3_to_linux bus 1 (λ f r w. refl) (committed (frame_of 5)) []
      frame_of-IsIntact zero_message loaded refl refl (ground arith) (ground arith) loaded_open
      one_ring-IsValid refl

bind-ok_at : (bind linux_endpoint blank (some bus) (some bell) 0 tt).0 ≡ Result.ok
unfolding bind bind_to is_other_protocol
bind-ok_at = refl

-- The header of a later session.
abbrev later : Shared
later = record blank { header = record blank.header { generation = 10 } }

bind-session_valid_example :
    let e' = (bind linux_endpoint blank (some bus) (some bell) 0 tt).1 in
    let result = (session_valid e' later tt).0 in
    ((is_other_protocol later.header ≡ true) × (result ≡ Result.protocol_mismatch))
    ⊎ ((is_other_protocol later.header ≡ false)
        × (((later.header.generation ≡ blank.header.generation) × (result ≡ Result.ok))
            ⊎ ((later.header.generation ≢ blank.header.generation)
                × (result ≡ Result.stale_session))))
bind-session_valid_example =
    bind-session_valid bus bell linux_endpoint blank 0 tt bind-ok_at later tt

abbrev bad_role : ℕ
bad_role = 2

bind_refuses_example :
    BindAnswer
      (some bus)
      (some bell)
      bad_role
      (λ o. o.acquire_header later.header tt)
      linux_endpoint
      (
        (bind linux_endpoint later (some bus) (some bell) bad_role tt).0,
        (bind linux_endpoint later (some bus) (some bell) bad_role tt).1,
      )
bind_refuses_example = bind_refuses (some bus) (some bell) linux_endpoint later bad_role tt

sequence_after_distinct_example : sequence_after 1 4294967295 ≢ sequence_after 3 4294967295
sequence_after_distinct_example =
    sequence_after_distinct 4294967295 0 2 (ground arith) (ground arith) (ground arith)

-- The endpoint of generation 9 on the memory of generation 10.
abbrev stale_host : Host Still
stale_host = record linux_host { memory = later }

later_refused : is_nonzero (session_valid linux_endpoint later tt).0 ≡ true
unfolding session_valid session_with check_session is_other_protocol
later_refused = refl

closed_session_example :
    ((type : ℕ) (payload : Option (List ℕ)) (length : ℕ) (result : SendResult)
      → let (ret, result', h') = send 1 type payload length result stale_host in
        (is_nonzero ret ≡ true) × IsUntouched stale_host h')
    × ((out : Message)
        → let (ret, message, h') = receive 1 out stale_host in
          (is_nonzero ret ≡ true) × (message ≡ out) × IsUntouched stale_host h')
    × ((has_received 1 stale_host).0 ≡ RingResult.invalid)
closed_session_example = closed_session stale_host later_refused 1

zero_stats-IsSane : IsSane zero_stats
zero_stats-IsSane = record { balanced = refl; shallow = ground arith }

all-IsSane : (q : ℕ) → IsSane (stats_of q linux_endpoint)
all-IsSane zero = zero_stats-IsSane
all-IsSane (suc zero) = zero_stats-IsSane
all-IsSane (suc (suc zero)) = zero_stats-IsSane
all-IsSane (suc (suc (suc zero))) = zero_stats-IsSane
all-IsSane (suc (suc (suc (suc q)))) = zero_stats-IsSane

linux_endpoint-IsCounted : IsCounted linux_endpoint
linux_endpoint-IsCounted = record { four = refl; sane = all-IsSane }

send-IsCounted_example : IsCounted (send 1 3 (some two_bytes) 2 no_result linux_host).2.endpoint
send-IsCounted_example =
    send-IsCounted 1 3 (some two_bytes) 2 no_result linux_host linux_endpoint-IsCounted

receive-tallies_example :
    let r = receive 1 zero_message loaded in
    Tallies 1 r.0 linux_endpoint r.2.endpoint × IsCounted r.2.endpoint
receive-tallies_example =
    receive-tallies Direction.cpu3_to_linux bus 1 zero_message loaded refl refl (ground arith)
      loaded_open linux_endpoint-IsCounted

sent_ok : is_nonzero (send 1 3 (some two_bytes) 2 no_result linux_host).0 ≡ false
unfolding send send_via enqueue push_message announce refuse build_message is_bad_request copy_bytes
    push offer_frame store_frame is_bad_header fill_slot commit_slot advance_producer session_valid
    session_with check_session is_other_protocol next_sequence count notify
sent_ok = refl

sent_ring-IsValid : IsValid (ring_of Direction.linux_to_cpu3 1 cpu3_host.memory)
unfolding send send_via enqueue push_message announce refuse build_message is_bad_request copy_bytes
    push offer_frame store_frame is_bad_header fill_slot commit_slot advance_producer session_valid
    session_with check_session is_other_protocol next_sequence count notify
sent_ring-IsValid = record { eight = refl; producer_in = ground arith; consumer_in = ground arith }

sent_lane : 1 < length (lane Direction.linux_to_cpu3 cpu3_host.memory)
unfolding send send_via enqueue push_message announce refuse build_message is_bad_request copy_bytes
    push offer_frame store_frame is_bad_header fill_slot commit_slot advance_producer session_valid
    session_with check_session is_other_protocol next_sequence count notify
sent_lane = ground arith

cpu3_open : is_nonzero (session_valid cpu3_endpoint cpu3_host.memory tt).0 ≡ false
unfolding send send_via enqueue push_message announce refuse build_message is_bad_request copy_bytes
    push offer_frame store_frame is_bad_header fill_slot commit_slot advance_producer session_valid
    session_with check_session is_other_protocol next_sequence count notify
cpu3_open = refl

receive-send_example :
    let sent = send 1 3 (some two_bytes) 2 no_result linux_host in
    let got = receive 1 zero_message cpu3_host in
    (got.0 ≡ Result.ok)
    × Carries 3 two_bytes 2 sent.1.sequence 9 got.1
    × (queued Direction.linux_to_cpu3 1 got.2.memory ≡ [])
receive-send_example =
    receive-send Direction.linux_to_cpu3 bus bus 1 (λ f r w. refl) (λ f r w. refl) 3 two_bytes 2
      no_result zero_message linux_host cpu3_host refl refl refl refl (ground arith)
      zero_ring-IsValid refl (ground arith) (ground arith) sent_ok (ground arith) sent_lane refl
      sent_ring-IsValid cpu3_open refl
