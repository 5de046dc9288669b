-- ===== src/Endpoint/Enqueue.antt =====
-- The two outcomes of the push inside `mailmsg_endpoint_send`, as one equation.
use lzamp.Base.{ℕ, ◌≡◌, refl, Option, List, if◌then◌else◌}
use lzamp.Base.Int.{is_nonzero}
use lzamp.Endpoint.Send.{announce, push_message, refuse, enqueue}
use lzamp.Endpoint.State.{Direction, MemoryOps, Host}

pub enqueue_lem :
    {W : Type 0} (d : Direction) (ops : MemoryOps W) (priority type : ℕ) (payload : Option (List ℕ))
    (size : ℕ) (h : Host W)
    → let pushed = push_message d ops priority type payload size h in
      enqueue d ops priority type payload size h ≡ (
        if is_nonzero pushed.0
        then refuse priority pushed.0 pushed.1
        else announce d ops priority pushed.1.endpoint.next_sequence pushed.1)
unfolding enqueue
enqueue_lem d ops priority type payload size h = refl
