-- ===== src/Ring/Queue.antt =====
-- What a ring promises: a first-in first-out queue of at most seven frames.
use lzamp.Base.{◌-◌, Option, none, some, List, [], ◌∷◌, ◌++◌, ◌==◌, if◌then◌else◌, length}
use lzamp.Base.Int.{ℤ}
use lzamp.Protocol.{Message, ring_slots}
use lzamp.Protocol.RingResult
use lzamp.Ring.{is_bad_header, sealed, classify}

-- The frame that stands in the queue for a message.
unfoldable pub committed : Message → Message
committed m = record (sealed m) { commit = m.sequence }

unfoldable pub push : Message → List Message → ℤ × List Message
push m q =
    if is_bad_header m
    then (RingResult.invalid, q)
    else if length q == ring_slots - 1
    then (RingResult.full, q)
    else (RingResult.ok, q ++ (committed m ∷ []))

-- A frame whose commit word is not its sequence stays where it is.
unfoldable pub pop : List Message → ℤ × Option Message × List Message
pop [] = (RingResult.empty, none, [])
pop (m ∷ q) =
    if m.commit == m.sequence then (classify m, some m, q) else (RingResult.incomplete, none, m ∷ q)
