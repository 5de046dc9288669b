-- ===== src/Protocol/RingResult.antt =====
-- `enum mailmsg_ring_result` of mailmsg/mailmsg.h.
use lzamp.Base.Int.{ℤ, pos, negsuc}

abbrev pub ok : ℤ
ok = pos 0

abbrev pub empty : ℤ
empty = negsuc 0

abbrev pub full : ℤ
full = negsuc 1

abbrev pub incomplete : ℤ
incomplete = negsuc 2

abbrev pub bad_crc : ℤ
bad_crc = negsuc 3

abbrev pub invalid : ℤ
invalid = negsuc 4
