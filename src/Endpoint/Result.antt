-- ===== src/Endpoint/Result.antt =====
-- `enum mailmsg_endpoint_result` of mailmsg/mailmsg_endpoint.h.
use lzamp.Base.Int.{ℤ, pos, negsuc}

abbrev pub ok : ℤ
ok = pos 0

abbrev pub invalid : ℤ
invalid = negsuc 99

abbrev pub protocol_mismatch : ℤ
protocol_mismatch = negsuc 100

abbrev pub stale_session : ℤ
stale_session = negsuc 101

abbrev pub stale_frame : ℤ
stale_frame = negsuc 102
