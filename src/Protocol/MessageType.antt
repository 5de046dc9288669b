-- ===== src/Protocol/MessageType.antt =====
-- `enum mailmsg_message_type` of mailmsg/mailmsg.h.
use lzamp.Base.{ℕ}

abbrev pub nop : ℕ
nop = 0

abbrev pub ping : ℕ
ping = 1

abbrev pub pong : ℕ
pong = 2

abbrev pub ack : ℕ
ack = 3

abbrev pub nack : ℕ
nack = 4

abbrev pub stop_request : ℕ
stop_request = 5

abbrev pub stop_ready : ℕ
stop_ready = 6

abbrev pub stop_refused : ℕ
stop_refused = 7

abbrev pub session_ready : ℕ
session_ready = 8

abbrev pub gpio_read_request : ℕ
gpio_read_request = 9

abbrev pub gpio_read_result : ℕ
gpio_read_result = 10

abbrev pub peripheral_request : ℕ
peripheral_request = 11

abbrev pub peripheral_result : ℕ
peripheral_result = 12
