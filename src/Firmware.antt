-- ===== src/Firmware.antt =====
-- zephyr/app/src/main.c: the CPU3 firmware. It binds the endpoint, announces the session, serves
-- the requests of Linux on a worker that the mailbox interrupts wake, and switches itself off.
-- Modelled is the build with the session announcement and no test override, with and without
-- `MAILMSG_ENABLE_STOP_CONTROL`.
pub mod State
pub mod Reply
pub mod Serve
pub mod Worker
pub mod Quiet
pub mod Wakeup
pub mod Doorbells
pub mod Announce
pub mod Agreement
pub mod Legacy
mod Examples
