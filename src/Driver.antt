-- ===== src/Driver.antt =====
-- scripts/linux-support/drivers/lzamp_amp_mailmsg.c: the Linux side of the link. It loads the image,
-- starts and stops CPU3, and serves the endpoint to user space. Every operation runs under
-- `data->lock`, so each is one step.
pub mod Errno
pub mod State
pub mod Doorbell
pub mod Gate
pub mod Control
pub mod Watch
pub mod User
pub mod Admin
pub mod Stop
pub mod Probe
pub mod Machine
pub mod Invariant
pub mod Probes
pub mod Diagnostics
pub mod Readers
pub mod Wait
pub mod Preflight
pub mod Start
pub mod Drain
mod Examples
