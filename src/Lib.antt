-- ===== src/Lib.antt =====
-- lzamp: Linux on three cores of an RK3588 and Zephyr on the fourth, CPU3, which talk over rings in
-- shared memory (mailmsg/) and share out peripherals that CPU3 drives (zephyr/drivers/).
--
-- The parts. The Linux driver (scripts/linux-support/drivers/lzamp_amp_mailmsg.c) loads CPU3's
-- image, starts and stops it, and serves one character device per priority; the firmware
-- (zephyr/app/src/main.c) answers on CPU3. Both sit on an endpoint each. An endpoint (mailmsg/mailmsg_endpoint.c) sends frames through one ring per priority
-- and direction (mailmsg/mailmsg.c), rings a doorbell for each (mailmsg/mailmsg_notify.h, over
-- mailmsg/mailmsg_mailbox0.c), and receives from the peer's rings. A peripheral request that came in
-- a frame is carried out by the peripheral service, which calls the polling drivers.
--
--   Base          lists, tests, C integers and bit operations over the native numbers
--   Protocol      mailmsg/mailmsg.h: constants, frame, CRC-32, result codes
--   Ring          mailmsg/mailmsg.c: mailmsg_ring_push, _pop, _has_data, _count.
--                 Ring/Queue is the abstract queue, Ring/Contents the frames that a ring holds,
--                 Ring/Refine and Ring/Coherent the refinement, Ring/Invariant the valid rings,
--                 Ring/Count the depth, Ring/Intact and Ring/Corruption what the CRC is worth,
--                 Ring/Interleave the two CPUs store by store
--   Notify        mailmsg/mailmsg_notify.h and mailmsg/mailmsg_mailbox0.c
--   Endpoint      mailmsg/mailmsg_endpoint.c: bind, session_valid, send, receive, has_received,
--                 with the state in Endpoint/State; Enqueue, Outgoing, Incoming and RoundTrip are
--                 about frames, Session and Rejection about the session, Sequence about the
--                 sequence numbers, Counters about the statistics
--   Driver        scripts/linux-support/drivers/lzamp_amp_mailmsg.c. State has struct
--                 r1_amp_cpu_on_data, Doorbell the A2B doorbells, Gate and Control the lifecycle
--                 with control_work, Watch the affinity, the timeout and the interrupt, User the
--                 character devices, Admin image_write, start_store and rearm_store, Stop the
--                 controlled stop, Probe the probe, Probes the test entries. Machine puts the
--                 critical sections that may change the session into one machine; Invariant,
--                 Invariant/Edges, Wait, Drain, Start, Readers, Preflight and Diagnostics are about it
--   Firmware      zephyr/app/src/main.c. Reply has the answers, the doorbell and the announcement of
--                 the session, Serve mailmsg_pingpong_test_service, Worker the worker thread and the
--                 mailbox interrupt; Legacy the command line and the heartbeat of its main
--                 loop; Wakeup, Doorbells, Announce, Quiet and Agreement are about them
--   Mmio, Poll    zephyr/drivers/rk3588_mmio.h and the polling loops of the drivers
--   Clock         zephyr/drivers/rk3588_peripheral_clock.c (gates: Clock/Isolation)
--   Reset         zephyr/drivers/rk3588_reset.c
--   Pinctrl       zephyr/drivers/rk3588_pinctrl.c
--   Gpio          zephyr/drivers/gpio3_polling.c (output mask: Gpio/Mask and Gpio/Directions)
--   Saradc, Pwm   zephyr/drivers/rk3588_saradc.c, rk3588_pwm.c
--   Uart, Spi     zephyr/drivers/rk3588_uart_polling.c, rk3588_spi_polling.c
--   I2c           zephyr/drivers/rk3588_i2c_polling.c
--   Layout        mailmsg/mailmsg_memory_layout.h
--   Service       zephyr/drivers/rk3588_peripheral_service.c (answers: Service/Answer)
--
-- How the code becomes functions. A C function takes the state that it may change and gives back
-- its result, then that state; an output parameter is in the result, `none` or its old value where
-- the code leaves it alone. A pointer that may be null is an `Option`. A 32-bit sum has its
-- wrap-around written out. The cache hooks, the mailbox and the register access are functions of
-- the platform: they are parameters, and act on a world of any type. That a hook shows the ring as
-- it is (`IsCoherent`), and that a register honours its write mask (`MaskedRegisters`), are
-- hypotheses where they are used. Loops are recursions on their own bound: the timeout of a polling
-- loop, the length of a buffer, the capacity of a read, the quota of the firmware. Only the control
-- work of the driver runs on fuel, and eight rounds are enough for it.
--
-- A critical section of the driver (what runs under data->lock) is one step, and so is each stage of
-- the firmware's worker, between which interrupts may come. What the kernel reads from a text, the
-- copies to and from user space, the clock and PSCI are arguments or the functions of a platform. A
-- wake-up of a reader shows in the counter that the reader waits on; deferred work is what is
-- pending, and the kernel clears that mark before it runs the work. Of the firmware's builds this is
-- the one without test overrides, with and without MAILMSG_ENABLE_STOP_CONTROL.
--
-- Not modelled: in the Linux driver the texts of the sysfs entries, the registration of devices and
-- files, and the mapping of memory; in the firmware the start-up in main, peripherals_initialize and
-- the boot marks; the user tools (tools/) and the tests. Cache maintenance,
-- interrupt controllers and the hardware stand outside.
pub mod Base
pub mod Protocol
pub mod Ring
pub mod Notify
pub mod Endpoint
pub mod Driver
pub mod Mmio
pub mod Peripheral
pub mod Clock
pub mod Gpio
pub mod Reset
pub mod Pinctrl
pub mod Poll
pub mod Saradc
pub mod Pwm
pub mod Uart
pub mod Spi
pub mod I2c
pub mod Service
pub mod Firmware
pub mod Layout
