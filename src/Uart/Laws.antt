-- ===== src/Uart/Laws.antt =====
-- How much a read returns, and which bytes.
use lzamp.Base.{
  ℕ, zero, suc, ◌≤◌, Bool-cases, inl, inr, arith, List, [], length, Option, none, some, if_both,
  ◌+◌, ◌==◌, not, if◌then◌else◌,
}
use lzamp.Base.Int.{ℤ, pos, negsuc}
use lzamp.Mmio.{MmioOps}
use lzamp.Poll.{poll}
use lzamp.Uart.{Uart, uart_read, uart_read_via, read_bytes, dr, uart_lsr, uart_rbr_thr_dll}

read_bytes-length :
    {W : Type 0} (ops : MmioOps W) (base capacity : ℕ) (w : W)
    → length (read_bytes ops base capacity w).0 ≤ capacity
unfolding read_bytes
read_bytes-length ops base zero w = ground arith
read_bytes-length ops base (suc left) w =
    let status = ops.read32 (base + uart_lsr) w in
    elim (Bool-cases (dr status.0)) [
      | inl h ↦ rw h (
          let ih =
            read_bytes-length ops base left (ops.read32 (base + uart_rbr_thr_dll) status.1).1 in
          ground arith)
      | inr h ↦ rw h (ground arith)
    ]

uart_read_via-length :
    {W : Type 0} (ops : Option (MmioOps W)) (base capacity timeout_us : ℕ) (w : W)
    → length (uart_read_via ops base capacity timeout_us w).1 ≤ capacity
unfolding uart_read_via
uart_read_via-length none base capacity timeout_us w = ground arith
uart_read_via-length (some ops) base capacity timeout_us w =
    let waited = poll ops (base + uart_lsr) dr timeout_us w in
    let got = read_bytes ops base capacity waited.1 in
    let P = λ (r : ℤ × List ℕ × _). length r.1 ≤ capacity in
    if_both P (capacity == 0) (negsuc 0, [], w)
      (if not waited.0 then (negsuc 1, [], waited.1) else (pos 0, got.0, got.1)) (λ h. ground arith)
      (λ h.
        if_both P (not waited.0) (negsuc 1, [], waited.1) (pos 0, got.0, got.1) (λ g. ground arith)
          (λ g. read_bytes-length ops base capacity waited.1))

-- `lzamp_rk3588_uart_read` stores at most `capacity` bytes, whatever the device answers.
pub uart_read-length :
    {W : Type 0} (uart : Uart W) (capacity timeout_us : ℕ) (w : W)
    → length (uart_read uart capacity timeout_us w).1 ≤ capacity
unfolding uart_read
uart_read-length uart capacity timeout_us w =
    uart_read_via-length uart.ops uart.base capacity timeout_us w
