-- ===== src/Clock/Isolation.antt =====
-- Which clocks run after an enable or a disable, and that the others are left alone.
use lzamp.Base.{
  Bool, Bool-cases, ◌⊎◌, inl, inr, subst₂, ◌==◌, if◌then◌else◌, ℕ, ◌+◌, ◌≡◌, refl, ap, ◌∙◌, true,
  false, Option, none, some, List, [], ◌∷◌, arith,
}
use lzamp.Mmio.{
  MmioOps, MaskedRegisters, Update, apply_updates, final, update_word, or_first, or_else,
  bit-apply_updates,
}
use lzamp.Peripheral.{Peripheral, same_peripheral}
use lzamp.Clock.{
  clkgate_con, clock_enable, clock_disable, run_updates, enable_updates, disable_updates,
}

-- The gate bits of a peripheral: register and bit of each of its clocks.
unfoldable pub gates : Peripheral → List (ℕ × ℕ)
gates Peripheral.uart5 = (clkgate_con 12, 6) ∷ (clkgate_con 13, 9) ∷ []
gates Peripheral.uart7 = (clkgate_con 12, 8) ∷ (clkgate_con 13, 15) ∷ []
gates Peripheral.i2c7 = (clkgate_con 10, 14) ∷ (clkgate_con 11, 6) ∷ []
gates Peripheral.spi0 = (clkgate_con 14, 6) ∷ (clkgate_con 14, 11) ∷ []
gates Peripheral.pwm1 = (clkgate_con 15, 3) ∷ (clkgate_con 15, 4) ∷ (clkgate_con 15, 5) ∷ []
gates Peripheral.saradc = (clkgate_con 11, 14) ∷ (clkgate_con 11, 15) ∷ []
gates Peripheral.unknown = []

-- The gate stands in a row of gates.
unfoldable pub listed : ℕ → ℕ → List (ℕ × ℕ) → Bool
listed offset k [] = false
listed offset k ((register, bit) ∷ rest) =
    if register == offset
    then (if bit == k then true else listed offset k rest)
    else listed offset k rest

unfoldable pub is_option : Option ℕ → Option ℕ → Bool
is_option none none = true
is_option none (some v) = false
is_option (some v) none = false
is_option (some v) (some u) = v == u

is_option_lem : (a b : Option ℕ) → is_option a b ≡ true → a ≡ b
unfolding is_option
is_option_lem none none e = refl
is_option_lem none (some v) e = ground arith
is_option_lem (some v) none e = ground arith
is_option_lem (some v) (some u) e = ground arith

-- A row of updates leaves `want` in each gate of a row.
unfoldable all_final : List Update → Option ℕ → List (ℕ × ℕ) → Bool
unfolding final is_option
all_final us want [] = true
all_final us want ((register, bit) ∷ rest) =
    if is_option (final us register bit) want then all_final us want rest else false

both : (x y : Bool) → (if x then y else false) ≡ true → (x ≡ true) × (y ≡ true)
both true y e = (refl, e)
both false y e = ground arith

listed_head :
    (register bit offset k : ℕ) (rest : Bool)
    → (if register == offset then (if bit == k then true else rest) else rest) ≡ true
    → ((register ≡ offset) × (bit ≡ k)) ⊎ (rest ≡ true)
listed_head register bit offset k rest e = ground arith

final-listed :
    (us : List Update) (want : Option ℕ) (offset k : ℕ) (gs : List (ℕ × ℕ))
    → all_final us want gs ≡ true
    → listed offset k gs ≡ true
    → final us offset k ≡ want
unfolding all_final listed
final-listed us want offset k [] a l = ground arith
final-listed us want offset k ((register, bit) ∷ rest) a l =
    let here = both (is_option (final us register bit) want) (all_final us want rest) a in
    elim (listed_head register bit offset k (listed offset k rest) l) [
      | inl same ↦
          subst₂ (λ o b. final us o b ≡ want) same.0 same.1
            (is_option_lem (final us register bit) want here.0)
      | inr later ↦ final-listed us want offset k rest here.1 later
    ]

unfoldable updates_of : Option (List Update) → List Update
updates_of none = []
updates_of (some us) = us

unfoldable each : (Peripheral → Bool) → Bool
each f =
    if f Peripheral.uart5
    then if f Peripheral.uart7
      then if f Peripheral.i2c7
        then if f Peripheral.spi0
          then if f Peripheral.pwm1
            then if f Peripheral.saradc then f Peripheral.unknown else false
            else false
          else false
        else false
      else false
    else false

each_lem : (f : Peripheral → Bool) → each f ≡ true → (p : Peripheral) → f p ≡ true
unfolding each
each_lem f e Peripheral.uart5 = ground arith
each_lem f e Peripheral.uart7 = ground arith
each_lem f e Peripheral.i2c7 = ground arith
each_lem f e Peripheral.spi0 = ground arith
each_lem f e Peripheral.pwm1 = ground arith
each_lem f e Peripheral.saradc = ground arith
each_lem f e Peripheral.unknown = ground arith

unfoldable wanted : ℕ → Peripheral → Peripheral → Option ℕ
unfolding same_peripheral
wanted v p q = if same_peripheral p q then some v else none

-- Every pair of a switched peripheral and one whose gates are looked at.
unfoldable holds_for_all : (Peripheral → Option (List Update)) → ℕ → Bool
holds_for_all updates v =
    each (λ p. each (λ q. all_final (updates_of (updates p)) (wanted v p q) (gates q)))

enable_gates : holds_for_all enable_updates 0 ≡ true
unfolding holds_for_all each all_final updates_of enable_updates gates final update_word wanted
    same_peripheral is_option or_first
enable_gates = refl

disable_gates : holds_for_all disable_updates 1 ≡ true
unfolding holds_for_all each all_final updates_of disable_updates gates final update_word wanted
    same_peripheral is_option or_first
disable_gates = refl

final_of :
    (updates : Peripheral → Option (List Update)) (v : ℕ)
    → holds_for_all updates v ≡ true
    → (p q : Peripheral) (offset k : ℕ) → listed offset k (gates q) ≡ true
    → final (updates_of (updates p)) offset k ≡ wanted v p q
unfolding holds_for_all
final_of updates v h p q offset k l =
    let row = λ (p' : Peripheral) (q' : Peripheral).
      all_final (updates_of (updates p')) (wanted v p' q') (gates q') in
    final-listed (updates_of (updates p)) (wanted v p q) offset k (gates q)
      (each_lem (row p) (each_lem (λ p'. each (row p')) h p) q) l

or_else-wanted :
    (old v : ℕ) (p q : Peripheral)
    → or_else old (wanted v p q) ≡ (if same_peripheral p q then v else old)
unfolding wanted or_else
or_else-wanted old v p q = elim (Bool-cases (same_peripheral p q)) [
  | inl h ↦ rw h refl
  | inr h ↦ rw h refl
]

run_updates_world :
    {W : Type 0} (ops : MmioOps W) (base : ℕ) (us : Option (List Update)) (w : W)
    → (run_updates (some ops) base us w).1 ≡ apply_updates ops base (updates_of us) w
unfolding run_updates updates_of apply_updates
run_updates_world ops base none w = refl
run_updates_world ops base (some us) w = refl

module _ {W : Type 0} (ops : MmioOps W) (regs : MaskedRegisters ops) (base : ℕ) where
  switched :
      (updates : Peripheral → Option (List Update)) (v : ℕ)
      → holds_for_all updates v ≡ true
      → (p q : Peripheral) (w : W) (offset k : ℕ) → listed offset k (gates q) ≡ true
      → regs.bit (run_updates (some ops) base (updates p) w).1 (base + offset) k
        ≡ (if same_peripheral p q then v else regs.bit w (base + offset) k)
  switched updates v h p q w offset k l =
      ap (λ now. regs.bit now (base + offset) k) (run_updates_world ops base (updates p) w)
      ∙ bit-apply_updates ops regs base offset k (updates_of (updates p)) w
      ∙ ap (or_else (regs.bit w (base + offset) k)) (final_of updates v h p q offset k l)
      ∙ or_else-wanted (regs.bit w (base + offset) k) v p q

  -- After `lzamp_rk3588_peripheral_clock_enable` of `p`, on registers that honour the write mask:
  -- each gate bit of `p` is 0, and each gate bit of any other peripheral is as it was.
  pub clock_enable-gates :
      (p q : Peripheral) (w : W) (offset k : ℕ)
      → listed offset k (gates q) ≡ true
      → regs.bit (clock_enable (record { base = base; ops = some ops }) p w).1 (base + offset) k
        ≡ (if same_peripheral p q then 0 else regs.bit w (base + offset) k)
  unfolding clock_enable
  clock_enable-gates = switched enable_updates 0 enable_gates

  -- After `lzamp_rk3588_peripheral_clock_disable` of `p`, on registers that honour the write mask:
  -- each gate bit of `p` is 1, and each gate bit of any other peripheral is as it was.
  pub clock_disable-gates :
      (p q : Peripheral) (w : W) (offset k : ℕ)
      → listed offset k (gates q) ≡ true
      → regs.bit (clock_disable (record { base = base; ops = some ops }) p w).1 (base + offset) k
        ≡ (if same_peripheral p q then 1 else regs.bit w (base + offset) k)
  unfolding clock_disable
  clock_disable-gates = switched disable_updates 1 disable_gates
