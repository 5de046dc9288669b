-- ===== src/Base/Bits.antt =====
-- Laws of the bit operations at every width, from their recursion on binary digits.
use Prim.Native.Nat.{ℕ, zero, suc, ◌+◌, ◌*◌, ◌/◌, ◌%◌, ◌^◌, ◌≤◌, ◌<◌, min, max}
use Prim.Native.Nat.{bit_and, bit_or, bit_xor, digits, bitwise, differ}
use Prim.Native.Nat.{bit_and-bitwise, bit_or-bitwise, bit_xor-bitwise}
use mathlib.Core.Path.{◌≡◌, refl, ap, subst, sym, ◌∙◌}
use native.Mathlib.Nat.{pow-suc, mul_assoc, mul_comm, div-one, div-div-eq-div-mul}
use native.Mathlib.Omega.{arith}

-- The fuel of the digit recursion does not matter once it covers the first argument.
module _ (z : ℕ → ℕ) (f : ℕ → ℕ → ℕ) where
  fuel_irrelevant : (m n a b : ℕ) → a ≤ m → a ≤ n → digits z f m a b ≡ digits z f n a b
  fuel_irrelevant m n zero b p q = both_zero m n
    where
      both_zero : (m n : ℕ) → digits z f m zero b ≡ digits z f n zero b
      both_zero zero zero = refl
      both_zero zero (suc n) = refl
      both_zero (suc m) zero = refl
      both_zero (suc m) (suc n) = refl
  fuel_irrelevant zero n (suc a) b p q = absurd (omega arith)
  fuel_irrelevant (suc m) zero (suc a) b p q = absurd (omega arith)
  fuel_irrelevant (suc m) (suc n) (suc a) b p q =
      rw (fuel_irrelevant m n (suc a / 2) (b / 2) (omega arith) (omega arith))

  low_digit :
      (a b : ℕ)
      → bitwise z f (suc a) b ≡ bitwise z f (suc a / 2) (b / 2) * 2 + f (suc a % 2) (b % 2)
  low_digit a b =
      omega (arith, fuel_irrelevant a (suc a / 2) (suc a / 2) (b / 2) (omega arith) (omega arith))

pub bit_and_low : (a b : ℕ) → bit_and a b ≡ bit_and (a / 2) (b / 2) * 2 + min (a % 2) (b % 2)
bit_and_low zero b = simp bit_and-bitwise (omega arith)
bit_and_low (suc a) b = simp bit_and-bitwise (low_digit (λ y. 0) min a b)

pub bit_or_low : (a b : ℕ) → bit_or a b ≡ bit_or (a / 2) (b / 2) * 2 + max (a % 2) (b % 2)
bit_or_low zero b = simp bit_or-bitwise (omega arith)
bit_or_low (suc a) b = simp bit_or-bitwise (low_digit (λ y. y) max a b)

pub bit_xor_low : (a b : ℕ) → bit_xor a b ≡ bit_xor (a / 2) (b / 2) * 2 + differ (a % 2) (b % 2)
bit_xor_low zero b = simp bit_xor-bitwise (omega arith)
bit_xor_low (suc a) b = simp bit_xor-bitwise (low_digit (λ y. y) differ a b)

differ_small : (x y : ℕ) → x < 2 → y < 2 → differ x y ≡ (x + y) % 2
differ_small zero zero p q = omega arith
differ_small zero (suc zero) p q = omega arith
differ_small zero (suc (suc y)) p q = absurd (omega arith)
differ_small (suc zero) zero p q = omega arith
differ_small (suc zero) (suc zero) p q = omega arith
differ_small (suc zero) (suc (suc y)) p q = absurd (omega arith)
differ_small (suc (suc x)) y p q = absurd (omega arith)

differ_bit : (a b : ℕ) → differ (a % 2) (b % 2) ≡ (a + b) % 2
differ_bit a b = omega (arith, differ_small (a % 2) (b % 2) (omega arith) (omega arith))

-- `bit_xor` by its two parts: the low bit is the sum of the low bits, the rest is the `bit_xor` of
-- the rests.
pub bit_xor-mod : (a b : ℕ) → bit_xor a b % 2 ≡ (a + b) % 2
bit_xor-mod a b = omega (arith, bit_xor_low a b, differ_bit a b)

pub bit_xor-div : (a b : ℕ) → bit_xor a b / 2 ≡ bit_xor (a / 2) (b / 2)
bit_xor-div a b = omega (arith, bit_xor_low a b, differ_bit a b)

pub bit_xor-lt : (n a b : ℕ) → a < 2 ^ n → b < 2 ^ n → bit_xor a b < 2 ^ n
bit_xor-lt zero zero zero p q = omega arith
bit_xor-lt zero (suc a) b p q = absurd (omega arith)
bit_xor-lt zero zero (suc b) p q = absurd (omega arith)
bit_xor-lt (suc n) a b p q = omega (
  arith,
  pow-suc 2 n,
  bit_xor-mod a b,
  bit_xor-div a b,
  bit_xor-lt n (a / 2) (b / 2) (omega (arith, pow-suc 2 n)) (omega (arith, pow-suc 2 n)),
)

pub bit_xor-bit_xor : (n a b : ℕ) → a < 2 ^ n → b < 2 ^ n → bit_xor (bit_xor a b) b ≡ a
bit_xor-bit_xor zero zero zero p q = refl
bit_xor-bit_xor zero (suc a) b p q = absurd (omega arith)
bit_xor-bit_xor zero zero (suc b) p q = absurd (omega arith)
bit_xor-bit_xor (suc n) a b p q = ground (
  arith,
  pow-suc 2 n,
  bit_xor-mod (bit_xor a b) b,
  bit_xor-div (bit_xor a b) b,
  bit_xor-mod a b,
  bit_xor-div a b,
  bit_xor-bit_xor n (a / 2) (b / 2),
)

pub bit_xor_comm : (n a b : ℕ) → a < 2 ^ n → b < 2 ^ n → bit_xor a b ≡ bit_xor b a
bit_xor_comm zero zero zero p q = refl
bit_xor_comm zero (suc a) b p q = absurd (omega arith)
bit_xor_comm zero zero (suc b) p q = absurd (omega arith)
bit_xor_comm (suc n) a b p q = ground (
  arith,
  pow-suc 2 n,
  bit_xor-mod a b,
  bit_xor-div a b,
  bit_xor-mod b a,
  bit_xor-div b a,
  bit_xor_comm n (a / 2) (b / 2),
)

pub div-pow-suc : (k a : ℕ) → a / 2 ^ suc k ≡ a / 2 / 2 ^ k
div-pow-suc k a = simp (div-div-eq-div-mul, pow-suc, mul_comm)

pub bit_xor-shr : (k a b : ℕ) → bit_xor a b / 2 ^ k ≡ bit_xor (a / 2 ^ k) (b / 2 ^ k)
bit_xor-shr zero a b = simp div-one
bit_xor-shr (suc k) a b = simp (div-pow-suc, bit_xor-div, bit_xor-shr k (a / 2) (b / 2))

bit_and-zero_below : (n a : ℕ) → a ≤ n → bit_and a 0 ≡ 0
bit_and-zero_below n zero h = refl
bit_and-zero_below zero (suc a) h = absurd (omega arith)
bit_and-zero_below (suc n) (suc a) h =
    omega (arith, bit_and_low (suc a) 0, bit_and-zero_below n (suc a / 2) (omega arith))

pub bit_and-zero : (a : ℕ) → bit_and a 0 ≡ 0
bit_and-zero a = bit_and-zero_below a a (omega arith)

pub bit_and-one : (a : ℕ) → bit_and a 1 ≡ a % 2
bit_and-one a = omega (arith, bit_and_low a 1, bit_and-zero (a / 2))

bit_or_zero : (b : ℕ) → bit_or 0 b ≡ b
bit_or_zero b = simp bit_or-bitwise refl

bit_or-twice : (a w : ℕ) → bit_or (a / 2) w ≡ a / 2 + w → bit_or a (w * 2) ≡ a + w * 2
bit_or-twice a w h =
    let half : w * 2 / 2 ≡ w = omega arith in
    let low = bit_or_low a (w * 2) in
    let same = ap (λ v. bit_or (a / 2) v) half in omega (arith, low, same, h)

twice : (b k : ℕ) → b * 2 ^ k * 2 ≡ b * 2 ^ suc k
twice b k = mul_assoc b (2 ^ k) 2 ∙ ap (λ v. b * v) (sym (pow-suc 2 k))

-- Words that share no bit: the union is the sum.
pub bit_or-disjoint : (k a b : ℕ) → a < 2 ^ k → bit_or a (b * 2 ^ k) ≡ a + b * 2 ^ k
bit_or-disjoint zero a b h =
    let none_set : a ≡ 0 = omega arith in
    subst (λ v. bit_or v (b * 2 ^ zero) ≡ v + b * 2 ^ zero) (sym none_set)
      (bit_or_zero (b * 2 ^ zero) ∙ omega arith)
bit_or-disjoint (suc k) a b h =
    subst (λ v. bit_or a v ≡ a + v) (twice b k)
      (bit_or-twice a (b * 2 ^ k) (bit_or-disjoint k (a / 2) b (omega arith)))

bit_or-div : (a b : ℕ) → bit_or a b / 2 ≡ bit_or (a / 2) (b / 2)
bit_or-div a b = omega (arith, bit_or_low a b)

pub bit_or-bit : (k a b : ℕ) → bit_or a b / 2 ^ k % 2 ≡ max (a / 2 ^ k % 2) (b / 2 ^ k % 2)
bit_or-bit zero a b = simp div-one (omega (arith, bit_or_low a b))
bit_or-bit (suc k) a b = simp (div-pow-suc, bit_or-div) (bit_or-bit k (a / 2) (b / 2))

pub bit_and-pow : (k a : ℕ) → bit_and a (2 ^ k) ≡ a / 2 ^ k % 2 * 2 ^ k
bit_and-pow zero a = simp div-one (bit_and-one a ∙ omega arith)
bit_and-pow (suc k) a =
    let half : 2 ^ suc k / 2 ≡ 2 ^ k = omega (arith, pow-suc 2 k) in
    let even : 2 ^ suc k % 2 ≡ 0 = omega (arith, pow-suc 2 k) in
    let low = bit_and_low a (2 ^ suc k) in
    let same = ap (λ v. bit_and (a / 2) v) half in
    let rest = bit_and-pow k (a / 2) in
    let shift = div-pow-suc k a in
    let doubled : bit_and a (2 ^ suc k) ≡ bit_and (a / 2) (2 ^ k) * 2 =
      omega (arith, low, same, even) in
    doubled
    ∙ ap (λ v. v * 2) rest
    ∙ twice (a / 2 / 2 ^ k % 2) k
    ∙ ap (λ v. v % 2 * 2 ^ suc k) (sym shift)

pub pow_positive : (k : ℕ) → 0 < 2 ^ k
pow_positive zero = omega arith
pow_positive (suc k) = omega (arith, pow-suc 2 k, pow_positive k)

pub pow-bit : (k : ℕ) → 2 ^ k / 2 ^ k % 2 ≡ 1
pow-bit zero = refl
pow-bit (suc k) =
    let half : 2 ^ suc k / 2 ≡ 2 ^ k = omega (arith, pow-suc 2 k) in
    ap (λ v. v % 2) (div-pow-suc k (2 ^ suc k) ∙ ap (λ v. v / 2 ^ k) half) ∙ pow-bit k

pub zero_bit_and : (b : ℕ) → bit_and 0 b ≡ 0
zero_bit_and b = simp bit_and-bitwise refl
