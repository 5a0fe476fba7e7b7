-- ===== src/Bits.antt =====
-- Bitwise operations as arithmetic, for the flags and addresses of the kernel's C code.
use native.Mathlib.Nat.{pow-suc}
use Prim.Native.Nat.{min, max, digits, bit_and-bitwise, bit_or-bitwise}
use eter_os.Base.{
  ℕ, zero, suc, ◌+◌, ◌*◌, ◌/◌, ◌%◌, ◌^◌, ◌≤◌, ◌<◌, ◌≡◌, refl, ◌∙◌, ap, arith, bit_and, bit_or,
}

and_0 : (n a : ℕ) → digits (λ b. zero) min n a 0 ≡ 0
and_0 zero a = refl
and_0 (suc n) zero = refl
and_0 (suc n) (suc a) = rw (and_0 n (suc a / 2)) (omega arith)

and_1 : (n a : ℕ) → digits (λ b. zero) min (suc n) a 1 ≡ a % 2
and_1 n zero = refl
and_1 n (suc a) = rw (and_0 n (suc a / 2)) (omega arith)

pub bit_and_3 : (a : ℕ) → bit_and a 3 ≡ a % 4
bit_and_3 a = (λ i. bit_and-bitwise a 3 i) ∙ and_3 a
  where
    and_3 : (b : ℕ) → digits (λ c. zero) min b b 3 ≡ b % 4
    and_3 zero = refl
    and_3 (suc zero) = refl
    and_3 (suc (suc b)) = rw (and_1 b (suc (suc b) / 2)) (omega arith)

or_0 : (n b : ℕ) → digits (λ b. b) max n 0 b ≡ b
or_0 zero b = refl
or_0 (suc n) b = refl

twice : (p q : ℕ) → p * (q * 2) ≡ 2 * (p * q)
twice p q = grind arith

or_above : (k n a p : ℕ) → a ≤ n → a < 2 ^ k → digits (λ b. b) max n a (p * 2 ^ k) ≡ a + p * 2 ^ k
or_above k n zero p h l = or_0 n (p * 2 ^ k) ∙ omega arith
or_above k zero (suc a) p h l = absurd (omega (arith, h))
or_above zero (suc n) (suc a) p h l = absurd (omega (arith, l))
or_above (suc k) (suc n) (suc a) p h l =
    let double : p * 2 ^ suc k ≡ 2 * (p * 2 ^ k) =
      ap (λ x. p * x) (pow-suc 2 k) ∙ twice p (2 ^ k) in
    let half : p * 2 ^ suc k / 2 ≡ p * 2 ^ k = omega (arith, double) in
    let even : p * 2 ^ suc k % 2 ≡ 0 = omega (arith, double) in
    let power : 2 ^ suc k ≡ 2 * 2 ^ k = omega (arith, pow-suc 2 k) in
    let rest = or_above k n (suc a / 2) p (omega (arith, h)) (omega (arith, l, power)) in
    rw (half, even, rest) (omega (arith, double))

-- The bits of numbers that do not overlap are their sum.
pub bit_or_above : (k a p : ℕ) → a < 2 ^ k → bit_or a (p * 2 ^ k) ≡ a + p * 2 ^ k
bit_or_above k a p h = (λ i. bit_or-bitwise a (p * 2 ^ k) i) ∙ or_above k a a p (omega arith) h
