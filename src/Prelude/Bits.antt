-- ===== src/Prelude/Bits.antt =====
-- The test `n & (n - 1) == 0`.
use Prim.Native.Nat.{
  ℕ, zero, suc, ◌+◌, ◌-◌, ◌*◌, ◌/◌, ◌%◌, ◌^◌, ◌≤◌, bit_and, bit_and-bitwise, digits, min,
}
use mathlib.Core.Path.{◌≡◌, refl, sym, ap, ◌∙◌}
use mathlib.Core.Logic.{◌⊎◌, inl, inr}
use native.Mathlib.Nat.{pow-suc}
use native.Mathlib.Omega.{arith}

abbrev pub IsPowerOfTwo : ℕ → Type 0
IsPowerOfTwo n = (k : ℕ) × (n ≡ 2 ^ k)

abbrev both : ℕ → ℕ → ℕ → ℕ
both fuel a b = digits (λ _. zero) min fuel a b

both_self : (fuel a : ℕ) → a ≤ fuel → both fuel a a ≡ a
both_self zero zero h = refl
both_self zero (suc a) h = absurd (omega arith)
both_self (suc fuel) zero h = refl
both_self (suc fuel) (suc a) h = ground (arith, both_self fuel (suc a / 2) (omega arith))

zero_or_one : (r : ℕ) → suc r ≤ 2 → (r ≡ 0) ⊎ (r ≡ 1)
zero_or_one zero h = inl refl
zero_or_one (suc zero) h = inr refl
zero_or_one (suc (suc r)) h = absurd (omega arith)

even_or_odd : (m : ℕ) → ((q : ℕ) × (m ≡ q * 2)) ⊎ ((q : ℕ) × (m ≡ q * 2 + 1))
even_or_odd m = elim (zero_or_one (m % 2) (omega arith)) [
  | inl e ↦ inl (m / 2, omega arith)
  | inr e ↦ inr (m / 2, omega arith)
]

half_zero :
    (fuel m x y : ℕ) → suc m / 2 ≡ x → m / 2 ≡ y → both (suc fuel) (suc m) m ≡ 0 → both fuel x y ≡ 0
half_zero fuel m x y hx hy e = rw (sym hx, sym hy) (omega (arith, e))

both_before : (fuel m : ℕ) → suc m ≤ fuel → both fuel (suc m) m ≡ 0 → IsPowerOfTwo (suc m)
both_before zero m h e = absurd (omega arith)
both_before (suc fuel) m h e = elim (even_or_odd m) [
  | inl (q, even) ↦ (
    0,
    omega (
      arith,
      sym (both_self fuel q (omega arith)) ∙ half_zero fuel m q q (omega arith) (omega arith) e,
    ),
  )
  | inr (q, odd) ↦
      let (k, p) =
        both_before fuel q (omega arith)
          (half_zero fuel m (suc q) q (omega arith) (omega arith) e) in
      (suc k, omega (arith, p, pow-suc 2 k))
]

-- A positive number that passes it is a power of two.
pub bit_and_before : (n : ℕ) → 1 ≤ n → bit_and n (n - 1) ≡ 0 → IsPowerOfTwo n
bit_and_before zero h e = absurd (omega arith)
bit_and_before (suc m) h e =
    let same : m ≡ suc m - 1 = omega arith in
    let meant : bit_and (suc m) m ≡ both (suc m) (suc m) m = λ i. bit_and-bitwise (suc m) m i in
    both_before (suc m) m (omega arith) (sym meant ∙ ap (bit_and (suc m)) same ∙ e)
