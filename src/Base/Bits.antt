-- ===== src/Base/Bits.antt =====
-- Facts of `bit_xor` on numbers of a given width, and tests over all numbers below a bound.
use Prim.Native.Nat.{
  ◌-◌, ℕ, zero, suc, ◌+◌, ◌*◌, ◌/◌, ◌%◌, ◌^◌, ◌≤◌, ◌<◌, bit_xor, digits, bit_xor-bitwise, differ,
}
use mathlib.Core.Path.{◌∙◌, ◌≡◌, refl, ap}
use mathlib.Core.Bool.{Bool, true, ◌&&◌}
use native.Mathlib.Omega.{arith}
use native.Mathlib.Nat.{pow-suc}

-- A test over all numbers below a bound, for a check by evaluation.
unfoldable pub passes_below : (ℕ → Bool) → ℕ → Bool
passes_below test zero = true
passes_below test (suc bound) = passes_below test bound && test bound

pub passes_below-lt :
    (test : ℕ → Bool) (bound : ℕ) {i : ℕ}
    → i < bound
    → passes_below test bound ≡ true
    → test i ≡ true
unfolding passes_below
passes_below-lt test zero below passed = absurd (omega arith)
passes_below-lt test (suc bound) {i} below passed =
    ground (arith, passes_below-lt test bound {i = i})

-- The digits of an exclusive or, with fuel: one more than enough changes nothing, and so any more.
xor_digits : ℕ → ℕ → ℕ → ℕ
xor_digits fuel = digits (λ y. y) differ fuel

xor_digits-suc : (fuel a b : ℕ) → a ≤ fuel → xor_digits (suc fuel) a b ≡ xor_digits fuel a b
unfolding xor_digits
xor_digits-suc zero zero b enough = refl
xor_digits-suc (suc fuel) zero b enough = refl
xor_digits-suc zero (suc a) b enough = absurd (omega arith)
xor_digits-suc (suc fuel) (suc a) b enough =
    omega (arith, xor_digits-suc fuel (suc a / 2) (b / 2) (omega arith))

xor_digits-add : (more fuel a b : ℕ) → a ≤ fuel → xor_digits (more + fuel) a b ≡ xor_digits fuel a b
xor_digits-add zero fuel a b enough = ap (λ n. xor_digits n a b) (omega arith)
xor_digits-add (suc more) fuel a b enough =
    ap (λ n. xor_digits n a b) (omega arith)
    ∙ xor_digits-suc (more + fuel) a b (omega arith)
    ∙ xor_digits-add more fuel a b enough

-- Fuel for one digit less than the number has is as good as the fuel of its half.
xor_digits-half : (a b : ℕ) → xor_digits a (suc a / 2) b ≡ xor_digits (suc a / 2) (suc a / 2) b
xor_digits-half a b =
    ap (λ n. xor_digits n (suc a / 2) b) (omega arith)
    ∙ xor_digits-add (a - suc a / 2) (suc a / 2) (suc a / 2) b (omega arith)

differ_bits : (x y : ℕ) → x < 2 → y < 2 → differ x y ≡ (x + y) % 2
differ_bits zero y p q = omega arith
differ_bits (suc zero) zero p q = refl
differ_bits (suc zero) (suc y) p q = omega arith
differ_bits (suc (suc x)) y p q = absurd (omega arith)

pub bit_xor_step : (a b : ℕ) → bit_xor a b ≡ bit_xor (a / 2) (b / 2) * 2 + (a % 2 + b % 2) % 2
unfolding xor_digits
bit_xor_step zero b = simp bit_xor-bitwise (omega arith)
bit_xor_step (suc a) b = omega (
  arith,
  bit_xor-bitwise (suc a) b,
  bit_xor-bitwise (suc a / 2) (b / 2),
  xor_digits-half a (b / 2),
  differ_bits (suc a % 2) (b % 2) (omega arith) (omega arith),
)

bit_xor-zero_below : (n a : ℕ) → a < n → bit_xor a 0 ≡ a
bit_xor-zero_below zero a h = absurd (omega arith)
bit_xor-zero_below (suc n) zero h = refl
bit_xor-zero_below (suc n) (suc a) h =
    omega (arith, bit_xor_step (suc a) 0, bit_xor-zero_below n (suc a / 2) (omega arith))

pub bit_xor-zero : (a : ℕ) → bit_xor a 0 ≡ a
bit_xor-zero a = bit_xor-zero_below (suc a) a (omega arith)

-- One factor of two out of a shifted number.
shifted-half : (k q : ℕ) → q * 2 ^ suc k ≡ q * 2 ^ k * 2
shifted-half k q = rw (pow-suc 2 k) (omega arith)

-- An exclusive or with `k` low digits leaves the digits above them.
pub bit_xor_fields :
    (k q r s : ℕ) → r < 2 ^ k → s < 2 ^ k → bit_xor (q * 2 ^ k + r) s ≡ q * 2 ^ k + bit_xor r s
bit_xor_fields zero q zero zero p t = rw bit_xor-zero (omega arith)
bit_xor_fields zero q zero (suc s) p t = absurd (omega arith)
bit_xor_fields zero q (suc r) s p t = absurd (omega arith)
bit_xor_fields (suc k) q r s p t = ground (
  arith,
  bit_xor_step (q * 2 ^ suc k + r) s,
  bit_xor_step r s,
  shifted-half k q,
  pow-suc 2 k,
  bit_xor_fields k q (r / 2) (s / 2),
)

-- An exclusive or of `k`-digit numbers has `k` digits.
pub bit_xor-lt : (k r s : ℕ) → r < 2 ^ k → s < 2 ^ k → bit_xor r s < 2 ^ k
bit_xor-lt zero zero zero p t = omega arith
bit_xor-lt zero zero (suc s) p t = absurd (omega arith)
bit_xor-lt zero (suc r) s p t = absurd (omega arith)
bit_xor-lt (suc k) r s p t =
    ground (arith, bit_xor_step r s, pow-suc 2 k, bit_xor-lt k (r / 2) (s / 2))
