-- ===== src/Base/Powers.antt =====
-- Powers of two at variable exponents.
use Prim.Native.Nat.{ℕ, zero, suc, ◌+◌, ◌*◌, ◌/◌, ◌^◌, ◌<◌}
use mathlib.Core.Path.{◌≡◌, ap}
use native.Mathlib.Nat.{pow-suc, one-le-pow}
use native.Mathlib.Omega.{arith}

pub pow-add : (a b : ℕ) → 2 ^ (a + b) ≡ 2 ^ a * 2 ^ b
pow-add zero b = let e : zero + b ≡ b = omega arith in omega (arith, ap (λ (t : ℕ). 2 ^ t) e)
pow-add (suc a) b =
    let e : suc a + b ≡ suc (a + b) = omega arith in
    let shifted = ap (λ (t : ℕ). 2 ^ t) e in
    let doubled = ap (λ (t : ℕ). t * 2 ^ b) (pow-suc 2 a) in
    grind (arith, shifted, doubled, pow-suc 2 (a + b), pow-add a b)

pub pow-pos : (k : ℕ) → 0 < 2 ^ k
pow-pos k = one-le-pow k 2 (omega arith)

pub div-eq : (q r p : ℕ) → r < p → (q * p + r) / p ≡ q
div-eq q r p h = grind arith

pub lt-pow : (k : ℕ) → k < 2 ^ k
lt-pow zero = omega arith
lt-pow (suc k) = omega (arith, lt-pow k, pow-suc 2 k)
