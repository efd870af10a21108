-- ===== src/Plic/Places.antt =====
-- Places of an array: which there are, and what an assignment leaves in them.
use rv_emu.Base.{
  ℕ, zero, suc, ◌≤◌, ◌<◌, ◌≡◌, ◌≢◌, ◌↔◌, refl, ap, List, [], ◌∷◌, none, some, length, set, arith,
}
use rv_emu.Plic.{at}
use rv_emu.Plic.Registers.{assign}

pub at-none {ℓ} : {A : Type ℓ} (xs : List A) (i : ℕ) → (at xs i ≡ none) ↔ (length xs ≤ i)
unfolding at
at-none [] i = (λ e. omega arith, λ h. refl)
at-none (x ∷ xs) zero = (λ e. absurd (cc), λ h. absurd (omega arith))
at-none (x ∷ xs) (suc i) =
    let rest = at-none xs i in (λ e. omega (arith, rest.0 e), λ h. rest.1 (omega arith))

pub at-some {ℓ} : {A : Type ℓ} (xs : List A) (i : ℕ) → i < length xs → (x : A) × (at xs i ≡ some x)
unfolding at
at-some [] i h = absurd (omega arith)
at-some (x ∷ xs) zero h = (x, refl)
at-some (x ∷ xs) (suc i) h = at-some xs i (omega arith)

pub at-set_self {ℓ} :
    {A : Type ℓ} (xs : List A) (i : ℕ) (x v : A) → at xs i ≡ some x → at (set xs i v) i ≡ some v
unfolding at
at-set_self [] i x v e = absurd (cc)
at-set_self (y ∷ ys) zero x v e = refl
at-set_self (y ∷ ys) (suc i) x v e = at-set_self ys i x v e

pub at-set_ne {ℓ} :
    {A : Type ℓ} (xs : List A) (i j : ℕ) (v : A) → i ≢ j → at (set xs i v) j ≡ at xs j
unfolding at
at-set_ne [] i j v h = refl
at-set_ne (x ∷ xs) zero zero v h = absurd (h refl)
at-set_ne (x ∷ xs) zero (suc j) v h = refl
at-set_ne (x ∷ xs) (suc i) zero v h = refl
at-set_ne (x ∷ xs) (suc i) (suc j) v h = at-set_ne xs i j v (λ e. h (ap suc e))

pub assign-past : (xs : List ℕ) (i v : ℕ) → length xs ≤ i → assign xs i v ≡ none
unfolding assign
assign-past xs i v h = rw ((at-none xs i).1 h) refl

pub assign-at : (xs : List ℕ) (i x v : ℕ) → at xs i ≡ some x → assign xs i v ≡ some (set xs i v)
unfolding assign
assign-at xs i x v e = rw e refl

pub assign-in : (xs : List ℕ) (i v : ℕ) → i < length xs → assign xs i v ≡ some (set xs i v)
assign-in xs i v h = let x = at-some xs i h in assign-at xs i x.0 v x.1
