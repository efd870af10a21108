-- ===== src/Exec/Reservations.antt =====
-- cpu.cpp: the list of reservations, as LR and SC change it.
pub mod Instructions
use rv_emu.Base.{
  ℕ, zero, suc, ◌+◌, ◌<◌, ◌≡◌, ◌≢◌, ◌⊎◌, inl, inr, refl, not, ◌&&◌, List, [], ◌∷◌, ◌==◌,
  if◌then◌else◌, get_or, set, length, arith, get_or-set_ne, get_or-set_self, ◌∙◌, sym, subst, ap,
}
use native.Mathlib.Decide.{ℕ_discrete}
use rv_emu.Exec.Atomic.{steal}

-- No two harts hold a reservation on the same address.
abbrev pub IsExclusive : List ℕ → Type 0
IsExclusive l = (i j : ℕ) → i ≢ j → get_or l i 0 ≡ get_or l j 0 → get_or l i 0 ≡ 0

get_or-steal :
    (hartid addr k : ℕ) (l : List ℕ) (i : ℕ)
    → get_or (steal hartid addr k l) i 0
      ≡ (if not (hartid == k + i) && get_or l i 0 == addr then 0 else get_or l i 0)
unfolding steal
get_or-steal hartid addr k [] i = ground arith
get_or-steal hartid addr k (x ∷ xs) zero = ground arith
get_or-steal hartid addr k (x ∷ xs) (suc i) =
    let same : k + 1 + i ≡ k + suc i = omega arith in
    subst
      (λ n.
        get_or (steal hartid addr (k + 1) xs) i 0
        ≡ (if not (hartid == n) && get_or xs i 0 == addr then 0 else get_or xs i 0))
      same (get_or-steal hartid addr (k + 1) xs i)

pub length-steal : (hartid addr k : ℕ) (l : List ℕ) → length (steal hartid addr k l) ≡ length l
unfolding steal
length-steal hartid addr k [] = refl
length-steal hartid addr k (x ∷ xs) = ap suc (length-steal hartid addr (k + 1) xs)

module _ (hartid addr : ℕ) (l : List ℕ) (there : hartid < length l) where
  -- What LR leaves.
  abbrev pub reserved : List ℕ
  reserved = set (steal hartid addr 0 l) hartid addr

  pub reserved-own : get_or reserved hartid 0 ≡ addr
  reserved-own =
      get_or-set_self (steal hartid addr 0 l) hartid addr 0
        (omega (arith, length-steal hartid addr 0 l))

  pub reserved-other :
      (j : ℕ)
      → hartid ≢ j
      → get_or reserved j 0 ≡ (if get_or l j 0 == addr then 0 else get_or l j 0)
  reserved-other j other =
      get_or-set_ne (steal hartid addr 0 l) hartid j addr 0 other
      ∙ get_or-steal hartid addr 0 l j
      ∙ ground (arith, other)

  pub reserved-IsExclusive : IsExclusive l → IsExclusive reserved
  reserved-IsExclusive ex i j ne e = elim (ℕ_discrete hartid i) [
    | yes own ↦ ground (
      arith,
      subst (λ k. get_or reserved k 0 ≡ addr) own reserved-own,
      reserved-other j (λ o. ne (sym own ∙ o)),
      e,
    )
    | no not_i ↦ elim (ℕ_discrete hartid j) [
      | yes own ↦ ground (
        arith,
        subst (λ k. get_or reserved k 0 ≡ addr) own reserved-own,
        reserved-other i not_i,
        e,
      )
      | no not_j ↦ ground (arith, reserved-other i not_i, reserved-other j not_j, ex i j ne, e)
    ]
  ]

-- SC gives up the reservation of its hart.
get_or-set_zero :
    (l : List ℕ) (h i : ℕ) → (get_or (set l h 0) i 0 ≡ 0) ⊎ (get_or (set l h 0) i 0 ≡ get_or l i 0)
get_or-set_zero [] h i = inl refl
get_or-set_zero (x ∷ xs) zero zero = inl refl
get_or-set_zero (x ∷ xs) zero (suc i) = inr refl
get_or-set_zero (x ∷ xs) (suc h) zero = inr refl
get_or-set_zero (x ∷ xs) (suc h) (suc i) = get_or-set_zero xs h i

pub set_zero-IsExclusive : (l : List ℕ) (h : ℕ) → IsExclusive l → IsExclusive (set l h 0)
set_zero-IsExclusive l h ex i j ne e = elim (get_or-set_zero l h i) [
  | inl z ↦ z
  | inr same_i ↦ elim (get_or-set_zero l h j) [
    | inl z ↦ e ∙ z
    | inr same_j ↦ same_i ∙ ex i j ne (sym same_i ∙ e ∙ same_j)
  ]
]
