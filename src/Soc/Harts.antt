-- ===== src/Soc/Harts.antt =====
-- Lists of harts that differ in `mip` only, and the actions that leave them so.
use rv_emu.Base.{
  ℕ, ◌≡◌, refl, subst, Bool, true, false, List, Option, none, some, if◌then◌else◌, set,
}
use native.Mathlib.Decide.{ℕ_discrete}
use rv_emu.Hart.{HartState}
use rv_emu.Memory.Frame.{MipOnly}
use rv_emu.Plic.{at, and_then}
use rv_emu.Plic.Places.{at-set_self, at-set_ne}

-- A result, if there is one, satisfies `Q`.
pub record Ensures {A : Type 0} (Q : A → Type 0) (o : Option A) : Type 0 where
  pub gives : (a : A) → o ≡ some a → Q a

module _ {A : Type 0} (Q : A → Type 0) where
  pub Ensures-none : Ensures Q none
  Ensures-none = record { gives = λ a e. absurd (cc) }

  pub Ensures-some : (a : A) → Q a → Ensures Q (some a)
  Ensures-some a h = record { gives = λ b e. subst Q (cc) h }

  pub Ensures-if :
      (b : Bool) (o p : Option A) → Ensures Q o → Ensures Q p → Ensures Q (if b then o else p)
  Ensures-if true o p h k = h
  Ensures-if false o p h k = k

  pub Ensures-look :
      {C : Type 0} (o : Option C) (f : C → Option A)
      → ((c : C) → Ensures Q (f c))
      → Ensures Q (and_then o f)
  Ensures-look none f k = Ensures-none
  Ensures-look (some c) f k = k c

  pub Ensures-bind :
      {C : Type 0} (P : C → Type 0) (o : Option C) (f : C → Option A)
      → Ensures P o
      → ((c : C) → P c → Ensures Q (f c))
      → Ensures Q (and_then o f)
  Ensures-bind P none f h k = Ensures-none
  Ensures-bind P (some c) f h k = k c (h.gives c refl)

  -- What is looked up is there.
  pub Ensures-found :
      {C : Type 0} (o : Option C) (f : C → Option A)
      → ((c : C) → o ≡ some c → Ensures Q (f c))
      → Ensures Q (and_then o f)
  Ensures-found none f k = Ensures-none
  Ensures-found (some c) f k = k c refl

pub ruleset ensures_rules = (Ensures-none, Ensures-some, Ensures-if, Ensures-look)

pub MipOnly-trans : (a b c : HartState) → MipOnly a b → MipOnly b c → MipOnly a c
MipOnly-trans a b c p q = (q.0, rw (q.1, p.1) refl)

-- What stands at a place of two lists.
abbrev pub SamePlace : Option HartState → Option HartState → Type 0
SamePlace none none = Unit
SamePlace none (some b) = ⊥
SamePlace (some a) none = ⊥
SamePlace (some a) (some b) = MipOnly a b

abbrev pub SameHarts : List HartState → List HartState → Type 0
SameHarts xs ys = (k : ℕ) → SamePlace (at xs k) (at ys k)

SamePlace-refl : (o : Option HartState) → SamePlace o o
SamePlace-refl none = tt
SamePlace-refl (some a) = (a.mip, refl)

SamePlace-trans : (o p q : Option HartState) → SamePlace o p → SamePlace p q → SamePlace o q
SamePlace-trans none none none h k = tt
SamePlace-trans none none (some c) h k = k
SamePlace-trans none (some b) q h k = absurd h
SamePlace-trans (some a) none q h k = absurd h
SamePlace-trans (some a) (some b) none h k = k
SamePlace-trans (some a) (some b) (some c) h k = MipOnly-trans a b c h k

pub SameHarts-refl : (xs : List HartState) → SameHarts xs xs
SameHarts-refl xs k = SamePlace-refl (at xs k)

pub SameHarts-trans :
    (xs ys zs : List HartState) → SameHarts xs ys → SameHarts ys zs → SameHarts xs zs
SameHarts-trans xs ys zs h g k = SamePlace-trans (at xs k) (at ys k) (at zs k) (h k) (g k)

pub SameHarts-set :
    (xs : List HartState) (i : ℕ) (hs hs' : HartState)
    → at xs i ≡ some hs
    → MipOnly hs hs'
    → SameHarts xs (set xs i hs')
SameHarts-set xs i hs hs' e m k = elim (ℕ_discrete i k) [
  | yes same ↦ rw (← same, e, at-set_self xs i hs hs' e, SamePlace) m
  | no other ↦ rw (at-set_ne xs i k hs' other) (SamePlace-refl (at xs k))
]
