-- ===== src/Memory/Keeps.antt =====
-- What holds before and after an access: a rule for every operation of `Memory`.
use rv_emu.Base.{◌≡◌, refl, Bool, true, false, if◌then◌else◌, Option, none, some, subst, sym}
use rv_emu.Hart.{HartState}
use rv_emu.Memory.{Run, World, M, pure, undefined, gets, modify, get_world, set_world, ◌>>=◌}

-- The state after an access, if it is defined, satisfies `P`.
abbrev pub Holds : {D A : Type 0} → (Run D → Type 0) → Option (A × Run D) → Type 0
Holds P none = Unit
Holds P (some (a, r)) = P r

-- An access that is followed by other code.
pub run_bind :
    {D A C : Type 0} (m : M D A) (f : A → M D C) {r r' : Run D} {a : A} {o : Option (C × Run D)}
    → m r ≡ some (a, r')
    → f a r' ≡ o
    → (m >>= f) r ≡ o
unfolding ◌>>=◌
run_bind {D} {A} {C} m f {r' = r'} {a} {o} e g =
    subst
      (λ (x : Option (A × Run D)).
        elim x as (λ _. Option (C × Run D)) [ none ↦ none | some (b, q) ↦ f b q ] ≡ o)
      (sym e) g

pub record Keeps {D A : Type 0} (P : Run D → Type 0) (m : M D A) : Type 0 where
  pub at : (r : Run D) → P r → Holds P (m r)

module _ {D : Type 0} {P : Run D → Type 0} where
  pub Keeps-pure : {A : Type 0} (a : A) → Keeps P (pure a)
  unfolding pure
  Keeps-pure a = record { at = λ r h. h }

  pub Keeps-undefined : {A : Type 0} → Keeps P (undefined {A = A})
  unfolding undefined
  Keeps-undefined = record { at = λ r h. tt }

  pub Keeps-gets : {A : Type 0} (f : HartState → A) → Keeps P (gets f)
  unfolding gets
  Keeps-gets f = record { at = λ r h. h }

  pub Keeps-get_world : {A : Type 0} (f : World D → A) → Keeps P (get_world f)
  unfolding get_world
  Keeps-get_world f = record { at = λ r h. h }

  pub Keeps-modify :
      (f : HartState → HartState)
      → ((r : Run D) → P r → P (record r { hs = f r.hs }))
      → Keeps P (modify f)
  unfolding modify
  Keeps-modify f k = record { at = k }

  pub Keeps-set_world :
      (f : World D → World D)
      → ((r : Run D) → P r → P (record r { world = f r.world }))
      → Keeps P (set_world f)
  unfolding set_world
  Keeps-set_world f k = record { at = k }

  Holds-bind :
      {A B : Type 0} (o : Option (A × Run D)) (rest : A → M D B)
      → Holds P o
      → ((a : A) → Keeps P (rest a))
      → Holds P (elim o [ none ↦ none | some (a, r') ↦ rest a r' ])
  Holds-bind none rest h k = tt
  Holds-bind (some (a, r)) rest h k = (k a).at r h

  pub Keeps-bind :
      {A B : Type 0} (first : M D A) (rest : A → M D B)
      → Keeps P first
      → ((a : A) → Keeps P (rest a))
      → Keeps P (first >>= rest)
  unfolding ◌>>=◌
  Keeps-bind first rest h k = record {
    at = λ r before. Holds-bind (first r) rest (h.at r before) k;
  }

  -- Each branch may use the outcome of the test.
  pub Keeps-if :
      {A : Type 0} (test : Bool) (taken other : M D A)
      → (test ≡ true → Keeps P taken)
      → (test ≡ false → Keeps P other)
      → Keeps P (if test then taken else other)
  Keeps-if false taken other h k = k refl
  Keeps-if true taken other h k = h refl

pub ruleset keeps_rules = (
  Keeps-undefined, Keeps-pure, Keeps-get_world, Keeps-gets, Keeps-bind, Keeps-if, Keeps-set_world,
)
