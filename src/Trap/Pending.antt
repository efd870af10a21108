-- ===== src/Trap/Pending.antt =====
-- Which pending interrupt `setup_pending_int` of hartexc.cpp takes.
mod Tries
use rv_emu.Base.{
  ℕ, ◌+◌, ◌^◌, ◌<◌, ◌≡◌, refl, Bool, true, false, ◌&&◌, arith, bit, inl, inr, Bool-cases, List, [],
  ◌∷◌, map, Option, none, some, if◌then◌else◌,
}
use rv_emu.Hart.{HartState, HartException, code, is_noexc}
use rv_emu.Trap.{create_exception, machine_ints, setup_pending_int}
use rv_emu.Trap.Rule.{IsMode, flushed, delegated, accepts, Entered}
use rv_emu.Trap.Entry.{create_exception-Ends}
use rv_emu.Trap.Pending.Tries.{takes, first_taken, Tried, setup_pending_int-Tried}

-- The first of some causes that is pending and that the rule of `Trap.Rule` accepts.
abbrev pub first_accepted : List ℕ → HartState → Option ℕ
first_accepted [] hs = none
first_accepted (c ∷ rest) hs =
    if bit hs.mip c && accepts hs c then some c else first_accepted rest hs

-- An interrupt of that cause was taken, or none.
abbrev pub Taken : HartState → Option ℕ → HartState × Bool → Type 0
Taken hs (some c) result =
    (result.1 ≡ true) × Entered (delegated hs.mideleg hs.privmode c) hs (2 ^ 63 + c) c 0 result.0
Taken hs none result = (result.1 ≡ false) × (flushed result.0 ≡ flushed hs)

-- The bits that the code tests are those of the causes that it raises.
abbrev AreCoded : List (ℕ × HartException) → Type 0
AreCoded [] = Unit {0}
AreCoded ((b, e) ∷ rest) =
    (code e ≡ 2 ^ 63 + b) × (b < 2 ^ 63) × (is_noexc e ≡ false) × AreCoded rest

machine_ints-AreCoded : AreCoded machine_ints
unfolding code
machine_ints-AreCoded = (
  refl,
  omega arith,
  refl,
  (
    refl,
    omega arith,
    refl,
    (
      refl,
      omega arith,
      refl,
      (refl, omega arith, refl, (refl, omega arith, refl, (refl, omega arith, refl, tt))),
    ),
  ),
)

takes-accepts :
    (hs : HartState) (e : HartException) (c : ℕ)
    → IsMode hs.privmode
    → c < 2 ^ 63
    → code e ≡ 2 ^ 63 + c
    → is_noexc e ≡ false
    → (takes hs e ≡ accepts hs c)
      × (accepts hs c ≡ true
          → Entered
              (delegated hs.mideleg hs.privmode c)
              hs
              (2 ^ 63 + c)
              c
              0
              (create_exception hs e 0).0)
takes-accepts hs e c m small coded real =
    let ends = create_exception-Ends hs e 0 c true m small coded in
    elim (Bool-cases (accepts hs c)) [
      | inl on ↦ let q = rw on at ends in (rw (on, q.0, real) refl, λ _. rw (← coded) (q.1))
      | inr off ↦ let q = rw off at ends in (rw (off, q) refl, λ on. absurd (cc))
    ]

Tried-Taken :
    (hs : HartState) (l : List (ℕ × HartException)) (r : HartState × Bool)
    → IsMode hs.privmode
    → AreCoded l
    → Tried hs (first_taken l hs) r
    → Taken hs (first_accepted (map (λ p. p.0) l) hs) r
Tried-Taken hs [] r m a t = (t.1, t.0)
Tried-Taken hs ((b, e) ∷ rest) r m a t =
    let q = takes-accepts hs e b m a.1 a.0 a.2 in
    elim (Bool-cases (bit hs.mip b && accepts hs b)) [
      | inl on ↦ let t' = rw (q.0, on) at t in rw (on, t') (refl, q.1 (ground (arith, on)))
      | inr off ↦ let t' = rw (q.0, off) at t in rw off (Tried-Taken hs rest r m a.3 t')
    ]

-- In mode U, S or M, if an interrupt is pending in mip that the rule of create_exception accepts, the
-- first of these in the order MEI, MSI, MTI, SEI, SSI, STI is taken, with its cause, in the mode that
-- mideleg gives for it; if there is none the result is false and at most the instruction buffer
-- changes.
pub setup_pending_int-Taken :
    (hs : HartState)
    → IsMode hs.privmode
    → Taken hs (first_accepted (11 ∷ 3 ∷ 7 ∷ 9 ∷ 1 ∷ 5 ∷ []) hs) (setup_pending_int hs)
setup_pending_int-Taken hs m =
    Tried-Taken hs machine_ints (setup_pending_int hs) m machine_ints-AreCoded
      (setup_pending_int-Tried hs m)
