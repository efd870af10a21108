-- ===== src/Trap/Entry.antt =====
-- Where `create_exception` of hartexc.cpp takes a hart, and when it refuses, by the rule.
use rv_emu.Base.{
  ℕ, ◌^◌, ◌<◌, ◌≡◌, refl, Bool, true, false, not, ◌&&◌, ◌||◌, inl, inr, ltb, leb, ◌==◌,
  if◌then◌else◌, arith, bit, Bool-cases,
}
use rv_emu.Hart.{HartState, HartException, code, noexc, is_noexc}
use rv_emu.Trap.{
  create_exception, enter_s, enter_m, is_interrupt, is_masked, is_delegated, cause_of, vector,
  trap_s_status, trap_m_status,
}
use rv_emu.Trap.Rule.{
  IsMode, flushed, delegated, accepts, entry_pc, StatusS, StatusM, Entered, Ends, pattern_of,
}

module _ (he : HartException) (c : ℕ) (interrupt : Bool) (small : c < 2 ^ 63)
    (coded : code he ≡ pattern_of interrupt c) where
  is_interrupt-pattern_of : is_interrupt he ≡ interrupt
  unfolding is_interrupt
  is_interrupt-pattern_of = ground (arith, coded, small)

  cause_of-pattern_of : cause_of he ≡ c
  unfolding cause_of
  cause_of-pattern_of = ground (arith, coded, small)

vector-entry_pc : (tvec c : ℕ) → vector tvec c ≡ entry_pc tvec c
vector-entry_pc tvec c = ground arith

StatusS-trap_s_status : (x m : ℕ) → m < 2 → StatusS x m (trap_s_status x m)
unfolding trap_s_status
StatusS-trap_s_status x m h = omega arith

StatusM-trap_m_status : (x m : ℕ) → m < 4 → StatusM x m (trap_m_status x m)
unfolding trap_m_status
StatusM-trap_m_status x m h = omega arith

enter_s-Entered :
    (hs : HartState) (he : HartException) (tval c : ℕ)
    → cause_of he ≡ c
    → hs.privmode < 2
    → Entered true hs (code he) c tval (enter_s (flushed hs) he tval)
unfolding enter_s
enter_s-Entered hs he tval c e m = (
  trap_s_status hs.mstatus hs.privmode,
  rw (e, vector-entry_pc hs.stvec c) refl,
  StatusS-trap_s_status hs.mstatus hs.privmode m,
)

enter_m-Entered :
    (hs : HartState) (he : HartException) (tval c : ℕ)
    → cause_of he ≡ c
    → hs.privmode < 4
    → Entered false hs (code he) c tval (enter_m (flushed hs) he tval)
unfolding enter_m
enter_m-Entered hs he tval c e m = (
  trap_m_status hs.mstatus hs.privmode,
  rw (e, vector-entry_pc hs.mtvec c) refl,
  StatusM-trap_m_status hs.mstatus hs.privmode m,
)

-- The tests of the code and of the rule come to the same: `a` and `b` are MIE and SIE, `d` the bit of
-- the delegation register, `s` and `n` those of the enable registers.
gates :
    {A : Type 0} (p c : ℕ) (a b d s n : Bool) (x y z : A)
    → IsMode p
    → (if (p == 3 && not a) || (p == 1 && not b && not (c == 3) && not (c == 7) && not (c == 11))
        then z
        else if d && leb p 1
        then (if not s then z else x)
        else if not n
        then z
        else y)
      ≡ (if (if p == 1 && not b
            then (c == 3 || c == 7 || c == 11) && (if d && ltb p 2 then s else n)
            else if d && ltb p 2
            then s && (p == 0 || b)
            else n && (ltb p 3 || a))
          then (if d && ltb p 2 then x else y)
          else z)
gates p c a b d s n x y z (inl e) = rw e (ground arith)
gates p c a b d s n x y z (inr (inl e)) = rw e (ground arith)
gates p c a b d s n x y z (inr (inr e)) = rw e (ground arith)

at_most_one : (p : ℕ) → leb p 1 ≡ ltb p 2
at_most_one p = ground arith

-- The code's tests for a cause, in those terms.
create_exception-parts :
    (hs : HartState) (he : HartException) (tval c : ℕ) (interrupt : Bool)
    → IsMode hs.privmode
    → is_interrupt he ≡ interrupt
    → cause_of he ≡ c
    → create_exception hs he tval ≡ (
        if not interrupt || accepts hs c
        then (if delegated (if interrupt then hs.mideleg else hs.medeleg) hs.privmode c
            then (enter_s (flushed hs) he tval, he)
            else (enter_m (flushed hs) he tval, he))
        else (flushed hs, noexc))
unfolding create_exception is_masked is_delegated
create_exception-parts hs he tval c true m i e =
    rw (i, e)
      (gates hs.privmode c (bit hs.mstatus 3) (bit hs.mstatus 1) (bit hs.mideleg c) (bit hs.sie c)
        (bit hs.mie c) (enter_s (flushed hs) he tval, he) (enter_m (flushed hs) he tval, he)
        (flushed hs, noexc) m)
create_exception-parts hs he tval c false m i e = rw (i, e, at_most_one hs.privmode) refl

module _ (hs : HartState) (he : HartException) (tval c : ℕ) (e : cause_of he ≡ c)
    (m : IsMode hs.privmode) where
  Ends-if :
      (taken : Bool) (deleg : ℕ)
      → Ends taken (delegated deleg hs.privmode c) hs he c tval (
          if taken
          then (if delegated deleg hs.privmode c
              then (enter_s (flushed hs) he tval, he)
              else (enter_m (flushed hs) he tval, he))
          else (flushed hs, noexc))
  Ends-if false deleg = refl
  Ends-if true deleg = elim (Bool-cases (delegated deleg hs.privmode c)) [
    | inl on ↦ rw on (refl, enter_s-Entered hs he tval c e (ground (arith, on)))
    | inr off ↦ rw off (refl, enter_m-Entered hs he tval c e (ground (arith, m)))
  ]

pub create_exception-Ends :
    (hs : HartState) (he : HartException) (tval c : ℕ) (interrupt : Bool)
    → IsMode hs.privmode
    → c < 2 ^ 63
    → code he ≡ pattern_of interrupt c
    → Ends
        (not interrupt || accepts hs c)
        (delegated (if interrupt then hs.mideleg else hs.medeleg) hs.privmode c)
        hs
        he
        c
        tval
        (create_exception hs he tval)
create_exception-Ends hs he tval c interrupt m small coded =
    let i = is_interrupt-pattern_of he c interrupt small coded in
    let e = cause_of-pattern_of he c interrupt small coded in
    rw (create_exception-parts hs he tval c interrupt m i e) (
      Ends-if hs he tval c e m (not interrupt || accepts hs c)
        (if interrupt then hs.mideleg else hs.medeleg))

-- In M-mode an exception is taken there.
pub create_exception-machine :
    (hs : HartState) (he : HartException) (tval c : ℕ)
    → hs.privmode ≡ 3
    → c < 2 ^ 63
    → code he ≡ c
    → ((create_exception hs he tval).1 ≡ he)
      × Entered false hs c c tval (create_exception hs he tval).0
create_exception-machine hs he tval c machine small coded =
    let ends = create_exception-Ends hs he tval c false (inr (inr machine)) small coded in
    let here : delegated hs.medeleg hs.privmode c ≡ false = ground (arith, machine) in
    rw (here, coded) at ends

-- In M-mode with MIE clear every interrupt is refused.
pub create_exception-masked_m :
    (hs : HartState) (he : HartException) (tval : ℕ)
    → is_interrupt he ≡ true
    → hs.privmode ≡ 3
    → bit hs.mstatus 3 ≡ false
    → create_exception hs he tval ≡ (flushed hs, noexc)
unfolding create_exception is_masked
create_exception-masked_m hs he tval i m e = ground arith

-- What a refused trap leaves.
pub create_exception-refused :
    (hs : HartState) (he : HartException) (tval : ℕ)
    → is_noexc he ≡ false
    → is_noexc (create_exception hs he tval).1 ≡ true
    → (create_exception hs he tval).0 ≡ flushed hs
unfolding create_exception
create_exception-refused hs he tval ne h = ground arith

-- The instruction buffer has no part in it.
pub create_exception-flushed :
    (hs : HartState) (he : HartException) (tval : ℕ)
    → create_exception (flushed hs) he tval ≡ create_exception hs he tval
unfolding create_exception is_masked is_delegated
create_exception-flushed hs he tval = refl
