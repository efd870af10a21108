-- ===== src/Trap/Pending/Tries.antt =====
-- The order in which `setup_pending_int` of hartexc.cpp tries the interrupts, by what `create_exception`
-- does with each.
use rv_emu.Base.{
  ℕ, ◌≡◌, refl, Bool, true, false, not, ◌&&◌, ◌||◌, arith, bit, inl, inr, Bool-cases, List, [], ◌∷◌,
  Option, none, some, if◌then◌else◌, ◌==◌, ltb, sym, ap, ◌∙◌,
}
use rv_emu.Hart.{HartState, HartException, is_noexc, mextint, msoftint, mtimeint}
use rv_emu.Trap.{
  create_exception, is_interrupt, try_setints, try_sip, supervisor_ints, machine_ints,
  setup_pending_int,
}
use rv_emu.Trap.Rule.{IsMode, flushed}
use rv_emu.Trap.Entry.{
  create_exception-masked_m, create_exception-refused, create_exception-flushed,
}

-- The hart takes the interrupt, if it is raised.
abbrev pub takes : HartState → HartException → Bool
takes hs e = not (is_noexc (create_exception hs e 0).1)

-- The first of some interrupts that is pending and that the hart takes.
abbrev pub first_taken : List (ℕ × HartException) → HartState → Option HartException
first_taken [] hs = none
first_taken ((b, e) ∷ rest) hs = if bit hs.mip b && takes hs e then some e else first_taken rest hs

-- Interrupts only.
abbrev AllInts : List (ℕ × HartException) → Type 0
AllInts [] = Unit {0}
AllInts ((b, e) ∷ rest) = (is_interrupt e ≡ true) × (is_noexc e ≡ false) × AllInts rest

first_taken-flushed :
    (l : List (ℕ × HartException)) (hs : HartState) → first_taken l (flushed hs) ≡ first_taken l hs
first_taken-flushed [] hs = refl
first_taken-flushed ((b, e) ∷ rest) hs =
    rw (create_exception-flushed hs e 0, first_taken-flushed rest hs)

-- The end of a run of TRY_SETINT: the first interrupt that can be taken was, or none was.
abbrev pub Tried : HartState → Option HartException → HartState × Bool → Type 0
Tried hs (some e) result = result ≡ ((create_exception hs e 0).0, true)
Tried hs none result = (flushed result.0 ≡ flushed hs) × (result.1 ≡ false)

Tried-flushed :
    (hs : HartState) (o : Option HartException) (result : HartState × Bool)
    → Tried (flushed hs) o result
    → Tried hs o result
Tried-flushed hs none result t = t
Tried-flushed hs (some e) result t = rw (← create_exception-flushed hs e 0) t

try_setints-Tried :
    (l : List (ℕ × HartException)) (hs : HartState)
    → AllInts l
    → Tried hs (first_taken l hs) (try_setints l hs)
unfolding try_setints
try_setints-Tried [] hs a = (refl, refl)
try_setints-Tried ((b, e) ∷ rest) hs a = elim (Bool-cases (bit hs.mip b)) [
  | inr off ↦ rw (off, try_setints) (try_setints-Tried rest hs a.2)
  | inl on ↦ elim (Bool-cases (is_noexc (create_exception hs e 0).1)) [
    | inr taken ↦ rw (on, taken, try_setints) refl
    | inl refused ↦
        rw
          (
            on,
            refused,
            try_setints,
            create_exception-refused hs e 0 a.1 refused,
            ← first_taken-flushed rest hs,
          )
          (Tried-flushed hs _ _ (try_setints-Tried rest (flushed hs) a.2))
  ]
]

first_taken-masked_m :
    (l : List (ℕ × HartException)) (hs : HartState)
    → AllInts l
    → hs.privmode ≡ 3
    → bit hs.mstatus 3 ≡ false
    → first_taken l hs ≡ none
first_taken-masked_m [] hs a m e = refl
first_taken-masked_m ((b, x) ∷ rest) hs a m e =
    ground (arith, create_exception-masked_m hs x 0, first_taken-masked_m rest hs a.2)

first_taken-zero :
    (l : List (ℕ × HartException)) (hs : HartState) → hs.mip ≡ 0 → first_taken l hs ≡ none
first_taken-zero [] hs z = refl
first_taken-zero ((b, x) ∷ rest) hs z = ground (arith, first_taken-zero rest hs z)

machine_ints-AllInts : AllInts machine_ints
unfolding is_interrupt
machine_ints-AllInts =
    (refl, refl, (refl, refl, (refl, refl, (refl, refl, (refl, refl, (refl, refl, tt))))))

supervisor_ints-AllInts : AllInts supervisor_ints
unfolding is_interrupt
supervisor_ints-AllInts = (refl, refl, (refl, refl, (refl, refl, tt)))

first_taken-tail :
    (b : ℕ) (e : HartException) (rest : List (ℕ × HartException)) (hs : HartState)
    → first_taken ((b, e) ∷ rest) hs ≡ none
    → first_taken rest hs ≡ none
first_taken-tail b e rest hs h = ground arith

supervisor_none :
    (hs : HartState) → first_taken machine_ints hs ≡ none → first_taken supervisor_ints hs ≡ none
supervisor_none hs h = first_taken-tail 7 mtimeint supervisor_ints hs (
    first_taken-tail 3 msoftint ((7, mtimeint) ∷ supervisor_ints) hs
      (first_taken-tail 11 mextint ((3, msoftint) ∷ (7, mtimeint) ∷ supervisor_ints) hs h))

try_sip-none : (hs : HartState) → first_taken supervisor_ints hs ≡ none → Tried hs none (try_sip hs)
unfolding try_sip
try_sip-none hs h =
    ground (arith, rw h at (try_setints-Tried supervisor_ints hs supervisor_ints-AllInts))

-- A pass over `machine_ints` leaves nothing for the pass over sip.
pass_both :
    (hs : HartState) (o : Option HartException) (r : HartState × Bool)
    → Tried hs o r
    → (o ≡ none → first_taken supervisor_ints hs ≡ none)
    → Tried hs o (if r.1 then (r.0, true) else try_sip r.0)
pass_both hs (some e) r t n = rw t refl
pass_both hs none r t n =
    let still : first_taken supervisor_ints r.0 ≡ none =
      sym (first_taken-flushed supervisor_ints r.0)
      ∙ ap (first_taken supervisor_ints) t.0
      ∙ first_taken-flushed supervisor_ints hs
      ∙ n refl in
    let q = try_sip-none r.0 still in rw t.1 (q.0 ∙ t.0, q.1)

-- With the gate of the first pass shut nothing can be taken.
first_taken-shut :
    (hs : HartState)
    → IsMode hs.privmode
    → ((bit hs.mstatus 3 || ltb hs.privmode 3) && not (hs.mip == 0)) ≡ false
    → first_taken machine_ints hs ≡ none
first_taken-shut hs m shut = elim (Bool-cases (hs.mip == 0)) [
  | inl z ↦ first_taken-zero machine_ints hs (ground arith)
  | inr n ↦ first_taken-masked_m machine_ints hs machine_ints-AllInts (ground arith) (ground arith)
]

-- In the code's terms: the first of the interrupts of the first block that `create_exception` takes.
pub setup_pending_int-Tried :
    (hs : HartState)
    → IsMode hs.privmode
    → Tried hs (first_taken machine_ints hs) (setup_pending_int hs)
unfolding setup_pending_int
setup_pending_int-Tried hs m =
    elim (Bool-cases ((bit hs.mstatus 3 || ltb hs.privmode 3) && not (hs.mip == 0))) [
      | inl entered ↦
          rw (entered, setup_pending_int)
            (pass_both hs (first_taken machine_ints hs) (try_setints machine_ints hs)
              (try_setints-Tried machine_ints hs machine_ints-AllInts) (supervisor_none hs))
      | inr shut ↦
          let nothing = first_taken-shut hs m shut in
          rw (shut, nothing, setup_pending_int) (try_sip-none hs (supervisor_none hs nothing))
    ]
