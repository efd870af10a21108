-- ===== src/Guard/Traps.antt =====
-- What the traps and the returns of hartexc.cpp and cpu.cpp keep of a hart.
use rv_emu.Base.{
  ℕ, refl, arith, bit, inl, inr, Bool-cases, List, [], ◌∷◌, ltb, not, ◌&&◌, ◌||◌, ◌==◌,
}
use rv_emu.Hart.{HartState, HartException, is_noexc}
use rv_emu.Trap.{
  create_exception, enter_s, enter_m, try_setints, try_sip, supervisor_ints, machine_ints,
  setup_pending_int, mret, sret,
}
use rv_emu.Guard.{Guarded, Guarded-refl, Guarded-trans, same-Guarded}

pub create_exception-Guarded :
    (hs : HartState) (he : HartException) (tval : ℕ) → Guarded hs (create_exception hs he tval).0
unfolding create_exception enter_s enter_m
create_exception-Guarded hs he tval =
    same-Guarded hs _ (ground arith) (ground arith) (ground arith) (ground arith)
      (λ m. ground (arith, m))

try_setints-Guarded :
    (l : List (ℕ × HartException)) (hs : HartState) → Guarded hs (try_setints l hs).0
unfolding try_setints
try_setints-Guarded [] hs = Guarded-refl hs
try_setints-Guarded ((b, e) ∷ rest) hs = elim (Bool-cases (bit hs.mip b)) [
  | inr off ↦ rw (off, try_setints) (try_setints-Guarded rest hs)
  | inl on ↦
      let first = create_exception-Guarded hs e 0 in
      let next = (create_exception hs e 0).0 in
      elim (Bool-cases (is_noexc (create_exception hs e 0).1)) [
        | inr taken ↦ rw (on, taken, try_setints) first
        | inl refused ↦
            rw (on, refused, try_setints)
              (Guarded-trans hs next _ first (try_setints-Guarded rest next))
      ]
]

try_sip-Guarded : (hs : HartState) → Guarded hs (try_sip hs).0
unfolding try_sip
try_sip-Guarded hs = elim (Bool-cases (bit hs.mstatus 1 && not (hs.mip == 0))) [
  | inl on ↦ rw on (try_setints-Guarded supervisor_ints hs)
  | inr off ↦ rw off (Guarded-refl hs)
]

pub setup_pending_int-Guarded : (hs : HartState) → Guarded hs (setup_pending_int hs).0
unfolding setup_pending_int
setup_pending_int-Guarded hs =
    let first = try_setints-Guarded machine_ints hs in
    let tried = try_setints machine_ints hs in
    elim (Bool-cases ((bit hs.mstatus 3 || ltb hs.privmode 3) && not (hs.mip == 0))) [
      | inr shut ↦ rw shut (try_sip-Guarded hs)
      | inl open_ ↦ elim (Bool-cases tried.1) [
        | inl taken ↦ rw (open_, taken) first
        | inr none_taken ↦
            rw (open_, none_taken) (Guarded-trans hs tried.0 _ first (try_sip-Guarded tried.0))
      ]
    ]

pub mret-Guarded : (hs : HartState) → Guarded hs (mret hs)
unfolding mret
mret-Guarded hs = same-Guarded hs _ refl refl refl refl (λ m. ground arith)

pub sret-Guarded : (hs : HartState) → Guarded hs (sret hs)
unfolding sret
sret-Guarded hs = same-Guarded hs _ refl refl refl refl (λ m. ground arith)
