-- ===== src/Machine/Safety.antt =====
-- What holds of all harts in every state that main.cpp's threads reach.
use rv_emu.Base.{
  ℕ, ◌≡◌, refl, Bool, true, false, not, ◌&&◌, ◌||◌, Bool-cases, inl, inr, List, [], ◌∷◌, Option,
  none, some, Option-cases, ◌==◌, if◌then◌else◌, subst, arith, ◌∙◌,
}
use rv_emu.Hart.{HartState}
use rv_emu.Hart.Reset.{hart_init, reset_state}
use rv_emu.Platform.{Platform}
use rv_emu.Memory.{Board, Run, World}
use rv_emu.Memory.Keeps.{Holds}
use rv_emu.Memory.Frame.{IsBoard}
use rv_emu.Cycle.{cycle}
use rv_emu.Guard.{IsHart, same-KeepsLocked, same-Guarded}
use rv_emu.Guard.Exec.{IsSafe, Guarded-IsSafe}
use rv_emu.Guard.Cycles.{cycle-Safe}
use rv_emu.Guard.Reset.{hart_init-IsHart}
use rv_emu.Machine.{
  System, update, power_on, turn, turns, Step, turns_to, interrupts, moves, signals, Reach, start,
  later,
}

-- Each hart is well formed, is still the one with its number, and has kept what was locked.
abbrev pub AreSafe : {D : Type 0} → System D → System D → Type 0
AreSafe s t = (i : ℕ) → IsSafe (s.hartlist i) (t.hartlist i)

update-IsSafe :
    (old new : ℕ → HartState) (i : ℕ) (hs : HartState)
    → ((j : ℕ) → IsSafe (old j) (new j))
    → IsSafe (old i) hs
    → (j : ℕ) → IsSafe (old j) (update new i hs j)
update-IsSafe old new i hs all one j = elim (Bool-cases (j == i)) [
  | inr other ↦ rw other (all j)
  | inl same ↦ rw same (subst (λ k. IsSafe (old k) hs) (ground arith) one)
]

pub hart_init-hartid : (mem_size i : ℕ) → (hart_init mem_size i).hartid ≡ i
unfolding hart_init reset_state
hart_init-hartid mem_size i = refl

-- A system that results, if one does, satisfies `Q`.
abbrev pub Result : {D : Type 0} → (System D → Type 0) → Option (System D) → Type 0
Result Q none = Unit
Result Q (some t) = Q t

if-Result :
    {D : Type 0} (Q : System D → Type 0) (b : Bool) (o p : Option (System D))
    → Result Q o
    → Result Q p
    → Result Q (if b then o else p)
if-Result Q true o p h k = h
if-Result Q false o p h k = k

pub Result-map :
    {D : Type 0} (Q R : System D → Type 0) (o : Option (System D))
    → ((t : System D) → Q t → R t)
    → Result Q o
    → Result R o
Result-map Q R none f h = tt
Result-map Q R (some t) f h = f t h

pub Result-bind :
    {D : Type 0} (Q R : System D → Type 0) (o : Option (System D))
    (k : System D → Option (System D))
    → Result Q o
    → ((t : System D) → Q t → Result R (k t))
    → Result R (elim o [ none ↦ none | some t ↦ k t ])
Result-bind Q R none k h f = tt
Result-bind Q R (some t) k h f = f t h

resume :
    {D : Type 0} (s t : System D) (i : ℕ) (o : Option (Bool × Run D))
    → AreSafe s t
    → Holds (λ r. IsSafe (s.hartlist i) r.hs) o
    → Result (AreSafe s) (elim o [
      | none ↦ none
      | some (going, r) ↦ some (record {
        hartlist = update t.hartlist i r.hs;
        running = update t.running i (going && not t.interrupted);
        world = r.world;
        interrupted = t.interrupted || not (going && not t.interrupted);
      })
    ])
resume s t i none safe h = tt
resume s t i (some (going, r)) safe h = update-IsSafe s.hartlist t.hartlist i r.hs safe h

module _ {D : Type 0} (B : Board D) (board : IsBoard B) (P : Platform) (sig_mode : Bool) where
  turn-AreSafe : (s t : System D) (i : ℕ) → AreSafe s t → Result (AreSafe s) (turn B P sig_mode i t)
  unfolding turn
  turn-AreSafe s t i safe =
      let r : Run D = record { hs = t.hartlist i; world = t.world } in
      if-Result (AreSafe s) (not (t.running i)) _ _ safe (
        resume s t i (cycle B P sig_mode r) safe
          ((cycle-Safe B board (s.hartlist i) P sig_mode).at r (safe i)))

  Step-AreSafe : (s : System D) {t u : System D} → AreSafe s t → Step B P sig_mode t u → AreSafe s u
  Step-AreSafe s {t} safe (turns_to i e) = rw e at (turn-AreSafe s t i safe)
  Step-AreSafe s {t} safe interrupts = safe
  Step-AreSafe s {t} safe (moves d) = safe
  Step-AreSafe s {t} safe (signals i mip chk_int) =
      let hs = t.hartlist i in
      let new = record hs { csrs = record hs.csrs { mip = mip }; chk_int = chk_int } in
      update-IsSafe s.hartlist t.hartlist i new safe (
        Guarded-IsSafe (s.hartlist i) hs new (same-Guarded hs new refl refl refl refl (λ m. m))
          (safe i))

  -- If the handlers of the devices reach no more of the hart than mip, then in every state reached
  -- from one with well-formed harts by turns of the threads and by changes of mip, of chk_int, of
  -- the devices and of the flag, each hart is well formed, has its number, and has kept every
  -- locked entry, every address with a lock and every lock.
  pub Reach-AreSafe :
      {s t : System D} → ((i : ℕ) → IsHart (s.hartlist i)) → Reach B P sig_mode s t → AreSafe s t
  Reach-AreSafe {s} harts start =
      λ i. record { hart = harts i; locks = same-KeepsLocked _ _ refl; same_hartid = refl }
  Reach-AreSafe {s} harts (later before step) = Step-AreSafe s (Reach-AreSafe harts before) step

  turn-Reach :
      (s t : System D) (i : ℕ)
      → Reach B P sig_mode s t
      → Result (Reach B P sig_mode s) (turn B P sig_mode i t)
  turn-Reach s t i r = elim (Option-cases (turn B P sig_mode i t)) [
    | inl e ↦ rw (e, Result) tt
    | inr (u, e) ↦ rw (e, Result) (later r (turns_to i e))
  ]

  -- Turns in the order of a list are a path.
  turns-Reach :
      (s t : System D) (l : List ℕ)
      → Reach B P sig_mode s t
      → Result (Reach B P sig_mode s) (turns B P sig_mode l t)
  unfolding turns
  turns-Reach s t [] r = r
  turns-Reach s t (i ∷ rest) r =
      let path = Reach B P sig_mode s in
      Result-bind path path _ _ (turn-Reach s t i r) (λ u. turns-Reach s u rest)

  -- If the handlers of the devices reach no more of the hart than mip, then from the power-on
  -- state, after the turns of any list of harts, if they are defined, every hart is well formed and
  -- has its number.
  turns-IsHart :
      (mem_size : ℕ) (world : World D) (l : List ℕ)
      → Result
          (λ t. (i : ℕ) → IsHart (t.hartlist i) × ((t.hartlist i).hartid ≡ i))
          (turns B P sig_mode l (power_on mem_size world))
  turns-IsHart mem_size world l =
      let harts = λ (i : ℕ). hart_init-IsHart mem_size i in
      Result-map (Reach B P sig_mode (power_on mem_size world)) _ _
        (λ t r i.
          let safe = Reach-AreSafe harts r i in
          (safe.hart, safe.same_hartid ∙ hart_init-hartid mem_size i))
        (turns-Reach (power_on mem_size world) (power_on mem_size world) l start)
