-- ===== src/Machine.antt =====
-- main.cpp: the harts as threads over one memory. A cycle of a hart is one step; between cycles of a
-- hart the devices and the other threads may set its `mip`, and the main loop sets `chk_int`.
pub mod Safety
pub mod Reservations
pub mod Stops
use rv_emu.Base.{
  ℕ, Bool, true, false, not, ◌&&◌, ◌||◌, List, ◌≡◌, [], ◌∷◌, Option, none, some, ◌==◌,
  if◌then◌else◌,
}
use rv_emu.Hart.{HartState}
use rv_emu.Hart.Reset.{hart_init}
use rv_emu.Platform.{Platform}
use rv_emu.Memory.{Board, Run, World}
use rv_emu.Cycle.{cycle}

-- `hartlist`, which threads are still in their loop, what the harts share, and the flag
-- `interrupted`.
pub record System (D : Type 0) : Type 0 where
  pub hartlist : ℕ → HartState
  pub running : ℕ → Bool
  pub world : World D
  pub interrupted : Bool

abbrev pub update : {A : Type 0} → (ℕ → A) → ℕ → A → ℕ → A
update f i a j = if j == i then a else f j

-- The loop over `hart_init`.
abbrev pub power_on : {D : Type 0} → ℕ → World D → System D
power_on mem_size world = record {
  hartlist = λ i. hart_init mem_size i;
  running = λ i. true;
  world = world;
  interrupted = false;
}

-- What the main loop does to a hart after `hw_perhart_update`, and what devices do to it at any
-- time.
abbrev pub signalled : {D : Type 0} → System D → ℕ → ℕ → Bool → System D
signalled s i mip chk_int =
    let hs = s.hartlist i in
    record s {
      hartlist =
          update s.hartlist i
            (record hs { csrs = record hs.csrs { mip = mip }; chk_int = chk_int });
    }

module _ {D : Type 0} (B : Board D) (P : Platform) (sig_mode : Bool) where
  -- One turn of the loop in `hart_loop` on the thread of hart `i`. It leaves the loop if the cycle
  -- says to halt or the flag is set, and then sets the flag.
  unfoldable pub turn : ℕ → System D → Option (System D)
  turn i s =
      if not (s.running i)
      then some s
      else elim (cycle B P sig_mode (record { hs = s.hartlist i; world = s.world })) [
        | none ↦ none
        | some (going, r) ↦
            let on = going && not s.interrupted in
            some (record {
              hartlist = update s.hartlist i r.hs;
              running = update s.running i on;
              world = r.world;
              interrupted = s.interrupted || not on;
            })
      ]

  -- The threads take turns in the order of a list.
  unfoldable pub turns : List ℕ → System D → Option (System D)
  unfolding turn
  turns [] s = some s
  turns (i ∷ rest) s = elim (turn i s) [ none ↦ none | some t ↦ turns rest t ]

  pub data Step (s : System D) : System D → Type 0 where
    turns_to : (i : ℕ) {t : System D} → turn i s ≡ some t → Step s t
    interrupts : Step s (record s { interrupted = true })
    moves : (d : D) → Step s (record s { world = record s.world { devices = d } })
    signals : (i mip : ℕ) (chk_int : Bool) → Step s (signalled s i mip chk_int)

  pub data Reach (s : System D) : System D → Type 0 where
    start : Reach s s
    later : {t u : System D} → Reach s t → Step t u → Reach s u
