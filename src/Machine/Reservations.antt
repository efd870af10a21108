-- ===== src/Machine/Reservations.antt =====
-- main.cpp: the reservations of LR and SC in every state that the threads of the harts reach.
use rv_emu.Base.{ℕ, Bool, true, false, not, ◌&&◌, ◌||◌, Option, none, some, if◌then◌else◌}
use rv_emu.Platform.{Platform}
use rv_emu.Memory.{Board, Run}
use rv_emu.Memory.Keeps.{Holds}
use rv_emu.Cycle.{cycle}
use rv_emu.Cycle.Reservations.{cycle-Exclusive}
use rv_emu.Exec.Reservations.{IsExclusive}
use rv_emu.Machine.{
  System, update, turn, Step, turns_to, interrupts, moves, signals, Reach, start, later,
}
use rv_emu.Machine.Safety.{Result}

abbrev Undisputed : {D : Type 0} → System D → Type 0
Undisputed s = IsExclusive s.world.reservations

if-Undisputed :
    {D : Type 0} (s : System D) (b : Bool) (o : Option (System D))
    → Undisputed s
    → Result Undisputed o
    → Result Undisputed (if b then some s else o)
if-Undisputed s true o ex h = ex
if-Undisputed s false o ex h = h

resumed :
    {D : Type 0} (s : System D) (i : ℕ) (o : Option (Bool × Run D))
    → Holds (λ r. IsExclusive r.world.reservations) o
    → Result Undisputed (elim o [
      | none ↦ none
      | some (going, r) ↦ some (record {
        hartlist = update s.hartlist i r.hs;
        running = update s.running i (going && not s.interrupted);
        world = r.world;
        interrupted = s.interrupted || not (going && not s.interrupted);
      })
    ])
resumed s i none h = tt
resumed s i (some (going, r)) h = h

module _ {D : Type 0} (B : Board D) (P : Platform) (sig_mode : Bool) where
  turn-Undisputed :
      (s : System D) (i : ℕ) → Undisputed s → Result Undisputed (turn B P sig_mode i s)
  unfolding turn
  turn-Undisputed s i ex =
      let r : Run D = record { hs = s.hartlist i; world = s.world } in
      if-Undisputed s (not (s.running i)) _ ex
        (resumed s i (cycle B P sig_mode r) ((cycle-Exclusive B P sig_mode).at r ex))

  Step-Undisputed : {s t : System D} → Undisputed s → Step B P sig_mode s t → Undisputed t
  Step-Undisputed {s} ex (turns_to i e) = rw e at (turn-Undisputed s i ex)
  Step-Undisputed ex interrupts = ex
  Step-Undisputed ex (moves d) = ex
  Step-Undisputed ex (signals i mip chk_int) = ex

  -- For any devices, if no two harts hold a reservation on the same address, then neither do they in
  -- any state reached by turns of the threads of the harts, whatever instructions they execute and
  -- whether these fault or not, and by changes of mip, of chk_int, of the devices and of the flag.
  pub Reach-IsExclusive :
      {s t : System D}
      → IsExclusive s.world.reservations
      → Reach B P sig_mode s t
      → IsExclusive t.world.reservations
  Reach-IsExclusive ex start = ex
  Reach-IsExclusive ex (later before step) = Step-Undisputed (Reach-IsExclusive ex before) step
