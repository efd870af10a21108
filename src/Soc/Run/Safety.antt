-- ===== src/Soc/Run/Safety.antt =====
-- What holds of all harts whatever the threads of main.cpp do, with the devices of the emulator.
use rv_emu.Base.{ℕ, Bool}
use rv_emu.Platform.{Platform}
use rv_emu.Machine.{Reach}
use rv_emu.Soc.{soc_board}
use rv_emu.Soc.Run.{Soc}

module _ (n mem_size : ℕ) (P : Platform) (sig_mode : Bool) (s : Soc) where
  abbrev Path_ : Soc → Type 0
  Path_ t = Reach (soc_board n mem_size) P sig_mode s t
