-- ===== src/Soc/Run.antt =====
-- main.cpp: the threads of the harts, the main thread and the printing thread over the devices. A
-- thread runs for one cycle, one iteration of its loop or one print at a time.
pub mod Safety
use rv_emu.Base.{
  ℕ, zero, suc, ◌+◌, Bool, true, false, not, List, [], ◌∷◌, Option, none, some, ltb, ◌==◌,
  if◌then◌else◌,
}
use rv_emu.Hart.{HartState}
use rv_emu.Platform.{Platform}
use rv_emu.Memory.{World}
use rv_emu.Plic.{and_then}
use rv_emu.Plic.Registers.{plic_try_int_all}
use rv_emu.Aclint.{hw_perhart_update, aclint_mtimer_reset, Aclint}
use rv_emu.Uart.{Port, uart_loop}
use rv_emu.Uart.Registers.{uart_chk}
use rv_emu.Machine.{System, turn, signalled}
use rv_emu.Soc.{Devices, port, with_port, soc_board}

abbrev pub Soc : Type 0
Soc = System Devices

-- The harts from number `i` on, `left` of them.
unfoldable pub harts_from : (ℕ → HartState) → ℕ → ℕ → List HartState
harts_from harts zero i = []
harts_from harts (suc left) i = harts i ∷ harts_from harts left (i + 1)

abbrev pub with_devices : Soc → Devices → Soc
with_devices s d = record s { world = record s.world { devices = d } }

-- The harts as they are, for the handlers.
unfoldable pub load : ℕ → Soc → Soc
load n s = with_devices s (record s.world.devices { hartlist = harts_from s.hartlist n 0 })

-- What an operation did to `mip` and `chk_int` of the harts from number `k` on.
unfoldable pub deliver : List HartState → ℕ → Soc → Soc
deliver [] k s = s
deliver (hs ∷ rest) k s = deliver rest (k + 1) (signalled s k hs.mip hs.chk_int)

-- The same but for hart `i`, which has made the accesses itself.
unfoldable pub deliver_others : ℕ → List HartState → ℕ → Soc → Soc
deliver_others i [] k s = s
deliver_others i (hs ∷ rest) k s =
    deliver_others i rest (k + 1) (if k == i then s else signalled s k hs.mip hs.chk_int)

-- The loop over the harts in the main loop.
unfoldable pub update_harts : ℕ → Aclint → List HartState → Option (List HartState)
update_harts now a [] = some []
update_harts now a (hs ∷ rest) =
    let others = update_harts now a rest in
    and_then (hw_perhart_update now a hs)
      (λ updated. and_then others (λ harts. some (record updated { chk_int = true } ∷ harts)))

-- `hw_update`; `plic_chk` is `plic_try_int_all`.
unfoldable pub hw_update : ℕ → ℕ → Devices → Option Devices
hw_update n ch d = and_then (uart_chk n ch (port d)) (λ s.
    and_then (plic_try_int_all n s.plic s.hartlist)
      (λ harts. some (with_port d (record s { hartlist = harts }))))

-- An iteration of the main loop, for which the clock is read once; `ch` is what `pty_getc` returns.
unfoldable pub main_iteration : ℕ → ℕ → ℕ → Devices → Option Devices
main_iteration n now ch d =
    and_then (update_harts now d.aclint d.hartlist)
      (λ harts. hw_update n ch (record d { now = now; hartlist = harts }))

-- What runs next: the thread of a hart, the main thread, or the printing thread; or the clock is
-- read, or an interrupt key pressed.
pub data Event : Type 0 where
  hart_thread : ℕ → Event
  main_thread : ℕ → ℕ → Event
  printing_thread : Event
  clock : ℕ → Event
  timer_reset : Event
  sigint : Event

-- What an operation on the devices leaves of the system.
unfoldable pub on_devices : (Devices → Option Devices) → ℕ → Soc → Option Soc
on_devices f n s =
    and_then (f (load n s).world.devices) (λ d. some (deliver d.hartlist 0 (with_devices s d)))

module _ (n mem_size : ℕ) (P : Platform) (sig_mode : Bool) where
  unfoldable pub run_hart : ℕ → Soc → Option Soc
  run_hart i s =
      if not (ltb i n)
      then some s
      else and_then (turn (soc_board n mem_size) P sig_mode i (load n s))
          (λ t. some (deliver_others i t.world.devices.hartlist 0 t))

  -- The main thread leaves its loop once `interrupted` is set.
  unfoldable pub happen : Event → Soc → Option Soc
  happen (hart_thread i) s = run_hart i s
  happen (main_thread now ch) s =
      if s.interrupted then some s else on_devices (main_iteration n now ch) n s
  happen printing_thread s =
      on_devices (λ d. and_then (uart_loop n (port d)) (λ q. some (with_port d q))) n s
  happen (clock now) s = some (with_devices s (record s.world.devices { now = now }))
  happen timer_reset s =
      let d = s.world.devices in
      some (with_devices s (record d { aclint = aclint_mtimer_reset d.now d.aclint }))
  happen sigint s = some (record s { interrupted = true })

  unfoldable pub happens : List Event → Soc → Option Soc
  happens [] s = some s
  happens (e ∷ rest) s = and_then (happen e s) (happens rest)
