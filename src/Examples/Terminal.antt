-- ===== src/Examples/Terminal.antt =====
-- The serial terminal with a controller that has no priority for it.
use rv_emu.Base.{◌≡◌, refl, true, false, some, List, [], ◌∷◌, replicate, arith}
use rv_emu.Hart.{HartState}
use rv_emu.Hart.Reset.{hart_init}
use rv_emu.Plic.{Plic, plic_send_int, plic_init, plic_try_int, try_loop, try_ctx, at}
use rv_emu.Console.{Console}
use rv_emu.Uart.Signals.{Answers}
use rv_emu.Uart.Terminal.{Access, checks, prints, reads, sends, performed, promised, run, AreSent}
use rv_emu.Uart.State.{IsAudible}
use rv_emu.Uart.Refine.{Agrees, port_init, terminal_init, run_refines}

unfoldable silent : Console
silent = record { sig_mode = false; dbg_fallback = true; stdout = []; pty_master_out = [] }

unfoldable controller : Plic
controller = plic_init 1 (replicate 16 0) (0 ∷ []) (0 ∷ 0 ∷ [])

unfoldable harts : List HartState
harts = hart_init 4096 0 ∷ []

controller-Answers : Answers 1 controller harts
unfolding plic_send_int plic_init plic_try_int try_loop try_ctx at controller
controller-Answers = (_, refl)

-- A key and its reading, with "Hi" and a new line sent.
abbrev session : List Access
session = sends 72 ∷ checks 65 ∷ reads ∷ sends 105 ∷ prints ∷ reads ∷ sends 10 ∷ prints ∷ []

session-AreSent : AreSent session
session-AreSent = (
  λ e. omega (arith, e),
  (tt, (tt, (λ e. omega (arith, e), (tt, (tt, (λ e. omega (arith, e), (tt, tt))))))),
)

silent-IsAudible : IsAudible silent
unfolding silent
silent-IsAudible = refl

run_refines_example :
    Agrees 1
      (run (performed 1) session (port_init silent controller harts))
      (run promised session (terminal_init silent))
run_refines_example =
    run_refines 1 silent controller harts session silent-IsAudible controller-Answers
      session-AreSent

session_text :
    run promised session (terminal_init silent)
    ≡ some (
      0 ∷ 0 ∷ 65 ∷ 0 ∷ 0 ∷ 0 ∷ 0 ∷ 0 ∷ [],
      record { inbox = []; received = 1; text = 72 ∷ 105 ∷ 10 ∷ [] },
    )
unfolding promised silent
session_text = refl
