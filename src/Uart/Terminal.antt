-- ===== src/Uart/Terminal.antt =====
-- What the serial terminal of uart.cpp promises: the characters typed come out of the receive
-- register in their order, and those sent are printed in theirs.
use rv_emu.Base.{
  ℕ, ◌+◌, ◌≢◌, List, [], ◌∷◌, ◌++◌, Option, none, some, leb, ◌==◌, if◌then◌else◌, sext,
}
use rv_emu.Plic.{and_then}
use rv_emu.Uart.{Port, uart_loop}
use rv_emu.Uart.Registers.{uart_r, uart_w, uart_chk}

-- The main thread's check with the character that `pty_getc` returns, a round of the printing
-- thread, and a hart's access to the first register.
pub data Access : Type 0 where
  checks : ℕ → Access
  prints : Access
  reads : Access
  sends : ℕ → Access

-- What is typed and not read, how many characters were typed, and what was sent.
pub record Terminal : Type 0 where
  pub inbox : List ℕ
  pub received : ℕ
  pub text : List ℕ

-- A character has a value that is read, 0 if there is none.
abbrev pub next_char : List ℕ → ℕ × List ℕ
next_char [] = (0, [])
next_char (c ∷ rest) = (sext 8 c, rest)

-- There is room for sixteen characters in all, and 255 is no character.
unfoldable pub promised : Access → Terminal → Option (ℕ × Terminal)
promised (checks ch) a =
    if ch == 255
    then some (0, a)
    else if leb 16 a.received
    then none
    else some (0, record a { inbox = a.inbox ++ (ch ∷ []); received = a.received + 1 })
promised prints a = some (0, a)
promised reads a = some ((next_char a.inbox).0, record a { inbox = (next_char a.inbox).1 })
promised (sends c) a = some (0, record a { text = a.text ++ (c ∷ []) })

-- The same accesses of the code.
unfoldable pub performed : ℕ → Access → Port → Option (ℕ × Port)
performed n (checks ch) s = and_then (uart_chk n ch s) (λ t. some (0, t))
performed n prints s = and_then (uart_loop n s) (λ t. some (0, t))
performed n reads s = and_then (uart_r 0 s.uart) (λ u. some (u.output_byte, record s { uart = u }))
performed n (sends c) s = and_then (uart_w n 0 c s) (λ t. some (0, t))

-- A sequence of accesses and what each reads.
abbrev pub run {ℓ} :
    {S : Type ℓ} → (Access → S → Option (ℕ × S)) → List Access → S → Option (List ℕ × S)
run step [] s = some ([], s)
run step (op ∷ rest) s =
    and_then (step op s) (λ r. and_then (run step rest r.1) (λ q. some (r.0 ∷ q.0, q.1)))

-- NUL is not sent.
abbrev pub IsSent : Access → Type 0
IsSent (sends c) = c ≢ 0
IsSent (checks ch) = Unit
IsSent prints = Unit
IsSent reads = Unit

abbrev pub AreSent : List Access → Type 0
AreSent [] = Unit
AreSent (op ∷ rest) = IsSent op × AreSent rest
