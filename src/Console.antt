-- ===== src/Console.antt =====
-- io.cpp: where the characters of the serial terminal go. A stream is the list of the characters
-- printed to it. A result `none` is undefined behaviour.
use rv_emu.Base.{ℕ, Bool, List, [], ◌∷◌, ◌++◌, Option, none, some, ◌==◌, if◌then◌else◌}
use rv_emu.Plic.{and_then}

-- `pty_master_out` is opened only where the fallback is not taken.
pub record Console : Type 0 where
  pub sig_mode : Bool
  pub dbg_fallback : Bool
  pub stdout : List ℕ
  pub pty_master_out : List ℕ

-- What a conversion %s prints of an array: the characters up to the first NUL.
unfoldable pub c_string : List ℕ → Option (List ℕ)
c_string [] = none
c_string (c ∷ cs) =
    let rest = c_string cs in if c == 0 then some [] else and_then rest (λ text. some (c ∷ text))

unfoldable pub dbg_print : List ℕ → Console → Console
dbg_print text c = if c.sig_mode then c else record c { stdout = c.stdout ++ text }

unfoldable pub pty_print : List ℕ → Console → Option Console
pty_print msg c = and_then (c_string msg) (λ text.
    if c.dbg_fallback
    then some (dbg_print text c)
    else some (record c { pty_master_out = c.pty_master_out ++ text }))

-- There is no test of the fallback.
unfoldable pub pty_endl : Console → Option Console
pty_endl c =
    if c.dbg_fallback
    then none
    else some (record c { pty_master_out = c.pty_master_out ++ (0xa ∷ []) })
