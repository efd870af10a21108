-- ===== src/Signature.antt =====
-- main.cpp: the dump of the signature. A line is the list of the bytes that it shows, each as two
-- hexadecimal digits. A result `none` is a read past the memory, or no rounds left.
pub mod Lines
use rv_emu.Base.{
  ℕ, zero, suc, ◌+◌, ◌-◌, ◌^◌, Bool, not, List, [], ◌∷◌, Option, none, some, ltb, if◌then◌else◌,
  u64,
}
use rv_emu.Plic.{and_then}

module _ (mem_size : ℕ) (main_mem : ℕ → ℕ) (begin_signature : ℕ) where
  -- The loop over a line, from `chunk_offset` 15 down; `count` is one more than it is.
  unfoldable pub signature_line : ℕ → ℕ → Option (List ℕ)
  signature_line offset zero = some []
  signature_line offset (suc chunk_offset) =
      let place = u64 (begin_signature + (2 ^ 64 - 0x8000_0000) + offset + chunk_offset) in
      let rest = signature_line offset chunk_offset in
      if ltb place mem_size then and_then rest (λ bytes. some (main_mem place ∷ bytes)) else none

  -- The loop over the lines, on fuel.
  unfoldable pub signature_loop : ℕ → ℕ → ℕ → Option (List (List ℕ))
  signature_loop zero sig_difference offset = none
  signature_loop (suc fuel) sig_difference offset =
      let rest = signature_loop fuel sig_difference (u64 (offset + 16)) in
      if not (ltb offset sig_difference)
      then some []
      else and_then (signature_line offset 16)
          (λ line. and_then rest (λ lines. some (line ∷ lines)))

  unfoldable pub dump_signature : ℕ → ℕ → Option (List (List ℕ))
  dump_signature fuel end_signature =
      signature_loop fuel (u64 (end_signature + (2 ^ 64 - begin_signature))) 0
