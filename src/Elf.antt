-- ===== src/Elf.antt =====
-- elf.cpp: a program file into the main memory. What libelf and the system's calls give for the file
-- is the record `File`. A result `none` is undefined behaviour: bytes past the memory, or no name
-- where one is read.
pub mod Segments
use rv_emu.Base.{
  ℕ, zero, suc, ◌+◌, ◌-◌, ◌*◌, ◌/◌, ◌^◌, Bool, true, false, not, ◌&&◌, ◌||◌, List, [], ◌∷◌, Option,
  none, some, ltb, leb, ◌==◌, if◌then◌else◌, length, get_or, u64,
}
use rv_emu.Plic.{and_then}
use rv_emu.Memory.{dram_base}

pub record Phdr : Type 0 where
  pub p_type : ℕ
  pub p_paddr : ℕ
  pub p_memsz : ℕ
  pub p_offset : ℕ

-- A symbol's name, if `elf_strptr` has one, and its `st_value`.
pub record Symbol : Type 0 where
  pub name : Option (List ℕ)
  pub st_value : ℕ

-- A section's header, and `gelf_getsym` on its data.
pub record Section : Type 0 where
  pub sh_type : ℕ
  pub sh_size : ℕ
  pub sh_entsize : ℕ
  pub getsym : ℕ → Symbol

-- `read` and `pread` take the count, and the offset, and give the bytes that they store, or none for
-- the result -1. The sections are those that `elf_nextscn` goes through.
pub record File : Type 0 where
  pub version : Bool
  pub begins : Bool
  pub kind_elf : Bool
  pub read : ℕ → Option (List ℕ)
  pub pread : ℕ → ℕ → Option (List ℕ)
  pub phdrs : List Phdr
  pub sections : List Section

-- What the loading changes.
pub record Image : Type 0 where
  pub main_mem : ℕ → ℕ
  pub begin_signature : ℕ
  pub end_signature : ℕ

-- Bytes from an address on.
abbrev pub covers : ℕ → List ℕ → ℕ → Bool
covers at_ bytes b = leb at_ b && ltb (b - at_) (length bytes)

unfoldable pub copy : ℕ → List ℕ → (ℕ → ℕ) → ℕ → ℕ
copy at_ bytes m b = if covers at_ bytes b then get_or bytes (b - at_) 0 else m b

abbrev pub load_addr : ℕ → Phdr → ℕ
load_addr mem_offset p = u64 (p.p_paddr + mem_offset - 0x8000_0000)

-- Neither `continue` is taken; PT_LOAD is 1.
abbrev pub is_loaded : Phdr → Bool
is_loaded p = p.p_type == 1 && leb 0x8000_0000 p.p_paddr

-- `begin_signature` and `end_signature`, of 15 and 13 characters.
abbrev pub begin_name : List ℕ
begin_name =
    98 ∷ 101 ∷ 103 ∷ 105 ∷ 110 ∷ 95 ∷ 115 ∷ 105 ∷ 103 ∷ 110 ∷ 97 ∷ 116 ∷ 117 ∷ 114 ∷ 101 ∷ []

abbrev pub end_name : List ℕ
end_name = 101 ∷ 110 ∷ 100 ∷ 95 ∷ 115 ∷ 105 ∷ 103 ∷ 110 ∷ 97 ∷ 116 ∷ 117 ∷ 114 ∷ 101 ∷ []

-- `strcmp(a, b) == 0`.
unfoldable pub same_string : List ℕ → List ℕ → Bool
same_string [] [] = true
same_string [] (y ∷ ys) = false
same_string (x ∷ xs) [] = false
same_string (x ∷ xs) (y ∷ ys) = x == y && same_string xs ys

unfoldable pub note_symbol : Symbol → Image → Option Image
note_symbol s image = and_then s.name (λ name. some (
    if same_string name begin_name
    then record image { begin_signature = s.st_value }
    else if same_string name end_name
    then record image { end_signature = s.st_value }
    else image))

-- The loop over the symbols, with `left` to go.
unfoldable pub note_symbols : (ℕ → Symbol) → ℕ → ℕ → Image → Option Image
note_symbols getsym zero i image = some image
note_symbols getsym (suc left) i image =
    and_then (note_symbol (getsym i) image) (note_symbols getsym left (i + 1))

-- The loop to the first symbol table; SHT_SYMTAB is 2.
unfoldable pub find_symtab : List Section → Option Section
find_symtab [] = none
find_symtab (s ∷ rest) =
    let later = find_symtab rest in if not (s.sh_type == 2) then later else some s

unfoldable pub note_signature : List Section → Image → Option Image
note_signature sections image = elim (find_symtab sections) [
  | none ↦ some image
  | some s ↦
      if s.sh_entsize == 0 then none else note_symbols s.getsym (s.sh_size / s.sh_entsize) 0 image
]

module _ (mem_size : ℕ) (f : File) (mem_offset : ℕ) where
  -- Bytes that are read into the memory.
  unfoldable pub place : ℕ → List ℕ → (ℕ → ℕ) → Option (ℕ → ℕ)
  place at_ bytes m = if leb (at_ + length bytes) mem_size then some (copy at_ bytes m) else none

  -- The loop over the segments: whether all were read, `file_size`, and the memory.
  unfoldable pub load_phdrs : List Phdr → ℕ → (ℕ → ℕ) → Option (Bool × ℕ × (ℕ → ℕ))
  load_phdrs [] file_size m = some (true, file_size, m)
  load_phdrs (p ∷ rest) file_size m =
      if not (is_loaded p)
      then load_phdrs rest file_size m
      else elim (f.pread p.p_memsz p.p_offset) [
        | none ↦ some (false, file_size, m)
        | some bytes ↦
            and_then (place (load_addr mem_offset p) bytes m)
              (λ m'. load_phdrs rest (u64 (file_size + length bytes)) m')
      ]

  -- The file as it is, where it is no ELF file. -1 is returned as the largest size.
  unfoldable pub load_flat : Image → Option (ℕ × Image)
  load_flat image = elim (f.read 0x200_0000) [
    | none ↦ some (2 ^ 64 - 1, image)
    | some bytes ↦
        and_then (place mem_offset bytes image.main_mem)
          (λ m. some (length bytes, record image { main_mem = m }))
  ]

  unfoldable pub load_elf : Bool → Image → Option (ℕ × Image)
  load_elf sig_mode image =
      if not f.version
      then some (0, image)
      else if not f.begins || not f.kind_elf
      then load_flat image
      else and_then (load_phdrs f.phdrs 0 image.main_mem) (λ r.
        let loaded = record image { main_mem = r.2 } in
        if not r.0
        then some (0, loaded)
        else and_then (if sig_mode then note_signature f.sections loaded else some loaded)
            (λ noted. some (r.1, noted)))
