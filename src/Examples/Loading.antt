-- ===== src/Examples/Loading.antt =====
-- A file of one segment, and a signature in what it loads.
use rv_emu.Base.{
  ℕ, ◌+◌, ◌-◌, ◌*◌, ◌/◌, ◌≡◌, refl, true, false, none, some, List, [], ◌∷◌, length, arith, u64,
}
use rv_emu.Elf.{File, Image, Phdr, load_elf}
use rv_emu.Elf.Segments.{AreReadable, Loaded, total, load_elf-Loaded}
use rv_emu.Signature.{dump_signature}
use rv_emu.Signature.Lines.{in_order, bytes_from, dump_signature-in_order}

-- Three bytes to 0x80000100, and a note that is not loaded.
abbrev program : List Phdr
program =
    record { p_type = 1; p_paddr = 0x8000_0100; p_memsz = 3; p_offset = 64 }
    ∷ record { p_type = 4; p_paddr = 0x8000_0000; p_memsz = 9; p_offset = 67 }
    ∷ []

abbrev file : File
file = record {
  version = true;
  begins = true;
  kind_elf = true;
  read = λ count. none;
  pread = λ count offset. some (7 ∷ 8 ∷ 9 ∷ []);
  phdrs = program;
  sections = [];
}

abbrev empty : Image
empty = record { main_mem = λ a. 0; begin_signature = 0; end_signature = 0 }

program-AreReadable : AreReadable 4096 file 0 program
program-AreReadable = (λ e. (7 ∷ 8 ∷ 9 ∷ [], refl, omega arith), (λ e. absurd (cc), tt))

load_elf-Loaded_example :
    (m : ℕ → ℕ) × (load_elf 4096 file 0 false empty
      ≡ some (u64 (total 4096 file 0 program), record empty { main_mem = m }))
    × ((b : ℕ) → Loaded 4096 file 0 program b 0 (m b))
load_elf-Loaded_example =
    load_elf-Loaded 4096 file 0 empty (omega arith) refl refl refl program-AreReadable

program_size : total 4096 file 0 program ≡ 3
program_size = refl

-- Twenty bytes, so two lines.
dump_signature-in_order_example :
    (lines : List (List ℕ)) × (dump_signature 4096 (λ a. a) 0x8000_0100 3 0x8000_0114 ≡ some lines)
    × (length lines ≡ (0x8000_0114 - 0x8000_0100 + 15) / 16)
    × (in_order lines
        ≡ bytes_from
            (λ a. a)
            (0x8000_0100 - 0x8000_0000)
            (16 * ((0x8000_0114 - 0x8000_0100 + 15) / 16)))
dump_signature-in_order_example =
    dump_signature-in_order 4096 (λ a. a) 0x8000_0100 (omega arith) (omega arith) 0x8000_0114 3
      (omega arith) (omega arith) (omega arith) (omega arith) (omega arith)
