-- ===== src/Options.antt =====
-- main.cpp: the arguments and the files that are loaded before the harts start. What the C library
-- gives is a parameter: the options that `getopt` finds, `atol` and `atoi`, and the files. A result
-- `none` is undefined behaviour.
use rv_emu.Base.{
  ℕ, ◌+◌, Bool, true, false, List, [], ◌∷◌, Option, none, some, leb, ◌==◌, if◌then◌else◌, length,
  u16,
}
use rv_emu.Plic.{and_then}
use rv_emu.Elf.{File, Image, load_elf, copy, same_string}

-- MACH_MEM_SIZE and MACH_HART_COUNT are `mem_size` and `hart_count`.
pub record Options : Type 0 where
  pub fwfile : Option (List ℕ)
  pub kernelfile : Option (List ℕ)
  pub dtbfile : Option (List ℕ)
  pub initrdfile : Option (List ℕ)
  pub signaturefile : Option (List ℕ)
  pub sig_mode : Bool
  pub dump_mem_atexit : Bool
  pub skip_pty : Bool
  pub mem_size : ℕ
  pub hart_count : ℕ

abbrev pub default_options : Options
default_options = record {
  fwfile = none;
  kernelfile = none;
  dtbfile = none;
  initrdfile = none;
  signaturefile = none;
  sig_mode = false;
  dump_mem_atexit = false;
  skip_pty = false;
  mem_size = 0x2000_0000;
  hart_count = 1;
}

-- What `main` returns, or that it goes on. -1 is 255 to the shell.
pub data Outcome (A : Type 0) : Type 0 where
  returns : ℕ → Outcome A
  goes_on : A → Outcome A

-- An option's letter, and `optarg` where it has an argument; -m and -c may have none.
abbrev pub Opt : Type 0
Opt = ℕ × Option (List ℕ)

module _ (atol atoi : List ℕ → ℕ) where
  -- The `switch`; a file's name is also printed, as a string. 102 is f, 107 k, 105 i, 109 m, 99 c,
  -- 100 d, 115 s, 101 e, 112 p and 104 h.
  unfoldable pub read_option : Opt → Options → Option (Outcome Options)
  read_option opt o =
      let c = opt.0 in
      let optarg = opt.1 in
      if c == 102
      then and_then optarg (λ a. some (goes_on (record o { fwfile = some a })))
      else if c == 107
      then and_then optarg (λ a. some (goes_on (record o { kernelfile = some a })))
      else if c == 105
      then and_then optarg (λ a. some (goes_on (record o { initrdfile = some a })))
      else if c == 109
      then and_then optarg (λ a. some (goes_on (record o { mem_size = atol a })))
      else if c == 99
      then and_then optarg (λ a. some (goes_on (record o { hart_count = u16 (atoi a) })))
      else if c == 100
      then and_then optarg (λ a. some (goes_on (record o { dtbfile = some a })))
      else if c == 115
      then some (goes_on (record o { signaturefile = optarg; sig_mode = true }))
      else if c == 101
      then some (goes_on (record o { dump_mem_atexit = true }))
      else if c == 112
      then some (goes_on (record o { skip_pty = true }))
      else if c == 104
      then some (returns 0)
      else some (returns 1)

  -- The loop over the options, and the test after it.
  unfoldable pub read_options : List Opt → Options → Option (Outcome Options)
  read_options [] o = elim (o.fwfile) [
    | some fw ↦ some (goes_on o)
    | none ↦ elim (o.kernelfile) [ some kernel ↦ some (goes_on o) | none ↦ some (returns 255) ]
  ]
  read_options (opt ∷ rest) o =
      and_then (read_option opt o)
        (λ r. elim r [ returns code ↦ some (returns code) | goes_on p ↦ read_options rest p ])

-- The memories before the harts start.
pub record Loaded : Type 0 where
  pub image : Image
  pub dtb_buf : ℕ → ℕ

-- `none`, as a string.
abbrev pub no_firmware : List ℕ
no_firmware = 110 ∷ 111 ∷ 110 ∷ 101 ∷ []

-- `image_of` is the file behind a name, or what a descriptor of -1 gives; `fopen` is the bytes of a
-- file, if it can be opened, and `fread` stores the first of them, a number of them at most.
module _ (mem_size : ℕ) (sig_mode : Bool) (image_of : Option (List ℕ) → File)
    (fopen : List ℕ → Option (List ℕ)) (first : ℕ → List ℕ → List ℕ) where
  unfoldable pub load_programs : Options → Image → Option Image
  load_programs o image =
      let kernel = image_of o.kernelfile in
      let alone = and_then (load_elf o.mem_size kernel 0 o.sig_mode image) (λ r. some (r.1)) in
      elim (o.fwfile) [
        | none ↦ alone
        | some fw ↦
            if same_string fw no_firmware
            then alone
            else and_then (load_elf o.mem_size (image_of (some fw)) 0 o.sig_mode image) (λ r.
              and_then (load_elf o.mem_size kernel 0x20_0000 o.sig_mode r.1) (λ q. some (q.1)))
      ]

  unfoldable pub load_dtb : Options → Loaded → Outcome Loaded
  load_dtb o l = elim (o.dtbfile) [
    | none ↦ goes_on l
    | some name ↦ elim (fopen name) [
      | none ↦ returns 3
      | some bytes ↦ goes_on (record l { dtb_buf = copy 0 (first 32768 bytes) l.dtb_buf })
    ]
  ]

  unfoldable pub load_initrd : Options → Loaded → Option (Outcome Loaded)
  load_initrd o l = elim (o.initrdfile) [
    | none ↦ some (goes_on l)
    | some name ↦ elim (fopen name) [
      | none ↦ some (returns 4)
      | some bytes ↦
          let stored = first 0x800_0000 bytes in
          if leb (0x820_0000 + length stored) o.mem_size
          then some (
              goes_on (record l {
                image = record l.image { main_mem = copy 0x820_0000 stored l.image.main_mem };
              }))
          else none
    ]
  ]

  unfoldable pub load_files : Options → Loaded → Option (Outcome Loaded)
  load_files o l = and_then (load_programs o l.image) (λ image.
      elim (load_dtb o (record l { image = image })) [
        | returns code ↦ some (returns code)
        | goes_on q ↦ load_initrd o q
      ])
