-- ===== src/Elf/Segments.antt =====
-- elf.cpp: which bytes the memory has after a file is loaded, by the addresses that the segments of
-- the file name.
use rv_emu.Base.{
  ℕ, ◌+◌, ◌-◌, ◌^◌, ◌≤◌, ◌<◌, ◌≡◌, ◌⊎◌, refl, Bool, true, false, not, ◌&&◌, ◌||◌, List, [], ◌∷◌,
  ◌++◌, none, some, ltb, leb, ◌==◌, if◌then◌else◌, length, get_or, u64, arith, Bool-cases, inl, inr,
  if_false, ◌∙◌, ap, subst, sym,
}
use rv_emu.Elf.{Phdr, File, Image, covers, copy, load_addr, is_loaded, place, load_phdrs, load_elf}

-- A PT_LOAD segment for the main memory, which begins at 0x80000000.
abbrev pub loads : Phdr → Bool
loads p = ltb 0x7fff_ffff p.p_paddr && p.p_type == 1

module _ (mem_size : ℕ) (f : File) (mem_offset : ℕ) where
  -- The bytes that the file has for a segment, and the place of the first in the memory.
  abbrev pub contents : Phdr → List ℕ
  contents p = elim (f.pread p.p_memsz p.p_offset) [ none ↦ [] | some bytes ↦ bytes ]

  abbrev pub start : Phdr → ℕ
  start p = p.p_paddr - 0x8000_0000 + mem_offset

  abbrev pub IsOver : Phdr → ℕ → Type 0
  IsOver p b = (loads p ≡ true) × (start p ≤ b) × (b < start p + length (contents p))

  abbrev pub NoneOver : List Phdr → ℕ → Type 0
  NoneOver [] b = Unit
  NoneOver (p ∷ rest) b = (¬ IsOver p b) × NoneOver rest b

  -- What a byte of the memory is after the loading: that of the last segment over it, or as before.
  abbrev pub Loaded : List Phdr → ℕ → ℕ → ℕ → Type 0
  Loaded l b before after =
      NoneOver l b × (after ≡ before)
      ⊎ (earlier : List Phdr) × (p : Phdr) × (later : List Phdr) × (l ≡ earlier ++ p ∷ later)
        × NoneOver later b
        × IsOver p b
        × (after ≡ get_or (contents p) (b - start p) 0)

  abbrev pub total : List Phdr → ℕ
  total [] = 0
  total (p ∷ rest) = if loads p then length (contents p) + total rest else total rest

  -- Each segment that is to be loaded can be read, and lies in the memory.
  abbrev pub AreReadable : List Phdr → Type 0
  AreReadable [] = Unit
  AreReadable (p ∷ rest) =
      (loads p ≡ true
        → (bytes : List ℕ) × (f.pread p.p_memsz p.p_offset ≡ some bytes)
          × (start p + length bytes ≤ mem_size))
      × AreReadable rest

  is_loaded-loads : (p : Phdr) → is_loaded p ≡ loads p
  is_loaded-loads p = ground arith

  load_addr-start :
      (p : Phdr) → loads p ≡ true → start p < 2 ^ 64 → load_addr mem_offset p ≡ start p
  load_addr-start p on small =
      let high : 0x8000_0000 ≤ p.p_paddr = ground (arith, on) in omega arith

  -- One more segment in front of those that were loaded after it.
  Loaded-cons :
      (p : Phdr) (rest : List Phdr) (b before between after : ℕ)
      → Loaded rest b between after
      → ((¬ IsOver p b) × (between ≡ before))
        ⊎ (IsOver p b × (between ≡ get_or (contents p) (b - start p) 0))
      → Loaded (p ∷ rest) b before after
  Loaded-cons p rest b before between after (inr (earlier, q, later, e, free, over, byte)) first =
      inr (p ∷ earlier, q, later, ap (λ l. p ∷ l) e, free, over, byte)
  Loaded-cons p rest b before between after (inl (free, e)) (inl (off, same)) =
      inl ((off, free), e ∙ same)
  Loaded-cons p rest b before between after (inl (free, e)) (inr (over, byte)) =
      inr ([], p, rest, refl, free, over, e ∙ byte)

  copy_cases :
      (p : Phdr) (m : ℕ → ℕ) (b : ℕ)
      → loads p ≡ true
      → ((¬ IsOver p b) × (copy (start p) (contents p) m b ≡ m b))
        ⊎ (IsOver p b × (copy (start p) (contents p) m b ≡ get_or (contents p) (b - start p) 0))
  unfolding copy
  copy_cases p m b on = elim (Bool-cases (covers (start p) (contents p) b)) [
    | inl over ↦ inr ((on, ground (arith, over), ground (arith, over)), rw over refl)
    | inr off ↦ inl (λ o. ground (arith, off, o.1, o.2), rw off refl)
  ]

  load_phdrs-loads :
      (p : Phdr) (rest : List Phdr) (bytes : List ℕ) (n : ℕ) (m : ℕ → ℕ)
      → mem_size < 2 ^ 64
      → loads p ≡ true
      → f.pread p.p_memsz p.p_offset ≡ some bytes
      → start p + length bytes ≤ mem_size
      → load_phdrs mem_size f mem_offset (p ∷ rest) n m
        ≡ load_phdrs mem_size f mem_offset rest (u64 (n + length bytes)) (copy (start p) bytes m)
  unfolding load_phdrs place
  load_phdrs-loads p rest bytes n m size on e fits =
      let at_ = load_addr-start p on (omega (arith, fits, size)) in
      let there : leb (start p + length bytes) mem_size ≡ true = ground (arith, fits) in
      rw (is_loaded-loads p, on, e, at_, there) refl

  load_phdrs-Loaded :
      (l : List Phdr) (n : ℕ) (m : ℕ → ℕ)
      → mem_size < 2 ^ 64
      → n < 2 ^ 64
      → AreReadable l
      → (m' : ℕ → ℕ) × (load_phdrs mem_size f mem_offset l n m ≡ some (true, u64 (n + total l), m'))
        × ((b : ℕ) → Loaded l b (m b) (m' b))
  unfolding load_phdrs place
  load_phdrs-Loaded [] n m size small readable =
      let same : u64 (n + 0) ≡ n = omega arith in (m, rw same refl, λ b. inl (tt, refl))
  load_phdrs-Loaded (p ∷ rest) n m size small readable = elim (Bool-cases (loads p)) [
    | inr off ↦
        let next = load_phdrs-Loaded rest n m size small readable.1 in
        (
          next.0,
          rw (is_loaded-loads p, off) (next.1),
          λ b. Loaded-cons p rest b (m b) (m b) (next.0 b) (next.2 b) (inl (λ o. cc, refl)),
        )
    | inl on ↦
        let q = readable.0 on in
        let same : contents p ≡ q.0 = rw (q.1, contents) refl in
        let step =
          subst
            (λ bytes.
              load_phdrs mem_size f mem_offset (p ∷ rest) n m
              ≡ load_phdrs mem_size f mem_offset rest (u64 (n + length bytes))
                  (copy (start p) bytes m))
            (sym same) (load_phdrs-loads p rest q.0 n m size on q.1 q.2) in
        let m1 = copy (start p) (contents p) m in
        let next =
          load_phdrs-Loaded rest (u64 (n + length (contents p))) m1 size (omega arith) readable.1 in
        (
          next.0,
          step ∙ next.1 ∙ ap (λ (k : ℕ). some (true, k, next.0)) (rw on (omega arith)),
          λ b. Loaded-cons p rest b (m b) (m1 b) (next.0 b) (next.2 b) (copy_cases p m b on),
        )
  ]

-- For an ELF file that libelf can open, each of whose PT_LOAD segments with a physical address of
-- 0x80000000 or more can be read and lies in the memory, at its address less 0x80000000 plus the
-- offset, and a memory of less than 2 ^ 64 bytes: outside of sig_mode load_elf returns the sum of the
-- sizes of these segments modulo 2 ^ 64; it leaves at each address the byte of the last of them over
-- it, and the byte that was there where there is none; the addresses of the signature stay as they
-- are.
pub load_elf-Loaded :
    (mem_size : ℕ) (f : File) (mem_offset : ℕ) (image : Image)
    → mem_size < 2 ^ 64
    → f.version ≡ true
    → f.begins ≡ true
    → f.kind_elf ≡ true
    → AreReadable mem_size f mem_offset f.phdrs
    → (m : ℕ → ℕ) × (load_elf mem_size f mem_offset false image
        ≡ some (u64 (total mem_size f mem_offset f.phdrs), record image { main_mem = m }))
      × ((b : ℕ) → Loaded mem_size f mem_offset f.phdrs b (image.main_mem b) (m b))
unfolding load_elf
load_elf-Loaded mem_size f mem_offset image size version begins kind readable =
    let p =
      load_phdrs-Loaded mem_size f mem_offset f.phdrs 0 image.main_mem size (omega arith)
        readable in
    let none_before : 0 + total mem_size f mem_offset f.phdrs
        ≡ total mem_size f mem_offset f.phdrs =
      omega arith in
    (
      p.0,
      if_false (not f.version) _ _ (ground (arith, version))
          ∙ if_false (not f.begins || not f.kind_elf) _ _ (ground (arith, begins, kind))
          ∙ rw (p.1) (rw none_before refl),
      p.2,
    )
