-- ===== src/Signature/Lines.antt =====
-- main.cpp: that the dump of the signature ends, and what its lines show.
use rv_emu.Base.{
  ℕ, zero, suc, ◌+◌, ◌-◌, ◌*◌, ◌/◌, ◌^◌, ◌≤◌, ◌<◌, ◌≡◌, refl, true, false, List, [], ◌∷◌, ◌++◌,
  some, ltb, u64, length, arith, ap, sym, ◌∙◌,
}
use mathlib.Core.List.{append-nil, append_assoc}
use rv_emu.Signature.{signature_line, signature_loop, dump_signature}

-- The bytes of a line in the order of their addresses, and those of all lines.
abbrev pub backwards : List ℕ → List ℕ
backwards [] = []
backwards (b ∷ bytes) = backwards bytes ++ (b ∷ [])

abbrev pub in_order : List (List ℕ) → List ℕ
in_order [] = []
in_order (line ∷ lines) = backwards line ++ in_order lines

abbrev pub bytes_from : (ℕ → ℕ) → ℕ → ℕ → List ℕ
bytes_from m a zero = []
bytes_from m a (suc n) = bytes_from m a n ++ (m (a + n) ∷ [])

bytes_from-add :
    (m : ℕ → ℕ) (a i j : ℕ) → bytes_from m a (j + i) ≡ bytes_from m a i ++ bytes_from m (a + i) j
bytes_from-add m a i zero =
    let all : 0 + i ≡ i = omega arith in
    ap (λ k. bytes_from m a k) all ∙ sym (append-nil (bytes_from m a i))
bytes_from-add m a i (suc j) =
    let more : suc j + i ≡ suc (j + i) = omega arith in
    let next : a + i + j ≡ a + (j + i) = omega arith in
    ap (λ k. bytes_from m a k) more
    ∙ ap (λ l. l ++ (m (a + (j + i)) ∷ [])) (bytes_from-add m a i j)
    ∙ rw next (append_assoc (bytes_from m a i) (bytes_from m (a + i) j) (m (a + (j + i)) ∷ []))

module _ (mem_size : ℕ) (m : ℕ → ℕ) (first : ℕ) (high : 0x8000_0000 ≤ first)
    (low : first < 2 ^ 64) where
  line-bytes :
      (offset count : ℕ)
      → first - 0x8000_0000 + offset + count ≤ mem_size
      → first + offset + count ≤ 2 ^ 64
      → (line : List ℕ) × (signature_line mem_size m first offset count ≡ some line)
        × (backwards line ≡ bytes_from m (first - 0x8000_0000 + offset) count)
  unfolding signature_line
  line-bytes offset zero fits range = ([], refl, refl)
  line-bytes offset (suc i) fits range =
      let rest = line-bytes offset i (omega arith) (omega arith) in
      let place : u64 (first + (2 ^ 64 - 0x8000_0000) + offset + i)
          ≡ first - 0x8000_0000 + offset + i =
        omega arith in
      let there : ltb (first - 0x8000_0000 + offset + i) mem_size ≡ true = ground arith in
      (
        m (first - 0x8000_0000 + offset + i) ∷ rest.0,
        rw (place, there, rest.1) refl,
        ap (λ l. l ++ (m (first - 0x8000_0000 + offset + i) ∷ [])) rest.2,
      )

  another_line :
      (fuel diff offset : ℕ) (line : List ℕ) (lines : List (List ℕ))
      → ltb offset diff ≡ true
      → u64 (offset + 16) ≡ offset + 16
      → signature_line mem_size m first offset 16 ≡ some line
      → signature_loop mem_size m first fuel diff (offset + 16) ≡ some lines
      → signature_loop mem_size m first (suc fuel) diff offset ≡ some (line ∷ lines)
  unfolding signature_loop
  another_line fuel diff offset line lines more onward e f = rw (more, onward, e, f) refl

  -- The rest of the lines, `k` of them.
  loop-bytes :
      (k fuel diff offset : ℕ)
      → diff ≤ offset + 16 * k
      → offset + 16 * k < diff + 16
      → k < fuel
      → first - 0x8000_0000 + offset + 16 * k ≤ mem_size
      → first + offset + 16 * k ≤ 2 ^ 64
      → (lines : List (List ℕ)) × (signature_loop mem_size m first fuel diff offset ≡ some lines)
        × (length lines ≡ k)
        × (in_order lines ≡ bytes_from m (first - 0x8000_0000 + offset) (16 * k))
  unfolding signature_loop
  loop-bytes k zero diff offset all least enough fits range = absurd (omega arith)
  loop-bytes zero (suc fuel) diff offset all least enough fits range =
      let done : ltb offset diff ≡ false = ground arith in ([], rw done refl, refl, refl)
  loop-bytes (suc k) (suc fuel) diff offset all least enough fits range =
      let more : ltb offset diff ≡ true = ground arith in
      let onward : u64 (offset + 16) ≡ offset + 16 = omega arith in
      let line = line-bytes offset 16 (omega arith) (omega arith) in
      let rest =
        loop-bytes k fuel diff (offset + 16) (omega arith) (omega arith) (omega arith) (omega arith)
          (omega arith) in
      let a = first - 0x8000_0000 + offset in
      let there : first - 0x8000_0000 + (offset + 16) ≡ a + 16 = omega arith in
      let all_bytes : 16 * k + 16 ≡ 16 * suc k = omega arith in
      (
        line.0 ∷ rest.0,
        another_line fuel diff offset line.0 rest.0 more onward line.1 rest.1,
        ap suc rest.2,
        ap (λ l. l ++ in_order rest.0) line.2
            ∙ ap (λ l. bytes_from m a 16 ++ l) (rest.3 ∙ ap (λ b. bytes_from m b (16 * k)) there)
            ∙ sym (bytes_from-add m a 16 (16 * k))
            ∙ ap (λ j. bytes_from m a j) all_bytes,
      )

  -- For a signature that begins at or above 0x80000000 and ends at or after its beginning, with the
  -- memory large enough for whole lines, more rounds than there are lines are enough: the dump
  -- ends, has a line for every 16 bytes or part of them, and its lines, each read from its end,
  -- show the bytes of the memory from the beginning of the signature on in their order.
  pub dump_signature-in_order :
      (end_signature fuel : ℕ)
      → first ≤ end_signature
      → end_signature < 2 ^ 64
      → let k = (end_signature - first + 15) / 16 in
        k < fuel
        → first - 0x8000_0000 + 16 * k ≤ mem_size
        → first + 16 * k ≤ 2 ^ 64
        → (lines : List (List ℕ)) × (dump_signature mem_size m first fuel end_signature
            ≡ some lines)
          × (length lines ≡ k)
          × (in_order lines ≡ bytes_from m (first - 0x8000_0000) (16 * k))
  unfolding dump_signature
  dump_signature-in_order end_signature fuel order bound enough fits range =
      let diff : u64 (end_signature + (2 ^ 64 - first)) ≡ end_signature - first = omega arith in
      let k = (end_signature - first + 15) / 16 in
      let p =
        loop-bytes k fuel (end_signature - first) 0 (omega arith) (omega arith) enough (omega arith)
          (omega arith) in
      let start : first - 0x8000_0000 + 0 ≡ first - 0x8000_0000 = omega arith in
      (
        p.0,
        ap (λ d. signature_loop mem_size m first fuel d 0) diff ∙ p.1,
        p.2,
        p.3 ∙ ap (λ b. bytes_from m b (16 * k)) start,
      )
