-- ===== src/Tlb/Count.antt =====
-- `tlb_add` of mem.cpp keeps the counts of the entries by size, and the largest size in use.
use rv_emu.Base.{
  ℕ, zero, suc, ◌+◌, ◌≤◌, ◌<◌, ◌≡◌, refl, arith, not, ◌&&◌, List, [], ◌∷◌, ◌≢◌, ◌⊎◌, inl, inr, u8,
  get_or, set, length, replicate, ltb, ◌==◌, if◌then◌else◌, length-set, get_or-set,
  get_or-replicate, ap, sym, ◌∙◌, Bool-cases,
}
use native.Mathlib.Decide.{ℕ_discrete}
use rv_emu.Hart.{TlbEntry, TlbStruct}
use rv_emu.Tlb.{tlb_size, no_tlb_entry, tlb_clear, tlb_hash, max_size_loop, recount, tlb_add}

-- An entry in use, of size `s`.
abbrev pub counts_as : ℕ → TlbEntry → ℕ
counts_as s e = if not (e.permissions == 0) && e.size == s then 1 else 0

pub count_size : ℕ → List TlbEntry → ℕ
count_size s [] = 0
count_size s (e ∷ es) = counts_as s e + count_size s es

count_size-set :
    (s : ℕ) (es : List TlbEntry) (i : ℕ) (e : TlbEntry)
    → i < length es
    → count_size s (set es i e) + counts_as s (get_or es i no_tlb_entry)
      ≡ count_size s es + counts_as s e
unfolding count_size
count_size-set s [] i e h = absurd (omega arith)
count_size-set s (x ∷ es) zero e h = omega arith
count_size-set s (x ∷ es) (suc i) e h = omega (arith, count_size-set s es i e (omega arith))

counts_as-le : (s : ℕ) (e : TlbEntry) → counts_as s e ≤ 1
counts_as-le s e = ground arith

count_size-le : (s : ℕ) (es : List TlbEntry) → count_size s es ≤ length es
unfolding count_size
count_size-le s [] = omega arith
count_size-le s (e ∷ es) = omega (arith, counts_as-le s e, count_size-le s es)

count_size-member :
    (es : List TlbEntry) (i : ℕ)
    → i < length es
    → (get_or es i no_tlb_entry).permissions ≢ 0
    → 0 < count_size (get_or es i no_tlb_entry).size es
unfolding count_size
count_size-member [] i h p = absurd (omega arith)
count_size-member (e ∷ es) zero h p = ground arith
count_size-member (e ∷ es) (suc i) h p = omega (arith, count_size-member es i (omega arith) p)

count_size-replicate : (s n : ℕ) → count_size s (replicate n no_tlb_entry) ≡ 0
unfolding count_size
count_size-replicate s zero = refl
count_size-replicate s (suc n) = omega (arith, count_size-replicate s n)

-- The counts are right, and `max_entry_size` bounds the size of every entry in use.
pub record IsCounted (tlb : TlbStruct) : Type 0 where
  pub slots : length tlb.tlb_entries ≡ tlb_size
  pub sizes : length tlb.size_count ≡ 6
  pub sized :
      (i : ℕ)
      → i < tlb_size
      → (get_or tlb.tlb_entries i no_tlb_entry).permissions ≢ 0
      → (get_or tlb.tlb_entries i no_tlb_entry).size < 6
  pub counted : (s : ℕ) → s < 6 → get_or tlb.size_count s 0 ≡ count_size s tlb.tlb_entries
  pub largest : (s : ℕ) → s < 6 → 0 < count_size s tlb.tlb_entries → s ≤ tlb.max_entry_size
  pub in_use : (tlb.max_entry_size ≡ 0) ⊎ (0 < count_size tlb.max_entry_size tlb.tlb_entries)

tlb_hash-lt : (a : ℕ) → tlb_hash a < tlb_size
unfolding tlb_hash
tlb_hash-lt a = omega arith

max_size_loop-found : (cs : List ℕ) (i found : ℕ) → found ≤ i → found ≤ max_size_loop cs i found
unfolding max_size_loop
max_size_loop-found [] i found h = omega arith
max_size_loop-found (c ∷ cs) i found h = ground (
  arith,
  max_size_loop-found cs (i + 1) i (omega arith),
  max_size_loop-found cs (i + 1) found (omega arith),
)

max_size_loop-ge :
    (cs : List ℕ) (i found s : ℕ) → found ≤ i → 0 < get_or cs s 0 → i + s ≤ max_size_loop cs i found
unfolding max_size_loop
max_size_loop-ge [] i found s h p = absurd (omega arith)
max_size_loop-ge (c ∷ cs) i found zero h p =
    ground (arith, max_size_loop-found cs (i + 1) i (omega arith))
max_size_loop-ge (c ∷ cs) i found (suc s) h p = ground (
  arith,
  max_size_loop-ge cs (i + 1) i s (omega arith) p,
  max_size_loop-ge cs (i + 1) found s (omega arith) p,
)

max_size_loop-used :
    (cs : List ℕ) (i found : ℕ)
    → (max_size_loop cs i found ≡ found)
      ⊎ ((s : ℕ) × (s < length cs) × (max_size_loop cs i found ≡ i + s) × (0 < get_or cs s 0))
unfolding max_size_loop
max_size_loop-used [] i found = inl refl
max_size_loop-used (c ∷ cs) i found = elim (Bool-cases (ltb 0 c)) [
  | inl used ↦ rw used (elim (max_size_loop-used cs (i + 1) i) [
    | inl e ↦ inr (0, omega arith, omega arith, ground arith)
    | inr (s, lt, e, p) ↦ inr (suc s, omega arith, omega arith, p)
  ])
  | inr unused ↦ rw unused (elim (max_size_loop-used cs (i + 1) found) [
    | inl e ↦ inl e
    | inr (s, lt, e, p) ↦ inr (suc s, omega arith, omega arith, p)
  ])
]

-- The counts without the old entry.
abbrev less : List ℕ → TlbEntry → List ℕ
less counts old =
    if not (old.permissions == 0)
    then set counts old.size (u8 (get_or counts old.size 0 + 255))
    else counts

module _ (counts : List ℕ) (old : TlbEntry) (len : length counts ≡ 6)
    (was : old.permissions ≢ 0 → (old.size < 6) × (0 < get_or counts old.size 0))
    (small : (t : ℕ) → t < 6 → get_or counts t 0 ≤ 64) where
  length-less : length (less counts old) ≡ 6
  length-less = ground (arith, length-set counts old.size (u8 (get_or counts old.size 0 + 255)))

  less_lem : (s : ℕ) → s < 6 → get_or (less counts old) s 0 + counts_as s old ≡ get_or counts s 0
  less_lem s h = elim (ℕ_discrete old.permissions 0) [
    | yes free ↦ ground arith
    | no used ↦ ground (
      arith,
      was used,
      small old.size (was used).0,
      get_or-set counts old.size s (u8 (get_or counts old.size 0 + 255)) 0,
    )
  ]

  recount_lem :
      (new : TlbEntry) (s : ℕ)
      → new.size < 6
      → new.permissions ≢ 0
      → s < 6
      → get_or (recount counts old new) s 0 + counts_as s old ≡ get_or counts s 0 + counts_as s new
  unfolding recount
  recount_lem new s fits used h = ground (
    arith,
    length-less,
    less_lem s h,
    less_lem new.size fits,
    small new.size fits,
    get_or-set (less counts old) new.size s (u8 (get_or (less counts old) new.size 0 + 1)) 0,
  )

  length-recount : (new : TlbEntry) → length (recount counts old new) ≡ 6
  unfolding recount
  length-recount new =
      length-set (less counts old) new.size (u8 (get_or (less counts old) new.size 0 + 1))
      ∙ length-less

-- An empty cache is counted.
pub tlb_clear-IsCounted : IsCounted tlb_clear
unfolding tlb_clear
tlb_clear-IsCounted = record {
  slots = refl;
  sizes = refl;
  sized = λ i h p.
      absurd (p (ap (λ (e : TlbEntry). e.permissions) (get_or-replicate tlb_size i no_tlb_entry)));
  counted = λ s h. get_or-replicate 6 s 0 ∙ sym (count_size-replicate s tlb_size);
  largest = λ s h p. omega (arith, count_size-replicate s tlb_size);
  in_use = inl refl;
}

module _ (tlb : TlbStruct) (new : TlbEntry) (c : IsCounted tlb) (fits : new.size < 6)
    (used : new.permissions ≢ 0) where
  abbrev index : ℕ
  index = tlb_hash new.virt_page

  abbrev old : TlbEntry
  old = get_or tlb.tlb_entries index no_tlb_entry

  abbrev added : List TlbEntry
  added = set tlb.tlb_entries index new

  abbrev counts : List ℕ
  counts = recount tlb.size_count old new

  in_range : index < length tlb.tlb_entries
  in_range = omega (arith, tlb_hash-lt new.virt_page, c.slots)

  was : old.permissions ≢ 0 → (old.size < 6) × (0 < get_or tlb.size_count old.size 0)
  was p =
      let fits_old = c.sized index (omega (arith, in_range, c.slots)) p in
      (
        fits_old,
        omega (
          arith,
          c.counted old.size fits_old,
          count_size-member tlb.tlb_entries index in_range p,
        ),
      )

  small : (t : ℕ) → t < 6 → get_or tlb.size_count t 0 ≤ 64
  small t h = omega (arith, c.counted t h, count_size-le t tlb.tlb_entries, c.slots)

  counted_added : (s : ℕ) → s < 6 → get_or counts s 0 ≡ count_size s added
  counted_added s h = omega (
    arith,
    recount_lem tlb.size_count old c.sizes was small new s fits used h,
    count_size-set s tlb.tlb_entries index new in_range,
    c.counted s h,
  )

  -- Adding a translation that grants something and has a size below 6 keeps the cache well formed:
  -- each count is the number of entries of its size in use, no entry is larger than the maximum,
  -- and the maximum is in use unless it is 0.
  pub tlb_add-IsCounted : IsCounted (tlb_add tlb new)
  unfolding tlb_add
  tlb_add-IsCounted = record {
    slots = length-set tlb.tlb_entries index new ∙ c.slots;
    sizes = length-recount tlb.size_count old c.sizes was small new;
    sized = λ i h p.
        ground (arith, c.sized i h, get_or-set tlb.tlb_entries index i new no_tlb_entry in_range);
    counted = counted_added;
    largest = λ s h p.
        omega (
          arith,
          max_size_loop-ge counts 0 0 s (omega arith) (omega (arith, counted_added s h, p)),
        );
    in_use = elim (max_size_loop-used counts 0 0) [
      | inl e ↦ inl e
      | inr (s, lt, e, p) ↦
          let same : max_size_loop counts 0 0 ≡ s = omega arith in
          inr (
            rw same (
              omega (
                arith,
                counted_added s
                    (omega (arith, lt, length-recount tlb.size_count old c.sizes was small new)),
                p,
              )))
    ];
  }
