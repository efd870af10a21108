-- ===== src/Plic/Claim.antt =====
-- What a claim of plic.cpp gives.
use rv_emu.Base.{
  ℕ, zero, suc, ◌+◌, ◌*◌, ◌/◌, ◌%◌, ◌≤◌, ◌<◌, ◌≡◌, ◌≢◌, ◌⊎◌, inl, inr, refl, Bool, true, false,
  List, [], ◌∷◌, some, ltb, ◌==◌, bit, length, get_or, set, clear_bit, arith, Bool-cases, subst,
}
use native.Mathlib.Decide.{ℕ_discrete}
use rv_emu.Plic.{Plic, at, plic_find_en, claim_loop, claim, plic_source_count}

pub at-get_or {ℓ} :
    {A : Type ℓ} (xs : List A) (i : ℕ) (d : A) → i < length xs → at xs i ≡ some (get_or xs i d)
unfolding at
at-get_or [] i d h = absurd (omega arith)
at-get_or (x ∷ xs) zero d h = refl
at-get_or (x ∷ xs) (suc i) d h = at-get_or xs i d (omega arith)

abbrev pub priority : Plic → ℕ → ℕ
priority p s = get_or p.int_prio_regs s 0

-- The bit of a source in the first word of a context.
abbrev pub is_enabled : Plic → ℕ → ℕ → Bool
is_enabled p ctx s = bit (get_or p.int_en_regs (0x20 * ctx) 0) s

-- Of the sources below n: the enabled one of the highest priority, the first of these, or 0 if none
-- is enabled at a priority above 0.
pub record IsHighest (p : Plic) (ctx n prio source : ℕ) : Type 0 where
  pub chosen :
      (prio ≡ 0) × (source ≡ 0)
      ⊎ (0 < prio) × (source < n) × (is_enabled p ctx source ≡ true) × (priority p source ≡ prio)
  pub highest : (s : ℕ) → s < n → is_enabled p ctx s ≡ true → priority p s ≤ prio
  pub first : (s : ℕ) → s < source → is_enabled p ctx s ≡ true → priority p s < prio

below_suc {ℓ} : {Q : ℕ → Type ℓ} (i : ℕ) → ((s : ℕ) → s < i → Q s) → Q i → (s : ℕ) → s < i + 1 → Q s
below_suc {Q = Q} i below here s lt = elim (ℕ_discrete i s) [
  | yes e ↦ subst Q e here
  | no ne ↦ below s (omega arith)
]

is_zero : (n : ℕ) → (n == 0) ≡ true → n ≡ 0
is_zero n e = ground arith

not_zero : (n : ℕ) → (n == 0) ≡ false → n ≢ 0
not_zero n e z = ground arith

-- The next source: it is passed over, or chosen.
module _ (p : Plic) (ctx i prio source : ℕ) (h : IsHighest p ctx i prio source) where
  skip-IsHighest :
      (is_enabled p ctx i ≡ true → priority p i ≤ prio) → IsHighest p ctx (i + 1) prio source
  skip-IsHighest low = record {
    chosen = elim (h.chosen) [ inl z ↦ inl z | inr c ↦ inr (c.0, omega (arith, c.1), c.2, c.3) ];
    highest =
        below_suc {Q = λ s. is_enabled p ctx s ≡ true → priority p s ≤ prio} i (h.highest) low;
    first = h.first;
  }

  choose-IsHighest :
      is_enabled p ctx i ≡ true → prio < priority p i → IsHighest p ctx (i + 1) (priority p i) i
  choose-IsHighest on high = record {
    chosen = inr (omega arith, omega arith, on, refl);
    highest =
        below_suc {Q = λ s. is_enabled p ctx s ≡ true → priority p s ≤ priority p i} i
          (λ s lt o. omega (arith, h.highest s lt o)) (λ o. omega arith);
    first = λ s lt o. omega (arith, h.highest s lt o);
  }

module _ (p : Plic) (ctx : ℕ) (sources : length p.int_prio_regs ≡ plic_source_count)
    (enables : 0x20 * ctx < length p.int_en_regs) where
  find_en-is_enabled :
      (s : ℕ) → s < plic_source_count → plic_find_en p.int_en_regs ctx s ≡ some (is_enabled p ctx s)
  unfolding plic_find_en
  find_en-is_enabled s h =
      let word : 0x20 * ctx + s / 32 ≡ 0x20 * ctx = omega arith in
      let same : s % 32 ≡ s = omega arith in
      rw (word, same, at-get_or p.int_en_regs (0x20 * ctx) 0 enables) refl

  claim_loop-IsHighest :
      (left i prio source : ℕ)
      → i + left ≡ plic_source_count
      → IsHighest p ctx i prio source
      → (prio' : ℕ) × (source' : ℕ) × (claim_loop p ctx left i (prio, source)
          ≡ some (prio', source'))
        × IsHighest p ctx plic_source_count prio' source'
  unfolding claim_loop
  claim_loop-IsHighest zero i prio source e h =
      let done : i ≡ plic_source_count = omega arith in
      (prio, source, refl, subst (λ n. IsHighest p ctx n prio source) done h)
  claim_loop-IsHighest (suc left) i prio source e h =
      let get = at-get_or p.int_prio_regs i 0 (omega (arith, sources)) in
      let find = find_en-is_enabled i (omega arith) in
      elim (Bool-cases (ltb prio (priority p i))) [
        | inr low ↦
            rw (get, low)
              (claim_loop-IsHighest left (i + 1) prio source (omega arith)
                (skip-IsHighest p ctx i prio source h (λ on. ground arith)))
        | inl high ↦ elim (Bool-cases (is_enabled p ctx i)) [
          | inr off ↦
              rw (get, high, find, off)
                (claim_loop-IsHighest left (i + 1) prio source (omega arith)
                  (skip-IsHighest p ctx i prio source h (λ on. ground arith)))
          | inl on ↦
              rw (get, high, find, on)
                (claim_loop-IsHighest left (i + 1) (priority p i) i (omega arith)
                  (choose-IsHighest p ctx i prio source h on (ground arith)))
        ]
      ]

  none-IsHighest : IsHighest p ctx 0 0 0
  none-IsHighest = record {
    chosen = inl (refl, refl);
    highest = λ s lt. absurd (omega arith);
    first = λ s lt. absurd (omega arith);
  }

  chosen_lt : (prio source : ℕ) → IsHighest p ctx plic_source_count prio source → source < 16
  chosen_lt prio source h = elim (h.chosen) [ inl z ↦ omega (arith, z.1) | inr c ↦ c.1 ]

  -- With sixteen priorities, a pending word and a context whose flag and first enable word are in
  -- their arrays, a claim gives the first of the enabled sources of the highest priority, or 0 if
  -- none is above 0; the context is then handling it and its pending bit is cleared, and for 0
  -- nothing changes.
  pub claim-IsHighest :
      ctx < length p.int_handling
      → 0 < length p.int_pend_regs
      → (prio : ℕ) × (source : ℕ) × (p' : Plic) × (claim p ctx ≡ some p')
        × IsHighest p ctx plic_source_count prio source
        × (p'.highest_source ≡ source)
        × (source ≡ 0 → p' ≡ record p { highest_source = 0 })
        × (source ≢ 0
            → (p'.int_handling ≡ set p.int_handling ctx true)
              × (p'.int_pend_regs
                  ≡ set p.int_pend_regs 0 (clear_bit (get_or p.int_pend_regs 0 0) source)))
  unfolding claim
  claim-IsHighest ctxs pends =
      let r = claim_loop-IsHighest plic_source_count 0 0 0 refl none-IsHighest in
      let word : r.1 / 32 ≡ 0 = omega (arith, chosen_lt r.0 r.1 r.3) in
      let place : r.1 % 32 ≡ r.1 = omega (arith, chosen_lt r.0 r.1 r.3) in
      elim (Bool-cases (r.1 == 0)) [
        | inl zero_ ↦ (
          r.0,
          r.1,
          record p { highest_source = r.1 },
          rw (r.2, zero_) refl,
          r.3,
          refl,
          λ e. rw e refl,
          λ ne. absurd (ne (is_zero r.1 zero_)),
        )
        | inr some_ ↦ (
          r.0,
          r.1,
          record p {
            int_handling = set p.int_handling ctx true;
            int_pend_regs = set p.int_pend_regs 0 (clear_bit (get_or p.int_pend_regs 0 0) r.1);
            highest_source = r.1;
          },
          rw
              (
                r.2,
                some_,
                word,
                place,
                at-get_or p.int_handling ctx false ctxs,
                at-get_or p.int_pend_regs 0 0 pends,
              )
              refl,
          r.3,
          refl,
          λ e. absurd (not_zero r.1 some_ e),
          λ ne. (refl, refl),
        )
      ]
