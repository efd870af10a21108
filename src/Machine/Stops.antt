-- ===== src/Machine/Stops.antt =====
-- That main.cpp's threads stop once `interrupted` is set.
use rv_emu.Base.{
  ℕ, ◌≡◌, Bool, true, false, not, ◌&&◌, ◌||◌, Bool-cases, inl, inr, List, [], ◌∷◌, Option, none,
  some, subst, ◌==◌, arith, ◌⊎◌,
}
use rv_emu.Platform.{Platform}
use rv_emu.Memory.{Board, Run}
use rv_emu.Cycle.{cycle}
use rv_emu.Machine.{System, update, turn, turns}
use rv_emu.Machine.Safety.{Result, Result-bind, Result-map}

abbrev pub is_in : ℕ → List ℕ → Bool
is_in i [] = false
is_in i (j ∷ rest) = i == j || is_in i rest

-- The flag stays set, and no thread starts again; that of hart `i` is out of its loop.
abbrev Stays : {D : Type 0} → System D → System D → Type 0
Stays s t = (t.interrupted ≡ true) × ((j : ℕ) → s.running j ≡ false → t.running j ≡ false)

after_cycle :
    {D : Type 0} (s : System D) (i : ℕ) (o : Option (Bool × Run D))
    → s.interrupted ≡ true
    → Result
        (λ t. Stays s t × (t.running i ≡ false))
        (elim o [
          | none ↦ none
          | some (going, r) ↦ some (record {
            hartlist = update s.hartlist i r.hs;
            running = update s.running i (going && not s.interrupted);
            world = r.world;
            interrupted = s.interrupted || not (going && not s.interrupted);
          })
        ])
after_cycle s i none set_ = tt
after_cycle s i (some (going, r)) set_ =
    ((ground arith, λ j off. ground (arith, off, set_)), ground (arith, set_))

carried :
    {D : Type 0} (s t : System D) (j : ℕ) (rest : List ℕ) (i : ℕ)
    → ((k : ℕ) → s.running k ≡ false → t.running k ≡ false)
    → t.running j ≡ false
    → ((is_in i (j ∷ rest) ≡ true) ⊎ (s.running i ≡ false))
    → (is_in i rest ≡ true) ⊎ (t.running i ≡ false)
carried s t j rest i keeps off (inr before) = inr (keeps i before)
carried s t j rest i keeps off (inl there) = elim (Bool-cases (i == j)) [
  | inl same ↦ inr (subst (λ k. t.running k ≡ false) (ground arith) off)
  | inr other ↦ inl (rw other at there)
]

module _ {D : Type 0} (B : Board D) (P : Platform) (sig_mode : Bool) where
  turn-Stays :
      (s : System D) (i : ℕ)
      → s.interrupted ≡ true
      → Result (λ t. Stays s t × (t.running i ≡ false)) (turn B P sig_mode i s)
  unfolding turn
  turn-Stays s i set_ =
      let r : Run D = record { hs = s.hartlist i; world = s.world } in
      elim (Bool-cases (s.running i)) [
        | inl on ↦ rw (on, Result) (after_cycle s i (cycle B P sig_mode r) set_)
        | inr off ↦ rw (off, Result) ((set_, λ j o. o), off)
      ]

  abbrev Stopped : System D → List ℕ → System D → Type 0
  Stopped s l t = (i : ℕ) → ((is_in i l ≡ true) ⊎ (s.running i ≡ false)) → t.running i ≡ false

  turns-Stopped :
      (s : System D) (l : List ℕ)
      → s.interrupted ≡ true
      → Result (Stopped s l) (turns B P sig_mode l s)
  unfolding turns
  turns-Stopped s [] set_ = λ i h. ground (arith, h)
  turns-Stopped s (j ∷ rest) set_ =
      Result-bind (λ t. Stays s t × (t.running j ≡ false)) (Stopped s (j ∷ rest)) _ _
        (turn-Stays s j set_)
        (λ t k.
          Result-map (Stopped t rest) (Stopped s (j ∷ rest)) _
            (λ u q i h. q i (carried s t j rest i k.0.1 k.1 h)) (turns-Stopped t rest k.0.0))

  -- Once interrupted is set, after the turns of a list of harts in which a hart occurs, if they are
  -- defined, that hart's thread is out of its loop.
  pub turns-stop :
      (s : System D) (l : List ℕ) (i : ℕ)
      → s.interrupted ≡ true
      → is_in i l ≡ true
      → Result (λ t. t.running i ≡ false) (turns B P sig_mode l s)
  turns-stop s l i set_ there =
      Result-map (Stopped s l) _ _ (λ t q. q i (inl there)) (turns-Stopped s l set_)
