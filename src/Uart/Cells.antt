-- ===== src/Uart/Cells.antt =====
-- Arrays that hold a text followed by NULs, as `output` of uart.cpp does.
use rv_emu.Base.{
  ℕ, zero, suc, ◌+◌, ◌<◌, ◌≡◌, ◌≢◌, refl, ap, List, [], ◌∷◌, ◌++◌, some, length, get_or, set, arith,
  ◌==◌, false,
}
use rv_emu.Plic.{at}
use rv_emu.Console.{c_string}

-- No character is NUL.
abbrev pub IsText : List ℕ → Type 0
IsText [] = Unit
IsText (c ∷ cs) = (c ≢ 0) × IsText cs

pub append-IsText : (w : List ℕ) (c : ℕ) → IsText w → c ≢ 0 → IsText (w ++ (c ∷ []))
append-IsText [] c t h = (h, tt)
append-IsText (x ∷ w) c t h = (t.0, append-IsText w c t.1 h)

pub length-snoc : (w : List ℕ) (c : ℕ) → length (w ++ (c ∷ [])) ≡ length w + 1
length-snoc [] c = refl
length-snoc (x ∷ w) c = omega (arith, length-snoc w c)

pub get_or-snoc_old :
    (w : List ℕ) (c k d : ℕ) → k < length w → get_or (w ++ (c ∷ [])) k d ≡ get_or w k d
get_or-snoc_old [] c k d h = absurd (omega arith)
get_or-snoc_old (x ∷ w) c zero d h = refl
get_or-snoc_old (x ∷ w) c (suc k) d h = get_or-snoc_old w c k d (omega arith)

pub get_or-snoc_new : (w : List ℕ) (c d : ℕ) → get_or (w ++ (c ∷ [])) (length w) d ≡ c
get_or-snoc_new [] c d = refl
get_or-snoc_new (x ∷ w) c d = get_or-snoc_new w c d

-- The cell after the text.
pub at-after : (w : List ℕ) (c : ℕ) (rest : List ℕ) → at (w ++ (c ∷ rest)) (length w) ≡ some c
unfolding at
at-after [] c rest = refl
at-after (x ∷ w) c rest = at-after w c rest

pub set-after :
    (w : List ℕ) (c b : ℕ) (rest : List ℕ)
    → set (w ++ (c ∷ rest)) (length w) b ≡ (w ++ (b ∷ [])) ++ rest
set-after [] c b rest = refl
set-after (x ∷ w) c b rest = ap (λ l. x ∷ l) (set-after w c b rest)

pub c_string-text : (w rest : List ℕ) → IsText w → c_string (w ++ (0 ∷ rest)) ≡ some w
unfolding c_string
c_string-text [] rest t = refl
c_string-text (x ∷ w) rest t =
    let ne : (x == 0) ≡ false = ground (arith, t.0) in rw (ne, c_string-text w rest t.1) refl
