-- ===== src/Warping/Tests.antt =====
-- Costs as natural numbers, with no number for infinity; an entry `some k` stands for the value -k.
use ctranslate.Prelude.{
  ℕ, suc, ◌+◌, ◌*◌, ◌≤◌, arith, ltb, Bool, true, false, Option, none, some, List, [], ◌∷◌, done,
  ◌≡◌, refl,
}
use ctranslate.Padding.Padder.{ℤ, pos}
use ctranslate.Warping.Defs.{negative_dtw}
use ctranslate.Warping.Paths.{Warps, negative_dtw-Warps}

abbrev cheaper : Option ℕ → Option ℕ → Bool
cheaper none c = false
cheaper (some a) none = true
cheaper (some a) (some b) = ltb a b

abbrev cost_more : Option ℕ → Option ℕ → Option ℕ
cost_more none c = c
cost_more (some k) none = none
cost_more (some k) (some c) = some (k + c)

-- Entries of at most 5, and sums of `k` of them.
abbrev IsPiece : Option ℕ → Type 0
IsPiece none = ⊥
IsPiece (some c) = c ≤ 5

abbrev IsTotal : ℕ → Option ℕ → Type 0
IsTotal k none = ⊥
IsTotal k (some c) = c ≤ 5 * k

cost_more-IsTotal :
    (k : ℕ) (v c : Option ℕ) → IsPiece v → IsTotal k c → IsTotal (suc k) (cost_more v c)
cost_more-IsTotal k none c e h = absurd e
cost_more-IsTotal k (some v) none e h = h
cost_more-IsTotal k (some v) (some c) e h = omega (arith, e, h)

cheaper-inf : (k : ℕ) (c : Option ℕ) → k ≤ 2 → IsTotal k c → cheaper c none ≡ true
cheaper-inf k none l h = absurd h
cheaper-inf k (some c) l h = refl

abbrev entries : List (Option ℕ)
entries = some 1 ∷ some 0 ∷ some 5 ∷ some 0 ∷ []

-- The way over the second row costs 6, and the diagonal, which is not taken, 1: the costs of the
-- diagonal and of the upper cell are the same, so that neither is less than the other.
tie_path :
    negative_dtw none (some 0) cheaper cost_more entries 2 2
    ≡ done ((pos 0, pos 0) ∷ (pos 1, pos 0) ∷ (pos 1, pos 1) ∷ [])
unfolding negative_dtw
tie_path = refl

negative_dtw-Warps_example :
    (p : List (ℤ × ℤ)) × (negative_dtw none (some 0) cheaper cost_more entries 2 2 ≡ done p)
    × Warps 1 1 p
negative_dtw-Warps_example =
    negative_dtw-Warps none (some 0) cheaper cost_more IsPiece IsTotal (omega arith)
      cost_more-IsTotal 2 cheaper-inf (λ c. refl) entries 1 1 (omega arith) refl
      (omega arith, (omega arith, (omega arith, (omega arith, tt))))
