-- ===== src/Buffered/Pairs.antt =====
-- Requests and promises in two queues, side by side.
use ctranslate.Prelude.{ℕ, zero, suc, List, [], ◌∷◌, ◌++◌, length, take, drop, ◌≡◌, refl, ap, arith}
use ctranslate.Batching.Defs.{Example}

unfoldable pub pairs : List Example → List ℕ → List (Example × ℕ)
pairs [] ps = []
pairs (e ∷ es) [] = []
pairs (e ∷ es) (p ∷ ps) = (e, p) ∷ pairs es ps

pub pairs-append :
    (es : List Example) (ps : List ℕ) (e : Example) (p : ℕ)
    → length es ≡ length ps
    → pairs (es ++ e ∷ []) (ps ++ p ∷ []) ≡ pairs es ps ++ (e, p) ∷ []
unfolding pairs
pairs-append [] [] e p h = refl
pairs-append [] (q ∷ ps) e p h = absurd (omega arith)
pairs-append (f ∷ es) [] e p h = absurd (omega arith)
pairs-append (f ∷ es) (q ∷ ps) e p h = ap (◌∷◌ (f, q)) (pairs-append es ps e p (omega arith))

pub pairs-split :
    (n : ℕ) (es : List Example) (ps : List ℕ)
    → length es ≡ length ps
    → pairs (take n es) (take n ps) ++ pairs (drop n es) (drop n ps) ≡ pairs es ps
unfolding pairs
pairs-split zero es ps h = refl
pairs-split (suc n) [] [] h = refl
pairs-split (suc n) [] (q ∷ ps) h = absurd (omega arith)
pairs-split (suc n) (f ∷ es) [] h = absurd (omega arith)
pairs-split (suc n) (f ∷ es) (q ∷ ps) h = ap (◌∷◌ (f, q)) (pairs-split n es ps (omega arith))
