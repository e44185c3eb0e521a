-- ===== src/Buffered/Requests.antt =====
-- What is asked of requests, and what of it holds for a part of them.
use mathlib.Core.List.{Nodup, Nodup-append, map-append}
use ctranslate.Prelude.{
  ℕ, suc, ◌+◌, ◌*◌, ◌^◌, ◌≤◌, ◌<◌, false, List, [], ◌∷◌, ◌++◌, All, map, length, get_elem?, get_or,
  ◌≢◌, ◌≡◌, refl, ap, subst, Error, arith, All-append_left, All-append_right, length-append,
}
use ctranslate.Prelude.Distinct.{Distinct-of_Nodup}
use ctranslate.Batching.Defs.{Example, example_length, no_example, is_empty}
use ctranslate.Replica.Defs.{Store, Failure}
use ctranslate.Replica.Settling.{IsPending, others-IsPending}
use ctranslate.Buffered.Pairs.{pairs}

abbrev pub second : Example × ℕ → ℕ
second x = x.1

pub numbers-pairs :
    (es : List Example) (ps : List ℕ) → length es ≡ length ps → map second (pairs es ps) ≡ ps
unfolding pairs
numbers-pairs [] [] h = refl
numbers-pairs [] (p ∷ ps) h = absurd (omega arith)
numbers-pairs (e ∷ es) [] h = absurd (omega arith)
numbers-pairs (e ∷ es) (p ∷ ps) h = ap (◌∷◌ p) (numbers-pairs es ps (omega arith))

pub length-pairs :
    (es : List Example) (ps : List ℕ) → length es ≡ length ps → length (pairs es ps) ≡ length es
unfolding pairs
length-pairs [] [] h = refl
length-pairs [] (p ∷ ps) h = absurd (omega arith)
length-pairs (e ∷ es) [] h = absurd (omega arith)
length-pairs (e ∷ es) (p ∷ ps) h = ap suc (length-pairs es ps (omega arith))

pub All-first :
    (P : Example → Type 0) (es : List Example) (ps : List ℕ)
    → length es ≡ length ps
    → All (λ x. P x.0) (pairs es ps)
    → All P es
unfolding pairs
All-first P [] [] h a = tt
All-first P [] (p ∷ ps) h a = absurd (omega arith)
All-first P (e ∷ es) [] h a = absurd (omega arith)
All-first P (e ∷ es) (p ∷ ps) h a = (a.0, All-first P es ps (omega arith) a.1)

-- From the places to the pairs.
pub All-pairs :
    (P : Example → ℕ → Type 0) (es : List Example) (ps : List ℕ)
    → length es ≡ length ps
    → ((i : ℕ) → i < length es → P (get_or es i no_example) (get_or ps i 0))
    → All (λ x. P x.0 x.1) (pairs es ps)
unfolding pairs
All-pairs P [] [] h k = tt
All-pairs P [] (p ∷ ps) h k = absurd (omega arith)
All-pairs P (e ∷ es) [] h k = absurd (omega arith)
All-pairs P (e ∷ es) (p ∷ ps) h k =
    (k 0 (omega arith), All-pairs P es ps (omega arith) (λ i lt. k (suc i) (omega arith)))

-- What is asked of the requests: examples with streams, whose sizes do not overflow, and a pending
-- promise of its own for each.
pub record IsRequests {R : Type 0} (L : ℕ) (s : Store R (Failure Error)) (rs : List (Example × ℕ))
    : Type 0 where
  pub full : All (λ x. is_empty x.0 ≡ false) rs
  pub bounded : All (λ x. example_length x.0 0 ≤ L) rs
  pub small : length rs * L < 2 ^ 64
  pub own : Nodup (map second rs)
  pub waiting : All (IsPending s) (map second rs)

fewer : (a b n L : ℕ) → n ≡ a + b → n * L < 2 ^ 64 → (a * L < 2 ^ 64) × (b * L < 2 ^ 64)
fewer a b n L e h = (grind arith, grind arith)

module _ {R : Type 0} (L : ℕ) (s : Store R (Failure Error)) (xs ys : List (Example × ℕ))
    (v : IsRequests L s (xs ++ ys)) where
  abbrev split_names : map second (xs ++ ys) ≡ map second xs ++ map second ys
  split_names = map-append second xs ys

  pub both : Nodup (map second xs ++ map second ys)
  both = subst Nodup split_names v.own

  pub IsRequests-left : IsRequests L s xs
  IsRequests-left = record {
    full = All-append_left _ xs ys v.full;
    bounded = All-append_left _ xs ys v.bounded;
    small = (fewer (length xs) (length ys) _ L (length-append xs ys) v.small).0;
    own = (Nodup-append.0 both).0;
    waiting =
        All-append_left (IsPending s) (map second xs) (map second ys)
          (subst (All (IsPending s)) split_names v.waiting);
  }

  -- The rest, once only the first were written to.
  pub IsRequests-right :
      (s' : Store R (Failure Error))
      → ((p : ℕ) → All (λ q. p ≢ q) (map second xs) → get_elem? s' p ≡ get_elem? s p)
      → IsRequests L s' ys
  IsRequests-right s' kept = record {
    full = All-append_right _ xs ys v.full;
    bounded = All-append_right _ xs ys v.bounded;
    small = (fewer (length xs) (length ys) _ L (length-append xs ys) v.small).1;
    own = (Nodup-append.0 both).1;
    waiting =
        others-IsPending s s' (map second xs) (map second ys) kept (Distinct-of_Nodup _ both) (
          All-append_right (IsPending s) (map second xs) (map second ys)
            (subst (All (IsPending s)) split_names v.waiting));
  }
