-- ===== src/Batching/IndexVector.antt =====
-- What index_vector picks, and where it stands.
use ctranslate.Prelude.{
  ℕ, zero, suc, ◌<◌, List, [], ◌∷◌, All, length, take, drop, get_or, ◌≡◌, refl, ap, arith,
}
use ctranslate.Batching.Rebatch.{index_vector}

module _ {ℓ} {A : Type ℓ} (d : A) (v : List A) where
  pub length-index_vector : (is : List ℕ) → length (index_vector d v is) ≡ length is
  unfolding index_vector
  length-index_vector [] = refl
  length-index_vector (i ∷ is) = ap suc (length-index_vector is)

  pub take-index_vector :
      (n : ℕ) (is : List ℕ) → take n (index_vector d v is) ≡ index_vector d v (take n is)
  unfolding index_vector
  take-index_vector zero is = refl
  take-index_vector (suc n) [] = refl
  take-index_vector (suc n) (i ∷ is) = ap (◌∷◌ (get_or v i d)) (take-index_vector n is)

  pub drop-index_vector :
      (n : ℕ) (is : List ℕ) → drop n (index_vector d v is) ≡ index_vector d v (drop n is)
  unfolding index_vector
  drop-index_vector zero is = refl
  drop-index_vector (suc n) [] = refl
  drop-index_vector (suc n) (i ∷ is) = drop-index_vector n is

  -- What holds of every element holds of every element that is picked.
  pub All-index_vector {κ} :
      (P : A → Type κ) (is : List ℕ)
      → All P v
      → All (λ i. i < length v) is
      → All P (index_vector d v is)
  unfolding index_vector
  All-index_vector P [] h hs = tt
  All-index_vector P (i ∷ is) h hs = (pick v i h hs.0, All-index_vector P is h hs.1)
    where
      pick : (w : List A) (i : ℕ) → All P w → i < length w → P (get_or w i d)
      pick [] i h lt = absurd (omega arith)
      pick (x ∷ w) zero h lt = h.0
      pick (x ∷ w) (suc i) h lt = pick w i h.1 (omega arith)
