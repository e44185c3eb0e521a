-- ===== src/Replica/Places.antt =====
-- Where the indices of an input stand in its batches, and what is picked by them.
use ctranslate.Prelude.{
  ℕ, zero, suc, ◌+◌, ◌<◌, List, [], ◌∷◌, ◌++◌, All, map, length, get_elem?, get_or, iota, ◌⊎◌, ◌≡◌,
  refl, sym, ap, ◌∙◌, none, some, inl, inr, arith, All-append, All-append_left, All-append_right,
}
use ctranslate.Prelude.Distinct.{flat}
use ctranslate.Batching.Rebatch.{Batch, index_vector}
use ctranslate.Batching.RebatchLaws.{flat_index}

abbrev pub no_batch : Batch
no_batch = record { members = []; example_index = [] }

pub get_elem?-index_vector :
    {A : Type 0} (d : A) (v : List A) (is : List ℕ) (j i : ℕ)
    → get_elem? is j ≡ some i
    → get_elem? (index_vector d v is) j ≡ some (get_or v i d)
unfolding index_vector
get_elem?-index_vector d v [] j i h = cc
get_elem?-index_vector d v (k ∷ is) zero i h = let e : k ≡ i = cc in ap (λ z. some (get_or v z d)) e
get_elem?-index_vector d v (k ∷ is) (suc j) i h = get_elem?-index_vector d v is j i h

pub index_vector-append :
    {A : Type 0} (d : A) (v : List A) (is js : List ℕ)
    → index_vector d v (is ++ js) ≡ index_vector d v is ++ index_vector d v js
unfolding index_vector
index_vector-append d v [] js = refl
index_vector-append d v (i ∷ is) js = ap (◌∷◌ (get_or v i d)) (index_vector-append d v is js)

in_append :
    (xs ys : List ℕ) (m i : ℕ)
    → get_elem? (xs ++ ys) m ≡ some i
    → ((j : ℕ) × (get_elem? xs j ≡ some i)) ⊎ ((j : ℕ) × (get_elem? ys j ≡ some i))
in_append [] ys m i h = inr (m, h)
in_append (x ∷ xs) ys zero i h = inl (0, h)
in_append (x ∷ xs) ys (suc m) i h = elim (in_append xs ys m i h) [
  | inl (j, e) ↦ inl (suc j, e)
  | inr (j, e) ↦ inr (j, e)
]

pub get_or-map-some :
    (ids : List ℕ) (i : ℕ) → i < length ids → get_or (map some ids) i none ≡ some (get_or ids i 0)
get_or-map-some [] i h = absurd (omega arith)
get_or-map-some (x ∷ ids) zero h = refl
get_or-map-some (x ∷ ids) (suc i) h = get_or-map-some ids i (omega arith)

-- The place of an index in the batches.
pub batch_of :
    (batches : List Batch) (m i : ℕ)
    → get_elem? (flat_index batches) m ≡ some i
    → (k : ℕ) × (b : Batch) × (j : ℕ) × (get_elem? batches k ≡ some b)
      × (get_elem? b.example_index j ≡ some i)
batch_of [] m i h = cc
batch_of (b ∷ batches) m i h = elim (in_append b.example_index (flat_index batches) m i h) [
  | inl (j, e) ↦ (0, b, j, refl, e)
  | inr (m', e) ↦ let (k, b', j, p, q) = batch_of batches m' i e in (suc k, b', j, p, q)
]

-- The promises of each batch of the list.
unfoldable pub ids_at : List ℕ → List Batch → ℕ → List ℕ
ids_at ids batches k = index_vector 0 ids (get_or batches k no_batch).example_index

pub flat-ids_at :
    (ids : List ℕ) (c : List Batch) (n i : ℕ) (batches : List Batch)
    → ((k : ℕ) → k < n → get_or c (i + k) no_batch ≡ get_or batches k no_batch)
    → n ≡ length batches
    → flat (ids_at ids c) (iota i n) ≡ index_vector 0 ids (flat_index batches)
unfolding ids_at index_vector
flat-ids_at ids c zero i [] h e = refl
flat-ids_at ids c zero i (b ∷ batches) h e = absurd (omega arith)
flat-ids_at ids c (suc n) i [] h e = absurd (omega arith)
flat-ids_at ids c (suc n) i (b ∷ batches) h e =
    ap (λ x. index_vector 0 ids x.example_index ++ flat (ids_at ids c) (iota (suc i) n))
      (ap (λ z. get_or c z no_batch) (omega arith) ∙ h 0 (omega arith))
    ∙ ap (◌++◌ (index_vector 0 ids b.example_index)) (
        flat-ids_at ids c n (suc i) batches
          (λ k lt. ap (λ z. get_or c z no_batch) (omega arith) ∙ h (suc k) (omega arith))
          (omega (arith, e)))
    ∙ sym (index_vector-append 0 ids b.example_index (flat_index batches))

pub All-batches :
    (P : ℕ → Type 0) (batches : List Batch)
    → All P (flat_index batches)
    → All (λ b. All P b.example_index) batches
All-batches P [] h = tt
All-batches P (b ∷ batches) h = (
  All-append_left P b.example_index (flat_index batches) h,
  All-batches P batches (All-append_right P b.example_index (flat_index batches) h),
)

pub All-flat :
    {A : Type 0} (P : ℕ → Type 0) (f : A → List ℕ) (xs : List A)
    → All (λ x. All P (f x)) xs
    → All P (flat f xs)
All-flat P f [] h = tt
All-flat P f (x ∷ xs) h = All-append P (f x) (flat f xs) h.0 (All-flat P f xs h.1)
