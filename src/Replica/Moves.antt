-- ===== src/Replica/Moves.antt =====
-- Which promises the job of a batch holds: those of the examples of the batch.
use ctranslate.Prelude.{
  ℕ, zero, suc, List, [], ◌∷◌, ◌++◌, All, map, get_elem?, get_or, set, ◌≢◌, ◌≡◌, refl, ap, ◌∙◌,
  none, some, All-append_left, All-append_right,
}
use ctranslate.Prelude.Distinct.{Distinct, Distinct-left, Distinct-right}
use ctranslate.Batching.Rebatch.{Batch, index_vector}
use ctranslate.Batching.RebatchLaws.{flat_index}
use ctranslate.Replica.Defs.{Promise, batch_job}
use ctranslate.Replica.Posting.{Client, move_promises, post_batches}

get_or-set_ne :
    {A : Type 0} (xs : List A) (i j : ℕ) (v d : A) → i ≢ j → get_or (set xs i v) j d ≡ get_or xs j d
get_or-set_ne [] i j v d h = refl
get_or-set_ne (x ∷ xs) zero zero v d h = absurd (h refl)
get_or-set_ne (x ∷ xs) zero (suc j) v d h = refl
get_or-set_ne (x ∷ xs) (suc i) zero v d h = refl
get_or-set_ne (x ∷ xs) (suc i) (suc j) v d h = get_or-set_ne xs i j v d (λ e. h (ap suc e))

-- `ids` are the numbers of the promises of the vector before any is moved.
module _ (ids : List ℕ) where
  -- Still in the vector.
  abbrev pub Present : List Promise → ℕ → Type 0
  Present ps i = get_or ps i none ≡ some (get_or ids i 0)

  stays :
      (ps : List Promise) (i : ℕ) (is : List ℕ)
      → All (λ j. i ≢ j) is
      → All (Present ps) is
      → All (Present (set ps i none)) is
  stays ps i [] d h = tt
  stays ps i (j ∷ is) d h = (get_or-set_ne ps i j none none d.0 ∙ h.0, stays ps i is d.1 h.1)

  moved_taken :
      (is : List ℕ) (ps : List Promise)
      → Distinct is
      → All (Present ps) is
      → (move_promises is ps).0 ≡ map some (index_vector 0 ids is)
  unfolding move_promises index_vector
  moved_taken [] ps d h = refl
  moved_taken (i ∷ is) ps d h =
      ap (λ p. p ∷ (move_promises is (set ps i none)).0) h.0
      ∙ ap (◌∷◌ (some (get_or ids i 0)))
          (moved_taken is (set ps i none) d.1 (stays ps i is d.0 h.1))

  moved_left :
      (is js : List ℕ) (ps : List Promise)
      → Distinct (is ++ js)
      → All (Present ps) js
      → All (Present (move_promises is ps).1) js
  unfolding move_promises
  moved_left [] js ps d h = h
  moved_left (i ∷ is) js ps d h =
      moved_left is js (set ps i none) d.1 (stays ps i js (All-append_right _ is js d.0) h)

-- The job of a batch, at the place of the batch.
module _ {Replica R E : Type 0} (ids : List ℕ) where
  pub get_elem?-post_batches :
      (func : Client Replica R E) (batches : List Batch) (ps : List Promise) (k : ℕ) (b : Batch)
      → Distinct (flat_index batches)
      → All (Present ids ps) (flat_index batches)
      → get_elem? batches k ≡ some b
      → get_elem? (post_batches func batches ps) k
        ≡ some
            (batch_job (λ replica. func replica b) (map some (index_vector 0 ids b.example_index)))
  unfolding post_batches
  get_elem?-post_batches func [] ps k b d h e = cc
  get_elem?-post_batches func (c ∷ batches) ps zero b d h e =
      let q : c ≡ b = cc in
      ap (λ taken. some (batch_job (λ replica. func replica c) taken))
        (moved_taken ids c.example_index ps (Distinct-left c.example_index (flat_index batches) d)
          (All-append_left _ c.example_index (flat_index batches) h))
      ∙ ap
          (λ x.
            some (
              batch_job (λ replica. func replica x)
                (map some (index_vector 0 ids x.example_index))))
          q
  get_elem?-post_batches func (c ∷ batches) ps (suc k) b d h e =
      get_elem?-post_batches func batches (move_promises c.example_index ps).1 k b
        (Distinct-right c.example_index (flat_index batches) d)
        (moved_left ids c.example_index (flat_index batches) ps d
          (All-append_right _ c.example_index (flat_index batches) h))
        e
