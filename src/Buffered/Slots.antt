-- ===== src/Buffered/Slots.antt =====
-- The jobs of one call of post_examples, as slots: the promises and the batch of each.
use mathlib.Core.List.{Perm}
use mathlib.Core.List.Perm
use ctranslate.Prelude.{
  ℕ, ◌*◌, ◌^◌, ◌≤◌, ◌<◌, Bool, false, List, [], ◌∷◌, ◌++◌, All, map, length, get_elem?, get_or,
  iota, ◌≡◌, refl, sym, ap, subst, ◌∙◌, some, Error, done, arith, All-iota, All-perm,
}
use native.Mathlib.Bridge.{le_prop}
use ctranslate.Prelude.Distinct.{Distinct-of_Nodup, Nodup-iota, flat}
use ctranslate.Prelude.Reading.{list_ext, All-get, All-map, get_elem?-map_at}
use ctranslate.Prelude.Finding.{get_elem?-of_lt, position_of, mem-iota}
use ctranslate.Decoding.RowSteps.{length-map}
use ctranslate.Decoding.Repeats.{index_vector-map, map-get_or}
use ctranslate.Batching.Defs.{examples, Example, example_length, no_example, is_empty}
use ctranslate.Batching.Rebatch.{Batch, index_vector}
use ctranslate.Batching.IndexVector.{length-index_vector}
use ctranslate.Batching.RebatchLaws.{flat_index}
use ctranslate.Batching.Reordering.{rebatch_input-Rebatches}
use ctranslate.Replica.Defs.{Job, batch_job}
use ctranslate.Replica.Posting.{Client, post_batches, post_examples}
use ctranslate.Replica.Schedules.{length-post_batches}
use ctranslate.Replica.Moves.{Present, get_elem?-post_batches}
use ctranslate.Replica.Places.{
  no_batch, get_elem?-index_vector, get_or-map-some, batch_of, index_vector-append,
}
use ctranslate.Buffered.Pairs.{pairs}
use ctranslate.Buffered.Requests.{All-first, All-pairs, length-pairs, numbers-pairs, second}

-- The promises that a job holds, and its batch.
abbrev pub Slot : Type 0
Slot = List ℕ × Batch

abbrev pub no_slot : Slot
no_slot = ([], no_batch)

abbrev pub slot_ids : Slot → List ℕ
slot_ids x = x.0

abbrev pub job_of : {Replica R : Type 0} → Client Replica R Error → Slot → Job Replica R Error
job_of func x = batch_job (λ replica. func replica x.1) (map some x.0)

-- As many promises as examples.
abbrev pub IsServed : Slot → Type 0
IsServed x = length x.0 ≡ length x.1.members

-- A slot has the promise `p` where it has the example `e`.
abbrev pub Covered : List Slot → Example → ℕ → Type 0
Covered slots e p =
    (k : ℕ) × (x : Slot) × (j : ℕ) × (get_elem? slots k ≡ some x)
    × (get_elem? x.0 j ≡ some p)
    × (get_elem? x.1.members j ≡ some e)

-- What a list of slots promises for a list of requests.
pub record IsPlan (slots : List Slot) (requests : List (Example × ℕ)) : Type 0 where
  pub served : All IsServed slots
  pub permutes : Perm (flat slot_ids slots) (map second requests)
  pub covered : All (λ x. Covered slots x.0 x.1) requests

slots_of : List ℕ → List Batch → List Slot
slots_of ids batches = map (λ b. (index_vector 0 ids b.example_index, b)) batches

flat-slots_of :
    (ids : List ℕ) (batches : List Batch)
    → flat slot_ids (slots_of ids batches) ≡ index_vector 0 ids (flat_index batches)
unfolding slots_of index_vector
flat-slots_of ids [] = refl
flat-slots_of ids (b ∷ batches) =
    ap (◌++◌ (index_vector 0 ids b.example_index)) (flat-slots_of ids batches)
    ∙ sym (index_vector-append 0 ids b.example_index (flat_index batches))

module _ {Replica R : Type 0} (sort : (ℕ → ℕ → Bool) → List ℕ → List ℕ)
    (sort-perm : (before : ℕ → ℕ → Bool) (xs : List ℕ) → Perm (sort before xs) xs)
    (func : Client Replica R Error) where
  -- The jobs of a post, as slots.
  pub one_post :
      (es : List Example) (ps : List ℕ) (max_batch_size L : ℕ)
      → length es ≡ length ps
      → 0 < L
      → All (λ x. is_empty x.0 ≡ false) (pairs es ps)
      → All (λ x. example_length x.0 0 ≤ L) (pairs es ps)
      → length (pairs es ps) * L < 2 ^ 64
      → (slots : List Slot) × (post_examples sort es max_batch_size examples (map some ps) func
          ≡ done (map (job_of func) slots))
        × IsPlan slots (pairs es ps)
  unfolding post_examples slots_of
  one_post es ps max_size L same pos full bounded small =
      let cut =
        rebatch_input-Rebatches sort sort-perm es max_size examples L
          (All-first (λ e. is_empty e ≡ false) es ps same full) pos
          (All-first (λ e. example_length e 0 ≤ L) es ps same bounded)
          (subst (λ n. n * L < 2 ^ 64) (length-pairs es ps same) small) in
      let slots = slots_of ps cut.batches in
      let in_range : All (λ i. i < length ps) (flat_index cut.batches) =
        All-perm _ (λ a. le_prop) cut.permutes
          (All-iota 0 (length es) (length ps) (omega (arith, same))) in
      let apart =
        Distinct-of_Nodup _ (Perm.nodup (Perm.symm cut.permutes) (Nodup-iota 0 (length es))) in
      let here =
        All-map (λ i. i < length ps) (Present ps (map some ps)) _ (λ i h. get_or-map-some ps i h)
          in_range in
      let indexed =
        All-map _ (λ b. b.members ≡ index_vector no_example es b.example_index) cut.batches
          (λ b h. h.indexed) cut.sound in
      let jobs = post_batches func cut.batches (map some ps) in
      let size : length jobs ≡ length cut.batches = length-post_batches func cut.batches _ in
      let jobs_eq : jobs ≡ map (job_of func) slots =
        list_ext jobs (map (job_of func) slots)
          (size ∙ sym (length-map (job_of func) slots ∙ length-map _ cut.batches))
          (λ k lt.
            let (b, at) = get_elem?-of_lt cut.batches k (omega (arith, lt, size)) in
            get_elem?-post_batches ps func cut.batches (map some ps) k b apart here at
            ∙ sym (
                get_elem?-map_at (job_of func) slots k (index_vector 0 ps b.example_index, b)
                  (get_elem?-map_at _ cut.batches k b at))) in
      (
        slots,
        rw (cut.returns, post_examples) (ap done jobs_eq),
        record {
          served = served cut.batches indexed;
          permutes = permutes cut.batches cut.permutes;
          covered = All-pairs (Covered slots) es ps same (λ i lt.
              let (m, at) = position_of i (flat_index cut.batches) (
                Perm.subset (Perm.symm cut.permutes) i
                  (mem-iota i 0 (length es) (omega arith) (omega arith))) in
              let (k, b, j, found, named) = batch_of cut.batches m i at in
              let members : b.members ≡ index_vector no_example es b.example_index =
                All-get (λ x. x.members ≡ index_vector no_example es x.example_index) cut.batches k
                  b indexed found in
              (
                k,
                (index_vector 0 ps b.example_index, b),
                j,
                get_elem?-map_at _ cut.batches k b found,
                get_elem?-index_vector 0 ps b.example_index j i named,
                ap (λ l. get_elem? l j) members
                    ∙ get_elem?-index_vector no_example es b.example_index j i named,
              ));
        },
      )
    where
      served :
          (batches : List Batch)
          → All (λ b. b.members ≡ index_vector no_example es b.example_index) batches
          → All IsServed (slots_of ps batches)
      served [] h = tt
      served (b ∷ batches) h = (
        length-index_vector 0 ps b.example_index
            ∙ sym (length-index_vector no_example es b.example_index)
            ∙ ap length (sym h.0),
        served batches h.1,
      )

      permutes :
          (batches : List Batch)
          → Perm (flat_index batches) (iota 0 (length es))
          → Perm (flat slot_ids (slots_of ps batches)) (map second (pairs es ps))
      permutes batches h =
          subst (λ l. Perm l (map second (pairs es ps))) (sym (flat-slots_of ps batches))
            (subst (Perm _) (whole ∙ sym (numbers-pairs es ps same)) (
              subst (λ l. Perm l (map (λ i. get_or ps i 0) (iota 0 (length es))))
                (sym (index_vector-map 0 ps (flat_index batches)))
                (Perm.map (λ i. get_or ps i 0) h)))
        where
          whole : map (λ i. get_or ps i 0) (iota 0 (length es)) ≡ ps
          whole = ap (λ m. map (λ i. get_or ps i 0) (iota 0 m)) same ∙ map-get_or 0 ps
