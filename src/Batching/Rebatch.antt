-- ===== src/Batching/Rebatch.antt =====
-- rebatch_input: the input from the longest example to the shortest, cut into batches.
use ctranslate.Prelude.{
  ℕ, zero, suc, ◌+◌, Bool, true, false, String, List, [], ◌∷◌, map, length, get_or, take, drop,
  iota, ltb, ◌==◌, if◌then◌else◌, is_nil, Run, done, timeout, and_then,
}
use ctranslate.Batching.Defs.{
  BatchType, examples, Example, no_example, example_length, Reader, new_reader, get_next,
}
use ctranslate.Batching.Readers.{VectorReader, vector_reader, next_of_vector}

pub record Batch : Type 0 where
  pub members : List Example
  pub example_index : List ℕ

unfoldable pub get_stream : Batch → ℕ → List (List String)
get_stream b index = elim b.members [
  | [] ↦ []
  | e ∷ es ↦
      if ltb index (length e.streams)
      then map (λ (x : Example). get_or x.streams index []) (e ∷ es)
      else []
]

-- `index_vector` of utils.h. Outside the vector the source reads past its end; the model reads the
-- default value.
unfoldable pub index_vector {ℓ} : {A : Type ℓ} → A → List A → List ℕ → List A
index_vector d v [] = []
index_vector d v (i ∷ is) = get_or v i d ∷ index_vector d v is

-- `std::sort` with a comparison is a parameter.
module _ (sort : (ℕ → ℕ → Bool) → List ℕ → List ℕ) where
  unfoldable pub longest_first : List Example → List ℕ
  unfolding example_length
  longest_first es =
      sort
        (λ i j.
          ltb (example_length (get_or es j no_example) 0)
            (example_length (get_or es i no_example) 0))
        (iota 0 (length es))

-- The loop, on as many rounds as there can be batches, and one more.
unfoldable pub cut : ℕ → ℕ → ℕ → BatchType → List ℕ → Reader VectorReader → ℕ → Run (List Batch)
unfolding get_next next_of_vector
cut zero reads max_size type index r offset = timeout
cut (suc rounds) reads max_size type index r offset =
    and_then (get_next next_of_vector reads max_size type true r) λ (part, r'). elim (is_nil part) [
      | true ↦ done []
      | false ↦ and_then (cut rounds reads max_size type index r' (offset + length part)) λ rest.
          done (
            record { members = part; example_index = take (length part) (drop offset index) }
            ∷ rest)
    ]

module _ (sort : (ℕ → ℕ → Bool) → List ℕ → List ℕ) where
  unfoldable pub rebatch_input : List Example → ℕ → BatchType → Run (List Batch)
  unfolding longest_first index_vector cut
  rebatch_input es max_batch_size batch_type =
      let n = length es in
      let max_size = if max_batch_size == 0 then n else max_batch_size in
      let type = if max_batch_size == 0 then examples else batch_type in
      let index = longest_first sort es in
      if is_nil es
      then done []
      else cut (n + 1) (n + 1) max_size type index
          (new_reader (vector_reader (index_vector no_example es index))) 0
