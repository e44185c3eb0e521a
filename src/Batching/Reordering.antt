-- ===== src/Batching/Reordering.antt =====
-- rebatch_input as a whole: every example of the input is in exactly one batch.
use mathlib.Core.List.{Perm}
use mathlib.Core.List.Perm
use native.Mathlib.Bridge.{le_prop}
use ctranslate.Prelude.{
  ℕ, ◌+◌, ◌*◌, ◌^◌, ◌≤◌, ◌<◌, Bool, List, [], ◌∷◌, All, length, iota, ◌==◌, if◌then◌else◌, ◌≡◌,
  refl, sym, ◌∙◌, Run, done, arith, All-perm, All-iota, length-perm, length-iota, subst,
}
use ctranslate.Batching.Defs.{
  BatchType, examples, tokens, Example, no_example, example_length, get_batch_size_increment,
  new_reader,
}
use ctranslate.Batching.Readers.{vector_reader}
use ctranslate.Batching.Rebatch.{Batch, index_vector, longest_first, rebatch_input}
use ctranslate.Batching.IndexVector.{length-index_vector, All-index_vector}
use ctranslate.Batching.Feeds.{fresh}
use ctranslate.Batching.VectorLaws.{HasStreams, vector-Feeds}
use ctranslate.Batching.RebatchLaws.{IsBatchOf, flat_index, CutsFrom, cut-CutsFrom}

-- A limit of 0 stands for one batch of all examples.
abbrev pub effective_size : List Example → ℕ → ℕ
effective_size es max_size = if max_size == 0 then length es else max_size

abbrev pub effective_type : ℕ → BatchType → BatchType
effective_type max_size type = if max_size == 0 then examples else type

-- The batches of `es`: together their indices are 0, …, n - 1, each once.
pub record Rebatches (es : List Example) (max_size : ℕ) (type : BatchType) (r : Run (List Batch))
    : Type 0 where
  pub batches : List Batch
  pub returns : r ≡ done batches
  pub permutes : Perm (flat_index batches) (iota 0 (length es))
  pub sound : All (IsBatchOf es (effective_type max_size type) (effective_size es max_size)) batches

increments-le :
    (type : BatchType) (L : ℕ) (es : List Example)
    → 0 < L
    → All (λ e. example_length e 0 ≤ L) es
    → All (λ e. get_batch_size_increment e type ≤ L) es
unfolding get_batch_size_increment
increments-le type L [] pos h = tt
increments-le examples L (e ∷ es) pos h = (omega arith, increments-le examples L es pos h.1)
increments-le tokens L (e ∷ es) pos h = (h.0, increments-le tokens L es pos h.1)

module _ (sort : (ℕ → ℕ → Bool) → List ℕ → List ℕ)
    (sort-perm : (before : ℕ → ℕ → Bool) (xs : List ℕ) → Perm (sort before xs) xs) where
  longest_first-perm : (es : List Example) → Perm (longest_first sort es) (iota 0 (length es))
  unfolding longest_first
  longest_first-perm es = sort-perm _ _

  -- For a sort that rearranges, and examples that each have a stream and whose sizes do not
  -- overflow: the call returns, every index of the input stands in exactly one batch, each batch
  -- holds the examples that its indices name, none is empty, and none exceeds the size limit unless
  -- it is a single example.
  pub rebatch_input-Rebatches :
      (es : List Example) (max_size : ℕ) (type : BatchType) (L : ℕ)
      → HasStreams es
      → 0 < L
      → All (λ e. example_length e 0 ≤ L) es
      → length es * L < 2 ^ 64
      → Rebatches es max_size type (rebatch_input sort es max_size type)
  unfolding rebatch_input
  rebatch_input-Rebatches [] max_size type L full pos hs small = record {
    batches = [];
    returns = refl;
    permutes = Perm.nil;
    sound = tt;
  }
  rebatch_input-Rebatches (e ∷ es) max_size type L full pos hs small = record {
    batches = c.batches;
    returns = c.returns;
    permutes =
        subst (λ l. Perm l (iota 0 (length (e ∷ es)))) (sym c.covers) (longest_first-perm (e ∷ es));
    sound = c.sound;
  }
    where
      index : List ℕ
      index = longest_first sort (e ∷ es)

      sorted : List Example
      sorted = index_vector no_example (e ∷ es) index

      same_length : length sorted ≡ length (e ∷ es)
      same_length =
          length-index_vector no_example (e ∷ es) index
          ∙ length-perm (longest_first-perm (e ∷ es))
          ∙ length-iota 0 (length (e ∷ es))

      in_range : All (λ i. i < length (e ∷ es)) index
      in_range =
          All-perm _ (λ a. le_prop) (longest_first-perm (e ∷ es))
            (All-iota 0 (length (e ∷ es)) (length (e ∷ es)) (omega arith))

      c :
          CutsFrom
            (e ∷ es)
            index
            (effective_size (e ∷ es) max_size)
            (length (e ∷ es) + 1)
            (effective_type max_size type)
            0
            (rebatch_input sort (e ∷ es) max_size type)
      c =
          cut-CutsFrom (e ∷ es) index (effective_size (e ∷ es) max_size) (length (e ∷ es) + 1)
            (effective_type max_size type) L (length (e ∷ es) + 1) 0
            (new_reader (vector_reader sorted)) sorted (ground arith) (omega (arith, same_length))
            (omega (arith, same_length)) (subst (λ n. n * L < 2 ^ 64) (sym same_length) small)
            (increments-le _ L sorted pos
              (All-index_vector no_example (e ∷ es) _ index hs in_range))
            (fresh refl (
              vector-Feeds sorted 0 sorted refl
                (All-index_vector no_example (e ∷ es) _ index full in_range)))
            refl
