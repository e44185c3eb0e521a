-- ===== src/Batching/Cut.antt =====
-- The abstract view of a read: the list of examples that are left is cut in two.
use ctranslate.Prelude.{
  ℕ, suc, ◌+◌, ◌*◌, max, Bool, true, false, ◌&&◌, List, [], ◌∷◌, ltb, if◌then◌else◌,
}
use ctranslate.Batching.Defs.{BatchType, Example, get_batch_size_increment, u64}

-- Where the examples to deliver are cut when padding counts: `count` examples with the largest
-- increment `m` are in the batch already.
unfoldable pub cut_fixed : ℕ → BatchType → ℕ → ℕ → List Example → List Example × List Example
cut_fixed max_size type count m [] = ([], [])
cut_fixed max_size type count m (e ∷ es) =
    let m' = max m (get_batch_size_increment e type) in
    let (batch, rest) = cut_fixed max_size type (suc count) m' es in
    if ltb 0 count && ltb max_size (u64 ((count + 1) * m')) then ([], e ∷ es) else (e ∷ batch, rest)

unfoldable pub cut_variable : ℕ → BatchType → ℕ → ℕ → List Example → List Example × List Example
cut_variable max_size type count total [] = ([], [])
cut_variable max_size type count total (e ∷ es) =
    let total' = u64 (total + get_batch_size_increment e type) in
    let (batch, rest) = cut_variable max_size type (suc count) total' es in
    if ltb 0 count && ltb max_size total' then ([], e ∷ es) else (e ∷ batch, rest)

unfoldable pub cut_batch : ℕ → BatchType → Bool → List Example → List Example × List Example
unfolding cut_fixed cut_variable
cut_batch max_size type true es = cut_fixed max_size type 0 0 es
cut_batch max_size type false es = cut_variable max_size type 0 0 es
