-- ===== src/Constraints/Defs.antt =====
-- DisableTokens of include/ctranslate2/decoding_utils.h and src/decoding_utils.cc.
use ctranslate.Prelude.{
  ℕ, zero, suc, ◌+◌, ◌*◌, ◌%◌, ltb, ◌==◌, Bool, List, [], ◌∷◌, set, is_nil, if◌then◌else◌,
}

-- The logits are the rows of a matrix, one behind the other, with scores of any type.
pub record DisableTokens (A : Type 0) : Type 0 where
  pub logits : List A
  pub on_cpu : Bool
  pub disable_value : A
  pub batch_size : ℕ
  pub vocabulary_size : ℕ
  pub flat_indices : List ℕ

-- The list of indices holds int32_t. An index that is too large for it is cut, and would be read as
-- another one, or as a negative one, which is kept here by its 32 bits.
unfoldable pub narrow : ℕ → ℕ
narrow i = i % 4294967296

-- The place is found by std::lower_bound, on the index before it is cut; nothing changes when the index
-- is there.
unfoldable pub insert_index : ℕ → List ℕ → List ℕ
unfolding narrow
insert_index i [] = narrow i ∷ []
insert_index i (j ∷ js) =
    if ltb i j then narrow i ∷ j ∷ js else if i == j then j ∷ js else j ∷ insert_index i js

module _ {A : Type 0} where
  -- primitives::indexed_fill.
  unfoldable pub indexed_fill : List A → A → List ℕ → List A
  indexed_fill x a [] = x
  indexed_fill x a (i ∷ indices) = indexed_fill (set x i a) a indices

  unfoldable pub add : ℕ → ℕ → DisableTokens A → DisableTokens A
  unfolding insert_index
  add batch_id token_id d =
      let flat_index = batch_id * d.vocabulary_size + token_id in
      if d.on_cpu
      then record d { logits = set d.logits flat_index d.disable_value }
      else record d { flat_indices = insert_index flat_index d.flat_indices }

  -- The token for each of the rows that are left.
  unfoldable pub add_rows : ℕ → ℕ → ℕ → DisableTokens A → DisableTokens A
  unfolding add
  add_rows zero batch_id token_id d = d
  add_rows (suc rows) batch_id token_id d =
      add_rows rows (suc batch_id) token_id (add batch_id token_id d)

  -- The token for all rows.
  unfoldable pub add_all : ℕ → DisableTokens A → DisableTokens A
  unfolding add_rows
  add_all token_id d = add_rows d.batch_size 0 token_id d

  unfoldable pub apply : DisableTokens A → DisableTokens A
  unfolding indexed_fill
  apply d = if is_nil d.flat_indices then d else record d {
    logits = indexed_fill d.logits d.disable_value d.flat_indices;
    flat_indices = [];
  }

  -- A loop over the tokens of a row.
  unfoldable pub add_each : ℕ → List ℕ → DisableTokens A → DisableTokens A
  unfolding add
  add_each batch_id [] d = d
  add_each batch_id (t ∷ tokens) d = add_each batch_id tokens (add batch_id t d)
