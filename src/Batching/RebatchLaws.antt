-- ===== src/Batching/RebatchLaws.antt =====
-- rebatch_input loses no example, mixes none up, and keeps every batch to its size.
use ctranslate.Prelude.{
  ℕ, zero, suc, ◌+◌, ◌*◌, ◌^◌, ◌≤◌, ◌<◌, true, false, List, [], ◌∷◌, ◌++◌, All, length, take, drop,
  is_nil, ◌≡◌, refl, sym, ap, subst, ◌∙◌, ◌⊎◌, Run, done, arith, length-append, take-append-drop,
  take-append_self, drop-append_self, drop-add, All-append_right,
}
use ctranslate.Batching.Defs.{
  BatchType, Example, no_example, get_batch_size_increment, Reader, get_next,
}
use ctranslate.Batching.Readers.{VectorReader, next_of_vector}
use ctranslate.Batching.Rebatch.{Batch, index_vector, cut}
use ctranslate.Batching.IndexVector.{length-index_vector, take-index_vector, drop-index_vector}
use ctranslate.Batching.Feeds.{Delivers}
use ctranslate.Batching.Cut.{cut_batch}
use ctranslate.Batching.FillLaws.{get_next-Reads}
use ctranslate.Batching.CutLaws.{cut_batch-append, is_nil-cut_batch, longest, cut_batch_sized}

abbrev pub flat_index : List Batch → List ℕ
flat_index [] = []
flat_index (b ∷ bs) = b.example_index ++ flat_index bs

-- A batch of the input `es`: its examples are those that its indices name, it is not empty, and
-- with padding it has at most `max_size` units or is a single example.
pub record IsBatchOf (es : List Example) (type : BatchType) (max_size : ℕ) (b : Batch)
    : Type 0 where
  pub indexed : b.members ≡ index_vector no_example es b.example_index
  pub filled : is_nil b.members ≡ false
  pub sized : (length b.members * longest type 0 b.members ≤ max_size) ⊎ (length b.members ≤ 1)

nil_of_length : {A : Type 0} (xs : List A) → length xs ≡ 0 → xs ≡ []
nil_of_length [] h = refl
nil_of_length (x ∷ xs) h = absurd (omega arith)

pub length-rest :
    {A : Type 0} (part rest es : List A)
    → part ++ rest ≡ es
    → is_nil part ≡ false
    → length rest < length es
length-rest [] rest es q e = cc
length-rest (x ∷ part) rest es q e = omega (arith, ap length q, length-append part rest)

module _ (all : List Example) (index : List ℕ) (max_size reads : ℕ) (type : BatchType) where
  -- The batches of a cut from `offset` on.
  pub record CutsFrom (offset : ℕ) (r : Run (List Batch)) : Type 0 where
    pub batches : List Batch
    pub returns : r ≡ done batches
    pub covers : flat_index batches ≡ drop offset index
    pub sound : All (IsBatchOf all type max_size) batches

  abbrev batch_at : ℕ → List Example → Batch
  batch_at offset part = record {
    members = part;
    example_index = take (length part) (drop offset index);
  }

  cut_end :
      (rounds offset : ℕ) (r r' : Reader VectorReader) (part : List Example)
      → get_next next_of_vector reads max_size type true r ≡ done (part, r')
      → is_nil part ≡ true
      → cut (suc rounds) reads max_size type index r offset ≡ done []
  unfolding cut
  cut_end rounds offset r r' part h e = ground arith

  cut_step :
      (rounds offset : ℕ) (r r' : Reader VectorReader) (part : List Example) (bs : List Batch)
      → get_next next_of_vector reads max_size type true r ≡ done (part, r')
      → is_nil part ≡ false
      → cut rounds reads max_size type index r' (offset + length part) ≡ done bs
      → cut (suc rounds) reads max_size type index r offset ≡ done (batch_at offset part ∷ bs)
  unfolding cut
  cut_step rounds offset r r' part bs h e k = ground arith

  -- What follows a batch of the examples `part ++ rest` is named by the indices that follow.
  named_rest :
      (offset : ℕ) (part rest es : List Example)
      → part ++ rest ≡ es
      → index_vector no_example all (drop offset index) ≡ es
      → index_vector no_example all (drop (offset + length part) index) ≡ rest
  named_rest offset part rest es q named =
      ap (index_vector no_example all) (drop-add offset (length part) index)
      ∙ sym (drop-index_vector no_example all (length part) (drop offset index))
      ∙ ap (drop (length part)) (named ∙ sym q)
      ∙ drop-append_self part rest

  named_part :
      (offset : ℕ) (part rest es : List Example)
      → part ++ rest ≡ es
      → index_vector no_example all (drop offset index) ≡ es
      → part ≡ index_vector no_example all (take (length part) (drop offset index))
  named_part offset part rest es q named = sym (
      sym (take-index_vector no_example all (length part) (drop offset index))
      ∙ ap (take (length part)) (named ∙ sym q)
      ∙ take-append_self part rest)

  covers_part :
      (offset n : ℕ) (later : List ℕ)
      → later ≡ drop (offset + n) index
      → take n (drop offset index) ++ later ≡ drop offset index
  covers_part offset n later h =
      ap (◌++◌ (take n (drop offset index))) (h ∙ drop-add offset n index)
      ∙ take-append-drop n (drop offset index)

  pub cut-CutsFrom :
      (L rounds offset : ℕ) (r : Reader VectorReader) (es : List Example)
      → 0 < max_size
      → length es < rounds
      → length es < reads
      → length es * L < 2 ^ 64
      → All (λ e. get_batch_size_increment e type ≤ L) es
      → Delivers next_of_vector r es
      → index_vector no_example all (drop offset index) ≡ es
      → CutsFrom offset (cut rounds reads max_size type index r offset)
  cut-CutsFrom L zero offset r es pos h k small bounded d named = absurd (omega arith)
  cut-CutsFrom L (suc rounds) offset r [] pos h k small bounded d named =
      let read = get_next-Reads next_of_vector reads max_size type true r [] pos k d in
      record {
        batches = [];
        returns = cut_end rounds offset r read.after _ read.returns (is_nil-cut_batch _ _ _ []);
        covers = sym (
            nil_of_length (drop offset index)
              (sym (length-index_vector no_example all (drop offset index)) ∙ ap length named));
        sound = tt;
      }
  cut-CutsFrom L (suc rounds) offset r (x ∷ xs) pos h k small bounded d named =
      let part = (cut_batch max_size type true (x ∷ xs)).0 in
      let rest = (cut_batch max_size type true (x ∷ xs)).1 in
      let read = get_next-Reads next_of_vector reads max_size type true r (x ∷ xs) pos k d in
      let q : part ++ rest ≡ x ∷ xs = cut_batch-append max_size type true (x ∷ xs) in
      let full : is_nil part ≡ false = is_nil-cut_batch max_size type true (x ∷ xs) in
      let fewer : length rest < length (x ∷ xs) = length-rest part rest (x ∷ xs) q full in
      let ih =
        cut-CutsFrom L rounds (offset + length part) read.after rest pos (omega arith) (omega arith)
          (grind arith) (All-append_right _ part rest (subst (All _) (sym q) bounded)) read.left
          (named_rest offset part rest (x ∷ xs) q named) in
      record {
        batches = batch_at offset part ∷ ih.batches;
        returns = cut_step rounds offset r read.after part ih.batches read.returns full ih.returns;
        covers = covers_part offset (length part) _ ih.covers;
        sound = (
          record {
            indexed = named_part offset part rest (x ∷ xs) q named;
            filled = full;
            sized = cut_batch_sized type max_size L (x ∷ xs) small bounded;
          },
          ih.sound,
        );
      }
