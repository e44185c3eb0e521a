-- ===== src/Output/Tests.antt =====
-- A vocabulary of six ids, of which some are given.
use ctranslate.Prelude.{[], ◌∷◌, ok, ◌>>=◌, ◌≡◌, refl}
use ctranslate.Output.Defs.{
  OutputLayer, update_output_layer, to_output_word_id, to_original_word_id, is_in_output,
}
use ctranslate.Output.RoundTrip.{to_original_word_id-to_output_word_id}

abbrev whole : OutputLayer
whole = record {
  vocabulary_size = 0;
  layer_size = 6;
  output_size = 6;
  masked = 0;
  to_original = [];
  to_output = [];
}

-- The second update keeps the position that the id 5 had in the first one, where now the id 3 is.
stale_position :
    (let s = update_output_layer 1 (3 ∷ 5 ∷ []) (update_output_layer 1 (5 ∷ []) whole) in
      to_output_word_id s 5 >>= to_original_word_id s)
    ≡ ok 3
unfolding update_output_layer to_output_word_id to_original_word_id
stale_position = refl

-- The multiple makes both sizes 8, so that the five ids stay when all are asked for.
still_restricted :
    (update_output_layer 8 [] (update_output_layer 8 (0 ∷ 1 ∷ 2 ∷ 3 ∷ 5 ∷ []) whole)).to_original
    ≡ 0 ∷ 1 ∷ 2 ∷ 3 ∷ 5 ∷ 0 ∷ 0 ∷ 0 ∷ []
unfolding update_output_layer
still_restricted = refl

to_original_word_id-to_output_word_id_example :
    (to_output_word_id (update_output_layer 4 (3 ∷ 5 ∷ []) whole) 5
      >>= to_original_word_id (update_output_layer 4 (3 ∷ 5 ∷ []) whole))
    ≡ ok 5
unfolding update_output_layer is_in_output
to_original_word_id-to_output_word_id_example =
    to_original_word_id-to_output_word_id 4 (3 ∷ 5 ∷ []) whole 5 refl refl
