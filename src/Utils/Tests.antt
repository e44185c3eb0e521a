-- ===== src/Utils/Tests.antt =====
-- Texts by their bytes: "a" is 97, "b" is 98, and the space is 32.
use ctranslate.Prelude.{[], ◌∷◌, done, ◌≡◌, refl}
use ctranslate.Utils.Strings.{split_string, join_string}
use ctranslate.Utils.Tokens.{split_string-join_string}

split_string-join_string_example :
    split_string (join_string ((97 ∷ []) ∷ (98 ∷ 97 ∷ []) ∷ []) (32 ∷ [])) (32 ∷ [])
    ≡ done ((97 ∷ []) ∷ (98 ∷ 97 ∷ []) ∷ [])
split_string-join_string_example =
    split_string-join_string 32 ((97 ∷ []) ∷ (98 ∷ 97 ∷ []) ∷ []) refl
