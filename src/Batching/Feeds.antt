-- ===== src/Batching/Feeds.antt =====
-- What a source of examples still has to give, and what one read from a BatchReader leaves.
use ctranslate.Prelude.{true, false, List, [], ◌∷◌, ◌≡◌, Result, ok}
use ctranslate.Batching.Defs.{Example, is_empty, Reader}

module _ {S : Type 0} (next : S → Result (Example × S)) where
  -- Read one by one, the source gives these examples and then its end.
  abbrev pub Feeds : S → List Example → Type 0
  Feeds s [] = (e : Example) × (s' : S) × (next s ≡ ok (e, s')) × (is_empty e ≡ true)
  Feeds s (x ∷ xs) = (s' : S) × (next s ≡ ok (x, s')) × (is_empty x ≡ false) × Feeds s' xs

  -- An initialized reader has read one example ahead.
  abbrev pub Pending : S → Example → List Example → Type 0
  Pending s ahead [] = is_empty ahead ≡ true
  Pending s ahead (x ∷ xs) = (ahead ≡ x) × (is_empty x ≡ false) × Feeds s xs

  -- What a BatchReader has still to deliver.
  pub data Delivers (r : Reader S) (es : List Example) : Type 0 where
    fresh : r.initialized ≡ false → Feeds r.source es → Delivers r es
    begun : r.initialized ≡ true → Pending r.source r.ahead es → Delivers r es
