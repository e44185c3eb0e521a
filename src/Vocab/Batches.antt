-- ===== src/Vocab/Batches.antt =====
-- Batches of tokens and of ids.
use ctranslate.Prelude.{
  ℕ, zero, suc, ◌-◌, ◌<◌, ◌≤◌, leb, ◌==◌, ◌&&◌, true, Text, Option, some, List, [], ◌∷◌, ◌++◌,
  length, get_or, set, take, map, if◌then◌else◌, ok, ◌>>=◌, Result-cases, ◌≡◌, refl, ap, inl, inr,
  arith, length-append, length-take, dec_lt,
}
use ctranslate.Vocab.Defs.{
  Vocabulary, contains, to_token, to_id, to_tokens_of, to_tokens, ids_of, marked, truncate, shorten,
  to_ids_of, to_ids,
}
use ctranslate.Vocab.Lookup.{IsWellFormed, to_token-to_id}

-- What becomes of a token that goes through its id.
abbrev pub seen : Vocabulary → Text → Text
seen v t = if contains v t then t else v.info.unk_token

module _ {v : Vocabulary} (w : IsWellFormed v) where
  to_id-seen : (t : Text) → (i : ℕ) × (to_id v t true ≡ ok i) × (to_token v i ≡ ok (seen v t))
  to_id-seen t = elim (Result-cases (to_id v t true)) [
    | inl (i, h) ↦ (i, h, ground (arith, h, to_token-to_id w t))
    | inr (e, h) ↦ ground (arith, h, to_token-to_id w t)
  ]

  ids_of-seen :
      (ts : List Text)
      → (is : List ℕ) × (ids_of v true ts ≡ ok is)
        × (to_tokens_of v is ≡ ok (map (seen v) ts))
        × (length is ≡ length ts)
  unfolding ids_of to_tokens_of
  ids_of-seen [] = ([], refl, refl, refl)
  ids_of-seen (t ∷ ts) =
      let (i, h, k) = to_id-seen t in
      let (is, hs, ks, n) = ids_of-seen ts in
      (i ∷ is, ground (arith, h, hs), ground (arith, k, ks), ap suc n)

  -- Encoding a batch without a length limit does not throw, and decoding the ids gives the tokens
  -- back, with the prefix and the suffix, and with the unknown token for each token that the
  -- vocabulary does not hold.
  pub to_tokens-to_ids :
      (prefix suffix : Option Text) (batch : List (List Text))
      → (to_ids v 0 prefix suffix true batch >>= to_tokens v)
        ≡ ok (map (λ ts. map (seen v) (marked prefix ++ ts ++ marked suffix)) batch)
  unfolding to_ids to_tokens to_ids_of shorten
  to_tokens-to_ids prefix suffix [] = refl
  to_tokens-to_ids prefix suffix (ts ∷ batch) =
      let (is, h, k, n) = ids_of-seen (marked prefix ++ ts ++ marked suffix) in
      elim (Result-cases (to_ids v 0 prefix suffix true batch)) [
        | inl (rest, e) ↦ ground (arith, h, k, e, to_tokens-to_ids prefix suffix batch)
        | inr (x, e) ↦ ground (arith, h, k, e, to_tokens-to_ids prefix suffix batch)
      ]

take-set :
    (k : ℕ) (xs : List ℕ) (e : ℕ) → k < length xs → take (suc k) (set xs k e) ≡ take k xs ++ e ∷ []
take-set k [] e h = ground (arith, h)
take-set zero (x ∷ xs) e h = refl
take-set (suc k) (x ∷ xs) e h = ap (◌∷◌ x) (take-set k xs e (omega (arith, h)))

take-set-set :
    (k : ℕ) (xs : List ℕ) (e l : ℕ)
    → suc k < length xs
    → take (suc (suc k)) (set (set xs k e) (suc k) l) ≡ take k xs ++ e ∷ l ∷ []
take-set-set k [] e l h = ground (arith, h)
take-set-set zero (x ∷ []) e l h = ground (arith, h)
take-set-set zero (x ∷ y ∷ xs) e l h = refl
take-set-set (suc k) (x ∷ xs) e l h = ap (◌∷◌ x) (take-set-set k xs e l (omega (arith, h)))

get_or-set : (k n : ℕ) (xs : List ℕ) (e : ℕ) → k < n → get_or (set xs k e) n 0 ≡ get_or xs n 0
get_or-set k n [] e h = refl
get_or-set k zero (x ∷ xs) e h = ground (arith, h)
get_or-set zero (suc n) (x ∷ xs) e h = refl
get_or-set (suc k) (suc n) (x ∷ xs) e h = get_or-set k n xs e (omega (arith, h))

-- Ids that are longer than a limit above 0 are cut to exactly that many: the first ones, of which
-- the last gives way to EOS when the ids end in EOS, and the last two to EOS and the last id when
-- EOS stands before the last id and the limit is at least 2.
pub truncate_lem :
    (eos m : ℕ) (ids : List ℕ)
    → 0 < m
    → m < length ids
    → truncate eos m ids ≡ (
        if get_or ids (length ids - 1) 0 == eos
        then take (m - 1) ids ++ eos ∷ []
        else if (get_or ids (length ids - 2) 0 == eos) && leb 2 m
        then take (m - 2) ids ++ eos ∷ get_or ids (length ids - 1) 0 ∷ []
        else take m ids)
unfolding truncate
truncate_lem eos zero ids p h = ground (arith, p)
truncate_lem eos (suc zero) ids p h = ground (arith, take-set 0 ids eos)
truncate_lem eos (suc (suc k)) ids p h = ground (
  arith,
  take-set (suc k) ids eos,
  take-set-set k ids eos (get_or ids (length ids - 1) 0),
  get_or-set k (length ids - 1) ids eos,
)

get_or-snoc : (xs : List ℕ) (a : ℕ) → get_or (xs ++ a ∷ []) (length (xs ++ a ∷ []) - 1) 0 ≡ a
get_or-snoc [] a = refl
get_or-snoc (x ∷ []) a = refl
get_or-snoc (x ∷ y ∷ xs) a = ground (arith, get_or-snoc (y ∷ xs) a)

module _ {v : Vocabulary} (w : IsWellFormed v) where
  ids_of-snoc :
      (ts : List Text) (t : Text)
      → (is : List ℕ) × (i : ℕ) × (to_id v t true ≡ ok i)
        × (ids_of v true (ts ++ t ∷ []) ≡ ok (is ++ i ∷ []))
  unfolding ids_of
  ids_of-snoc [] t = let (i, h, k) = to_id-seen w t in ([], i, h, ground (arith, h))
  ids_of-snoc (u ∷ ts) t =
      let (j, g, k) = to_id-seen w u in
      let (is, i, h, e) = ids_of-snoc ts t in (j ∷ is, i, h, ground (arith, g, e))

  shorten-eos :
      (m : ℕ) (xs : List ℕ) (e : ℕ)
      → to_id v v.info.eos_token true ≡ ok e
      → 0 < m
      → m < length xs
      → get_or xs (length xs - 1) 0 ≡ e
      → shorten v m xs ≡ ok (take (m - 1) xs ++ e ∷ [])
  unfolding shorten
  shorten-eos m xs e h p q l = ground (arith, h, p, q, l, truncate_lem e m xs p q)

  shorten_fits : (m : ℕ) (xs : List ℕ) → length xs ≤ m → shorten v m xs ≡ ok xs
  unfolding shorten
  shorten_fits m xs q = ground (arith, q)

  -- Encoding tokens with EOS as the suffix under a limit above 0 does not throw, gives at most as
  -- many ids as the limit, and EOS is the last of them.
  pub to_ids_of-eos :
      (m : ℕ) (prefix : Option Text) (ts : List Text)
      → 0 < m
      → (ids : List ℕ) × (e : ℕ) × (to_ids_of v m prefix (some v.info.eos_token) true ts
          ≡ ok (ids ++ e ∷ []))
        × (to_id v v.info.eos_token true ≡ ok e)
        × (length (ids ++ e ∷ []) ≤ m)
  unfolding to_ids_of marked
  to_ids_of-eos m prefix ts p =
      let (is, e, h, k) = ids_of-snoc (marked prefix ++ ts) v.info.eos_token in
      elim (dec_lt m (length (is ++ e ∷ []))) [
        | yes longer ↦ (
          take (m - 1) (is ++ e ∷ []),
          e,
          rw k (shorten-eos m (is ++ e ∷ []) e h p longer (get_or-snoc is e)),
          h,
          omega (
            arith,
            p,
            length-append (take (m - 1) (is ++ e ∷ [])) (e ∷ []),
            length-take (m - 1) (is ++ e ∷ []),
          ),
        )
        | no fits ↦ (
          is,
          e,
          rw k (shorten_fits m (is ++ e ∷ []) (omega (arith, fits))),
          h,
          omega (arith, fits),
        )
      ]
