-- ===== src/Padding/Rows.antt =====
-- What the two lists of indices of a Padder gather, over a batch of sequences with their padding.
use ctranslate.Prelude.{
  ℕ, zero, suc, ◌+◌, ◌-◌, ◌<◌, false, Option-cases, some, List, [], ◌∷◌, ◌++◌, length, replicate,
  iota, map, is_nil, get_elem?, done, ◌≡◌, refl, ap, arith, append_assoc, length-append, inl, inr,
}
use ctranslate.Padding.Gather.{gather}
use ctranslate.Padding.Padder.{
  ℤ, pos, pred, pad_to_multiple, flat_indices, padded_indices, indices, Storage,
}

module _ {A : Type 0} where
  gather-append :
      (xs : List A) (is js : List ℕ) (ys zs : List A)
      → gather xs is ≡ some ys
      → gather xs js ≡ some zs
      → gather xs (is ++ js) ≡ some (ys ++ zs)
  unfolding gather
  gather-append xs [] js ys zs h k = ground (arith, h, k)
  gather-append xs (i ∷ is) js ys zs h k = elim (Option-cases (get_elem? xs i)) [
    | inl e ↦ ground (arith, h, e)
    | inr (a, e) ↦ elim (Option-cases (gather xs is)) [
      | inl f ↦ ground (arith, h, e, f)
      | inr (cs, f) ↦ ground (arith, h, e, f, gather-append xs is js cs zs f k)
    ]
  ]

  get_elem?-append : (pre post : List A) (x : A) → get_elem? (pre ++ x ∷ post) (length pre) ≡ some x
  get_elem?-append [] post x = refl
  get_elem?-append (y ∷ pre) post x = get_elem?-append pre post x

  -- The rows from a position on.
  gather-iota :
      (pre xs post : List A)
      → gather (pre ++ (xs ++ post)) (iota (length pre) (length xs)) ≡ some xs
  unfolding gather
  gather-iota pre [] post = refl
  gather-iota pre (x ∷ xs) post = ground (
    arith,
    get_elem?-append pre (xs ++ post) x,
    gather-iota (pre ++ x ∷ []) xs post,
    length-append pre (x ∷ []),
    append_assoc pre (x ∷ []) (xs ++ post),
  )

  gather-replicate :
      (xs : List A) (n i : ℕ) (x : A)
      → get_elem? xs i ≡ some x
      → gather xs (replicate n i) ≡ some (replicate n x)
  unfolding gather
  gather-replicate xs zero i x h = refl
  gather-replicate xs (suc n) i x h = ground (arith, h, gather-replicate xs n i x h)

-- A sequence of at least one row, with its padding.
pub record Sequence (A : Type 0) : Type 0 where
  pub init : List A
  pub last : A
  pub padding : List A

module _ {A : Type 0} where
  abbrev pub real : Sequence A → List A
  real s = s.init ++ s.last ∷ []

  abbrev pub lengths : List (Sequence A) → List ℕ
  lengths [] = []
  lengths (s ∷ ss) = length (real s) ∷ lengths ss

  -- The rows of a batch, with the padding, without it, and with the last row as the padding.
  abbrev pub padded : List (Sequence A) → List A
  padded [] = []
  padded (s ∷ ss) = real s ++ (s.padding ++ padded ss)

  abbrev pub flat : List (Sequence A) → List A
  flat [] = []
  flat (s ∷ ss) = real s ++ flat ss

  abbrev pub repadded : List (Sequence A) → List A
  repadded [] = []
  repadded (s ∷ ss) = (real s ++ replicate (length s.padding) s.last) ++ repadded ss

  -- Every sequence has `time` rows with its padding.
  abbrev pub Fits : ℕ → List (Sequence A) → Type 0
  Fits time [] = Unit
  Fits time (s ∷ ss) = (length (real s) + length s.padding ≡ time) × Fits time ss

  pub gather-flat_indices :
      (time : ℕ) (pre : List A) (ss : List (Sequence A))
      → Fits time ss
      → gather (pre ++ padded ss) (flat_indices time (length pre) (lengths ss)) ≡ some (flat ss)
  unfolding gather flat_indices
  gather-flat_indices time pre [] h = refl
  gather-flat_indices time pre (s ∷ ss) h =
      let rest : gather (pre ++ padded (s ∷ ss))
            (flat_indices time (length pre + time) (lengths ss))
          ≡ some (flat ss) =
        ground (
          arith,
          h.0,
          gather-flat_indices time (pre ++ (real s ++ s.padding)) ss h.1,
          length-append pre (real s ++ s.padding),
          length-append (real s) s.padding,
          append_assoc pre (real s ++ s.padding) (padded ss),
          append_assoc (real s) s.padding (padded ss),
        ) in
      gather-append (pre ++ padded (s ∷ ss)) (iota (length pre) (length (real s)))
        (flat_indices time (length pre + time) (lengths ss)) (real s) (flat ss)
        (gather-iota pre (real s) (s.padding ++ padded ss)) rest

  -- The indices of `flat_to_padded`, none of which is negative.
  abbrev pub back_indices : ℕ → List (Sequence A) → List ℕ
  back_indices offset [] = []
  back_indices offset (s ∷ ss) =
      (iota offset (length (real s)) ++ replicate (length s.padding) (offset + length s.init))
      ++ back_indices (offset + length (real s)) ss

  pub gather-back_indices :
      (pre : List A) (ss : List (Sequence A))
      → gather (pre ++ flat ss) (back_indices (length pre) ss) ≡ some (repadded ss)
  unfolding gather
  gather-back_indices pre [] = refl
  gather-back_indices pre (s ∷ ss) =
      let all : List A = pre ++ flat (s ∷ ss) in
      let rest : gather (pre ++ flat (s ∷ ss)) (back_indices (length pre + length (real s)) ss)
          ≡ some (repadded ss) =
        ground (
          arith,
          gather-back_indices (pre ++ real s) ss,
          length-append pre (real s),
          append_assoc pre (real s) (flat ss),
        ) in
      let at_last : get_elem? (pre ++ flat (s ∷ ss)) (length pre + length s.init) ≡ some s.last =
        ground (
          arith,
          get_elem?-append (pre ++ s.init) (flat ss) s.last,
          length-append pre s.init,
          append_assoc pre s.init (s.last ∷ flat ss),
          append_assoc s.init (s.last ∷ []) (flat ss),
        ) in
      gather-append all
        (iota (length pre) (length (real s))
          ++ replicate (length s.padding) (length pre + length s.init))
        (back_indices (length pre + length (real s)) ss)
        (real s ++ replicate (length s.padding) s.last) (repadded ss)
        (gather-append all (iota (length pre) (length (real s)))
          (replicate (length s.padding) (length pre + length s.init)) (real s)
          (replicate (length s.padding) s.last) (gather-iota pre (real s) (flat ss))
          (gather-replicate all (length s.padding) (length pre + length s.init) s.last at_last))
        rest

pub is_nil-iota : (i n : ℕ) (xs : List ℕ) → 0 < n → is_nil (iota i n ++ xs) ≡ false
is_nil-iota i zero xs h = ground (arith, h)
is_nil-iota i (suc n) xs h = refl

pub length-map_pos : (is : List ℕ) → length (map pos is) ≡ length is
length-map_pos [] = refl
length-map_pos (i ∷ is) = ap suc (length-map_pos is)

pub pad_to_multiple-one : (is : List ℕ) → pad_to_multiple 2 1 is ≡ done is
unfolding pad_to_multiple
pad_to_multiple-one is = ground arith

indices-append :
    (is : List ℕ) (js : List ℤ) (ks : List ℕ)
    → indices js ≡ some ks
    → indices (map pos is ++ js) ≡ some (is ++ ks)
unfolding indices
indices-append [] js ks h = h
indices-append (i ∷ is) js ks h = ground (arith, indices-append is js ks h)

indices-replicate :
    (n i : ℕ) (js : List ℤ) (ks : List ℕ)
    → indices js ≡ some ks
    → indices (replicate n (pos i) ++ js) ≡ some (replicate n i ++ ks)
unfolding indices
indices-replicate zero i js ks h = h
indices-replicate (suc n) i js ks h = ground (arith, indices-replicate n i js ks h)

module _ {A : Type 0} where
  pred-real :
      (offset : ℕ) (s : Sequence A) → pred (offset + length (real s)) ≡ pos (offset + length s.init)
  pred-real offset s = ground (arith, length-append s.init (s.last ∷ []))

  pub indices-padded_indices :
      (time offset : ℕ) (ss : List (Sequence A))
      → Fits time ss
      → indices (padded_indices time offset (lengths ss)) ≡ some (back_indices offset ss)
  unfolding indices padded_indices
  indices-padded_indices time offset [] h = refl
  indices-padded_indices time offset (s ∷ ss) h =
      let at_last : pred (offset + length (real s)) ≡ pos (offset + length s.init) =
        pred-real offset s in
      let many : time - length (real s) ≡ length s.padding = omega (arith, h.0) in
      let rest = indices-padded_indices time (offset + length (real s)) ss h.1 in
      ground (
        arith,
        at_last,
        many,
        rest,
        indices-append (iota offset (length (real s)))
            (replicate (length s.padding) (pos (offset + length s.init))
              ++ padded_indices time (offset + length (real s)) (lengths ss))
            (replicate (length s.padding) (offset + length s.init)
              ++ back_indices (offset + length (real s)) ss),
        indices-replicate (length s.padding) (offset + length s.init)
            (padded_indices time (offset + length (real s)) (lengths ss))
            (back_indices (offset + length (real s)) ss),
        append_assoc (map pos (iota offset (length (real s))))
            (replicate (length s.padding) (pos (offset + length s.init)))
            (padded_indices time (offset + length (real s)) (lengths ss)),
        append_assoc (iota offset (length (real s)))
            (replicate (length s.padding) (offset + length s.init))
            (back_indices (offset + length (real s)) ss),
      )

  -- A batch of these sequences, with the dimensions that stay.
  abbrev pub batch_of : ℕ → List ℕ → List (Sequence A) → List A → Storage A
  batch_of time dims ss rows = record { shape = length ss ∷ time ∷ dims; rows = rows }
