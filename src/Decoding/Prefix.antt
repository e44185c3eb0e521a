-- ===== src/Decoding/Prefix.antt =====
-- A row with a target prefix.
use mathlib.Core.List.{Perm}
use ctranslate.Prelude.{
  ℕ, zero, suc, ◌<◌, ◌≤◌, ltb, Bool, true, false, Bool-cases, ◌&&◌, ◌||◌, Option, none, some, List,
  [], ◌∷◌, ◌++◌, length, get_or, get_elem?, map, take, if◌then◌else◌, ◌≡◌, ◌⊎◌, refl, sym, ap,
  subst, ◌∙◌, arith, inl, inr, append_assoc, append-nil, All,
}
use ctranslate.Decoding.Defs.{Engine, SearchOptions, DecodingResult, is_eos, is_last_step, override}
use ctranslate.Decoding.Greedy.{
  Item, is_kept, is_finished, advance, no_result, new_result, greedy_search,
}
use ctranslate.Decoding.Lanes.{RowWise, Lane, lane_item, lane_probs}
use ctranslate.Decoding.OneHypothesis.{advance-hypothesis}
use ctranslate.Decoding.Length.{own_steps, greedy_search-decode_one}
use ctranslate.Decoding.MaxLength.{EndsAt, decode_one-keeps}

take_next : (p : List ℕ) (i : ℕ) → i < length p → take i p ++ get_or p i 0 ∷ [] ≡ take (suc i) p
take_next [] i h = ground (arith, h)
take_next (x ∷ p) zero h = refl
take_next (x ∷ p) (suc i) h = ap (◌∷◌ x) (take_next p i (omega (arith, h)))

take_all : (p : List ℕ) → take (length p) p ≡ p
take_all [] = refl
take_all (x ∷ p) = ap (◌∷◌ x) (take_all p)

All-get_or : (P : ℕ → Type 0) (p : List ℕ) (i : ℕ) → All P p → i < length p → P (get_or p i 0)
All-get_or P [] i a h = ground (arith, h)
All-get_or P (x ∷ p) zero a h = a.0
All-get_or P (x ∷ p) (suc i) a h = All-get_or P p i a.1 (omega (arith, h))

over_of_silent :
    (over kept stop : Bool) → stop ≡ false → (over || (kept && stop)) ≡ true → over ≡ true
over_of_silent over kept stop h g = ground (arith, h, g)

override_in :
    (E : Engine) (step : ℕ) (p ends : List ℕ) (s : ℕ × E.Score)
    → ltb step (length p) ≡ true
    → (override E step p ends 0 s).0 ≡ get_or p step 0
unfolding override
override_in E step p ends (w, s) h = rw h refl

module _ (E : Engine)
    (sort-perm : (before : ℕ → ℕ → Bool) (xs : List ℕ) → Perm (E.sort before xs) xs) (R : RowWise E)
    (o : SearchOptions) (prefixes : List (List ℕ)) (given : o.prefix_ids ≡ some prefixes)
    (whole : o.return_prefix ≡ true) (b : ℕ) where
  abbrev prefix : List ℕ
  prefix = get_or prefixes b []

  -- In the first steps the sample is the prefix's token.
  word_in_prefix :
      (step : ℕ) (l : Lane E R o)
      → l.batch_id ≡ b
      → step < length prefix
      → (lane_item E R o step l).word_id ≡ get_or prefix step 0
  word_in_prefix step l e h =
      let s = R.pick (lane_probs E R o step l) in
      ap
        (λ ps.
          (elim ps as (λ _. ℕ × E.Score) [
            | none ↦ s
            | some prefixes' ↦ override E step (get_or prefixes' l.batch_id []) o.end_ids 0 s
          ]).0)
        given
      ∙ ap (λ i. (override E step (get_or prefixes i []) o.end_ids 0 s).0) e
      ∙ override_in E step prefix o.end_ids s (ground (arith, h))

  -- The tokens of the hypothesis, as far as the prefix goes.
  abbrev Follows : ℕ → DecodingResult E → Type 0
  Follows step r =
      (h : List ℕ) × (r.hypotheses ≡ h ∷ [])
      × (((step ≤ length prefix) × (h ≡ take step prefix))
          ⊎ ((rest : List ℕ) × (h ≡ prefix ++ rest)))

  is_kept-word :
      (step : ℕ) (t : Item E) → is_eos t.word_id o.end_ids ≡ false → is_kept E o step t ≡ true
  unfolding is_kept
  is_kept-word step t h = rw (h, whole) refl

  grow :
      (h : List ℕ) (w : ℕ) (k : Bool)
      → ((rest : List ℕ) × (h ≡ prefix ++ rest))
      → (rest : List ℕ) × ((if k then h ++ w ∷ [] else h) ≡ prefix ++ rest)
  grow h w true (rest, e) =
      (rest ++ w ∷ [], ap (λ x. x ++ w ∷ []) e ∙ append_assoc prefix rest (w ∷ []))
  grow h w false x = x

  module _ (words : All (λ w. is_eos w o.end_ids ≡ false) prefix) where
    Follows-advance :
        (step : ℕ) (l : Lane E R o) (r : DecodingResult E)
        → l.batch_id ≡ b
        → Follows step r
        → Follows (suc step) (advance E o step (lane_item E R o step l) r)
    Follows-advance step l r e (h, p, inr f) = (
      _,
      advance-hypothesis E sort-perm o step (lane_item E R o step l) r h p,
      inr (grow h _ (is_kept E o step (lane_item E R o step l)) f),
    )
    Follows-advance step l r e (h, p, inl (le, q)) =
        let t = lane_item E R o step l in
        let adv = advance-hypothesis E sort-perm o step t r h p in
        elim (Bool-cases (ltb step (length prefix))) [
          | inl c ↦
              let lt : step < length prefix = ground (arith, c) in
              let w = word_in_prefix step l e lt in
              let k = is_kept-word step t (
                ap (λ x. is_eos x o.end_ids) w
                ∙ All-get_or (λ x. is_eos x o.end_ids ≡ false) prefix step words lt) in
              (
                h ++ t.word_id ∷ [],
                adv ∙ rw k refl,
                inl (omega (arith, lt), (λ i. q i ++ w i ∷ []) ∙ take_next prefix step lt),
              )
          | inr c ↦
              let eq : step ≡ length prefix = ground (arith, c, le) in
              (
                _,
                adv,
                inr (
                    grow h _ (is_kept E o step t) (
                      [],
                      q ∙ ap (λ n. take n prefix) eq ∙ take_all prefix ∙ sym (append-nil prefix),
                    )),
              )
        ]

    module _
        (silent : (step i j w : ℕ) (s : Option E.Score) (over : Bool)
          → E.callback step i j w s over ≡ false) where
      finished_at_last :
          (step : ℕ) (t : Item E)
          → is_eos t.word_id o.end_ids ≡ false
          → is_finished E o step t ≡ true
          → suc step ≡ o.max_length
      unfolding is_finished is_last_step
      finished_at_last step t n g =
          let c = over_of_silent _ _ _ (silent step t.batch_id 0 t.word_id _ _) g in
          ground (arith, n, c, whole)

      EndsAt-prefix : (k : ℕ) → length prefix ≤ o.max_length → EndsAt E R o b k → length prefix ≤ k
      EndsAt-prefix k m (s, l, e, i, g) = elim (Bool-cases (ltb s (length prefix))) [
        | inl c ↦
            let lt : s < length prefix = ground (arith, c) in
            let w = word_in_prefix s l i lt in
            let n =
              ap (λ x. is_eos x o.end_ids) w
              ∙ All-get_or (λ x. is_eos x o.end_ids ≡ false) prefix s words lt in
            omega (arith, e, m, finished_at_last s (lane_item E R o s l) n g)
        | inr c ↦ ground (arith, c, e)
      ]

      -- With the same hypotheses, when prefixes are given and returned, no callback stops the search, and
      -- the prefix of a row has no end token and at most max_length tokens, the hypothesis of the row
      -- starts with the prefix.
      pub greedy_search-prefix :
          (starts : List (ℕ × R.Row)) (state : E.State) (id : ℕ) (row : R.Row)
          → R.rows state ≡ map (λ p. p.1) starts
          → get_elem? starts b ≡ some (id, row)
          → b < length prefixes
          → 0 < o.max_length
          → length prefix ≤ o.max_length
          → (rest : List ℕ) × ((get_or
                (greedy_search E o (map (λ p. p.0) starts) state)
                b
                (no_result E)).hypotheses
              ≡ (prefix ++ rest) ∷ [])
      greedy_search-prefix starts state id row h g p k m =
          let has =
            subst
              (λ ps. elim ps as (λ _. Type 0) [
                | none ↦ Unit
                | some prefixes' ↦ b < length prefixes'
              ])
              (sym given) p in
          let l : Lane E R o = record { batch_id = b; input = id; sequence = []; row = row } in
          let (n, le, (tokens, e, f), c) =
            decode_one-keeps E R o b Follows Follows-advance (own_steps o b) 0 l (new_result E o)
              refl ([], refl, inl (omega arith, refl)) in
          let all =
            ap (λ r. r.hypotheses) (greedy_search-decode_one E R o starts state b id row h g k has)
            ∙ e in
          let own : own_steps o b ≡ o.max_length = ground (arith, whole) in
          let reached : length prefix ≤ n = elim c [
            | inl q ↦ omega (arith, own, m, q)
            | inr q ↦ EndsAt-prefix n m q
          ] in
          elim f [
            | inl (short, q) ↦
                let eq : n ≡ length prefix = omega (arith, short, reached) in
                (
                  [],
                  all
                      ∙ ap (λ x. x ∷ [])
                          (q
                            ∙ ap (λ i. take i prefix) eq
                            ∙ take_all prefix
                            ∙ sym (append-nil prefix)),
                )
            | inr (rest, q) ↦ (rest, all ∙ ap (λ x. x ∷ []) q)
          ]
