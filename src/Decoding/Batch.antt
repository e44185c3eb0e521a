-- ===== src/Decoding/Batch.antt =====
-- Greedy search on a batch gives for each row what it gives for that row alone.
use ctranslate.Prelude.{
  ℕ, zero, suc, ◌<◌, ◌==◌, ==_iff, Bool, true, false, Bool-cases, List, [], ◌∷◌, length, get_or,
  set, map, is_nil, if◌then◌else◌, ◌≡◌, refl, sym, ap, subst, ◌∙◌, arith, inl, inr, length-is_zero,
  length-set, get_or-set, length_of_nil,
}
use ctranslate.Decoding.Defs.{Engine, SearchOptions, DecodingResult}
use ctranslate.Decoding.Greedy.{
  Item, is_finished, advance, positions, update_results, search_rounds, no_result,
}
use ctranslate.Decoding.Lanes.{
  keep, RowWise, Lane, lane_item, lane_next, goes_on, next_lanes, decode_one,
}
use ctranslate.Decoding.RowSteps.{length-positions}
use ctranslate.Decoding.DecodeRows.{at_lanes}
use ctranslate.Decoding.Refinement.{step_lanes}

module _ (E : Engine) (o : SearchOptions) where
  pub length-update_results :
      (step : ℕ) (ts : List (Item E)) (rs : List (DecodingResult E))
      → length (update_results E o step ts rs) ≡ length rs
  unfolding update_results
  length-update_results step [] rs = refl
  length-update_results step (t ∷ ts) rs =
      length-update_results step ts _
      ∙ length-set rs t.batch_id (advance E o step t (get_or rs t.batch_id (no_result E)))

module _ (E : Engine) (R : RowWise E) (o : SearchOptions) where
  open E use {State}
  open R use {rows, Row}

  -- No lane is for the batch id `b`.
  abbrev pub Absent : ℕ → List (Lane E R o) → Type 0
  Absent b [] = Unit
  Absent b (l ∷ ls) = ((l.batch_id == b) ≡ false) × Absent b ls

  abbrev pub Distinct : List (Lane E R o) → Type 0
  Distinct [] = Unit
  Distinct (l ∷ ls) = Absent l.batch_id ls × Distinct ls

  -- What happens to the result of `b`: in one step, and in all that are left.
  abbrev step_at : ℕ → ℕ → List (Lane E R o) → DecodingResult E → DecodingResult E
  step_at step b [] r = r
  step_at step b (l ∷ ls) r =
      if l.batch_id == b then advance E o step (lane_item E R o step l) r else step_at step b ls r

  abbrev pub result_at : ℕ → ℕ → ℕ → List (Lane E R o) → DecodingResult E → DecodingResult E
  result_at rounds step b [] r = r
  result_at rounds step b (l ∷ ls) r =
      if l.batch_id == b then decode_one E R o rounds step l r else result_at rounds step b ls r

  step_at-Absent :
      (step b : ℕ) (ls : List (Lane E R o)) (r : DecodingResult E)
      → Absent b ls
      → step_at step b ls r ≡ r
  step_at-Absent step b [] r h = refl
  step_at-Absent step b (l ∷ ls) r h = rw h.0 (step_at-Absent step b ls r h.1)

  result_at-Absent :
      (rounds step b : ℕ) (ls : List (Lane E R o)) (r : DecodingResult E)
      → Absent b ls
      → result_at rounds step b ls r ≡ r
  result_at-Absent rounds step b [] r h = refl
  result_at-Absent rounds step b (l ∷ ls) r h = rw h.0 (result_at-Absent rounds step b ls r h.1)

  result_at-zero :
      (step b : ℕ) (ls : List (Lane E R o)) (r : DecodingResult E) → result_at 0 step b ls r ≡ r
  unfolding decode_one
  result_at-zero step b [] r = refl
  result_at-zero step b (l ∷ ls) r = elim (Bool-cases (l.batch_id == b)) [
    | inl h ↦ rw h
    | inr h ↦ rw h (result_at-zero step b ls r)
  ]

  next-Absent :
      (step b : ℕ) (ls : List (Lane E R o)) → Absent b ls → Absent b (next_lanes E R o step ls)
  next-Absent step b [] h = tt
  next-Absent step b (l ∷ ls) h = elim (Bool-cases (goes_on E R o step l)) [
    | inl g ↦ rw g (h.0, next-Absent step b ls h.1)
    | inr g ↦ rw g (next-Absent step b ls h.1)
  ]

  next-Distinct :
      (step : ℕ) (ls : List (Lane E R o)) → Distinct ls → Distinct (next_lanes E R o step ls)
  next-Distinct step [] h = tt
  next-Distinct step (l ∷ ls) h = elim (Bool-cases (goes_on E R o step l)) [
    | inl g ↦ rw g (next-Absent step l.batch_id ls h.0, next-Distinct step ls h.1)
    | inr g ↦ rw g (next-Distinct step ls h.1)
  ]

  pub decode_one-suc :
      (rounds step : ℕ) (l : Lane E R o) (r : DecodingResult E) (over : Bool)
      → is_finished E o step (lane_item E R o step l) ≡ over
      → decode_one E R o (suc rounds) step l r ≡ (
          if over
          then advance E o step (lane_item E R o step l) r
          else decode_one E R o rounds
              (suc step)
              (lane_next E R o step l)
              (advance E o step (lane_item E R o step l) r))
  unfolding decode_one
  decode_one-suc rounds step l r true g =
      ap
        (λ x. elim x as (λ _. DecodingResult E) [
          | true ↦ advance E o step (lane_item E R o step l) r
          | false ↦
              decode_one E R o rounds (suc step) (lane_next E R o step l)
                (advance E o step (lane_item E R o step l) r)
        ])
        g
  decode_one-suc rounds step l r false g =
      ap
        (λ x. elim x as (λ _. DecodingResult E) [
          | true ↦ advance E o step (lane_item E R o step l) r
          | false ↦
              decode_one E R o rounds (suc step) (lane_next E R o step l)
                (advance E o step (lane_item E R o step l) r)
        ])
        g

  -- A step, and then what is left for the lanes that go on, is what is left.
  result_at-step :
      (rounds step b : ℕ) (ls : List (Lane E R o)) (r : DecodingResult E)
      → Distinct ls
      → result_at rounds (suc step) b (next_lanes E R o step ls) (step_at step b ls r)
        ≡ result_at (suc rounds) step b ls r
  result_at-step rounds step b [] r d = refl
  result_at-step rounds step b (l ∷ ls) r d =
      elim (Bool-cases (is_finished E o step (lane_item E R o step l))) [
        | inl g ↦ elim (Bool-cases (l.batch_id == b)) [
          | inl f ↦
              rw (g, f, decode_one-suc rounds step l r true g)
                (result_at-Absent rounds (suc step) b (next_lanes E R o step ls) _ (
                  next-Absent step b ls (subst (λ x. Absent x ls) ((==_iff l.batch_id b).0 f) d.0)))
          | inr f ↦ rw (g, f) (result_at-step rounds step b ls r d.1)
        ]
        | inr g ↦ elim (Bool-cases (l.batch_id == b)) [
          | inl f ↦ rw (g, f, decode_one-suc rounds step l r false g)
          | inr f ↦ rw (g, f) (result_at-step rounds step b ls r d.1)
        ]
      ]

  get_or-update_results :
      (step b : ℕ) (ls : List (Lane E R o)) (rs : List (DecodingResult E))
      → Distinct ls
      → b < length rs
      → get_or (update_results E o step (map (lane_item E R o step) ls) rs) b (no_result E)
        ≡ step_at step b ls (get_or rs b (no_result E))
  unfolding update_results
  get_or-update_results step b [] rs d h = refl
  get_or-update_results step b (l ∷ ls) rs d h =
      let r = advance E o step (lane_item E R o step l) (get_or rs l.batch_id (no_result E)) in
      let e = get_or-set rs l.batch_id b r (no_result E) h in
      let k : b < length (set rs l.batch_id r) = omega (arith, h, length-set rs l.batch_id r) in
      let ih = get_or-update_results step b ls (set rs l.batch_id r) d.1 k in
      elim (Bool-cases (l.batch_id == b)) [
        | inl f ↦
            let p = (==_iff l.batch_id b).0 f in
            let here : (if l.batch_id == b then r else get_or rs b (no_result E)) ≡ r = rw f in
            let there : (if l.batch_id == b
                  then advance E o step (lane_item E R o step l) (get_or rs b (no_result E))
                  else step_at step b ls (get_or rs b (no_result E)))
                ≡ advance E o step (lane_item E R o step l) (get_or rs b (no_result E)) =
              rw f in
            ih
            ∙ step_at-Absent step b ls _ (subst (λ x. Absent x ls) p d.0)
            ∙ e
            ∙ here
            ∙ ap (λ x. advance E o step (lane_item E R o step l) (get_or rs x (no_result E))) p
            ∙ sym there
        | inr f ↦
            let here : (if l.batch_id == b then r else get_or rs b (no_result E))
                ≡ get_or rs b (no_result E) =
              rw f in
            let there : (if l.batch_id == b
                  then advance E o step (lane_item E R o step l) (get_or rs b (no_result E))
                  else step_at step b ls (get_or rs b (no_result E)))
                ≡ step_at step b ls (get_or rs b (no_result E)) =
              rw f in
            ih ∙ ap (step_at step b ls) (e ∙ here) ∙ sym there
      ]

  is_nil-keep :
      (step : ℕ) (ls : List (Lane E R o))
      → is_nil (positions 0 (map (goes_on E R o step) ls)) ≡ true
      → ◌≡◌ {A = List (Lane E R o)} (next_lanes E R o step ls) []
  is_nil-keep step ls h = ap (map (lane_next E R o step)) (
      length-is_zero (keep (goes_on E R o step) ls) (
        sym (length-positions (goes_on E R o step) ls)
        ∙ length_of_nil (positions 0 (map (goes_on E R o step) ls)) h))

  pub search_rounds-result_at :
      (rounds step b : ℕ) (ls : List (Lane E R o)) (state : State) (rs : List (DecodingResult E))
      → rows state ≡ map (λ l. l.row) ls
      → Distinct ls
      → b < length rs
      → get_or (search_rounds E o rounds step (at_lanes E R o ls state rs)) b (no_result E)
        ≡ result_at rounds step b ls (get_or rs b (no_result E))
  unfolding search_rounds
  search_rounds-result_at zero step b ls state rs h d k = sym (result_at-zero step b ls _)
  search_rounds-result_at (suc rounds) step b ls state rs h d k =
      let (state', h', e) = step_lanes E R o step ls state h rs in
      let rs' = update_results E o step (map (lane_item E R o step) ls) rs in
      let k' : b < length rs' =
        omega (arith, k, length-update_results E o step (map (lane_item E R o step) ls) rs) in
      let g = get_or-update_results step b ls rs d k in
      ap
        (λ p.
          get_or
            (elim p.1 as (λ _. List (DecodingResult E)) [
              | true ↦ p.0.results
              | false ↦ search_rounds E o rounds (suc step) p.0
            ])
            b (no_result E))
        e
      ∙ (elim (Bool-cases (is_nil (positions 0 (map (goes_on E R o step) ls)))) [
        | inl n ↦ rw n (
            g
            ∙ ap
                (λ x.
                  result_at rounds (suc step) b x (step_at step b ls (get_or rs b (no_result E))))
                (sym (is_nil-keep step ls n))
            ∙ result_at-step rounds step b ls _ d)
        | inr n ↦ rw n (
            search_rounds-result_at rounds (suc step) b (next_lanes E R o step ls) state' rs' h'
              (next-Distinct step ls d) k'
            ∙ ap (result_at rounds (suc step) b (next_lanes E R o step ls)) g
            ∙ result_at-step rounds step b ls _ d)
      ])
