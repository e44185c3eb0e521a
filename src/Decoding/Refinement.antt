-- ===== src/Decoding/Refinement.antt =====
-- A greedy step on a batch does to each lane what it does to that lane alone.
use ctranslate.Prelude.{
  ℕ, ◌+◌, ◌==◌, ==_iff, true, Bool-cases, not, List, [], ◌∷◌, ◌++◌, length, map, is_nil,
  if◌then◌else◌, ◌≡◌, refl, sym, ap, ◌∙◌, inl, inr,
}
use ctranslate.Decoding.Defs.{Engine, SearchOptions, DecodingResult}
use ctranslate.Decoding.Greedy.{
  Item, is_finished, gather_attention, positions, items, update_results, next_inputs, append_tokens,
  Search, decode_step, close_step, keep_alive,
}
use ctranslate.Decoding.Lanes.{
  keep, RowWise, Lane, lane_forward, lane_sample, lane_item, lane_next, goes_on, next_lanes,
}
use ctranslate.Decoding.RowSteps.{
  index_vector-positions, length-positions, keep_all, map-keep, length-map, map-map, items-map,
  next_inputs-map, append_tokens-map,
}
use ctranslate.Decoding.DecodeRows.{
  if-map, if-eq, at_lanes, search_ext, forward_ids, best_rows, state_rows,
}

module _ (E : Engine) (R : RowWise E) (o : SearchOptions) where
  open E use {Score, Attention, State, forward, to_original_word_id}
  open R use {rows, update_rows}

  module _ (step : ℕ) (lanes : List (Lane E R o)) (state : State)
      (h : rows state ≡ map (λ l. l.row) lanes) where
    abbrev ids : List ℕ
    ids = map to_original_word_id (map (λ (l : Lane E R o). l.input) lanes)

    abbrev offset : List ℕ
    offset = map (λ (l : Lane E R o). l.batch_id) lanes

    abbrev going : List (Lane E R o)
    going = keep (goes_on E R o step) lanes

    abbrev best : List (ℕ × Score)
    best = map (lane_sample E R o step) lanes

    abbrev ats : List Attention
    ats = if gather_attention E o then map (λ l. (lane_forward E R o step l).1) lanes else []

    item_rows : items E offset best ats ≡ map (lane_item E R o step) lanes
    item_rows =
        items-map E o (gather_attention E o) (λ (l : Lane E R o). l.batch_id)
          (lane_sample E R o step) (λ l. (lane_forward E R o step l).1) lanes

    alive_rows :
        positions 0 (map (λ t. not (is_finished E o step t)) (map (lane_item E R o step) lanes))
        ≡ positions 0 (map (goes_on E R o step) lanes)
    alive_rows =
        ap (positions 0) (map-map (λ t. not (is_finished E o step t)) (lane_item E R o step) lanes)

    abbrev input_of : Lane E R o → ℕ
    input_of l =
        if is_finished E o step (lane_item E R o step l)
        then l.input
        else (lane_sample E R o step l).0

    abbrev sequence_of : Lane E R o → List ℕ
    sequence_of l =
        if o.has_processors then l.sequence ++ (lane_sample E R o step l).0 ∷ [] else l.sequence

    input_rows :
        next_inputs E o step (map (lane_item E R o step) lanes) (map (λ l. l.input) lanes)
        ≡ map input_of lanes
    input_rows = next_inputs-map E o step (lane_item E R o step) (λ l. l.input) lanes

    sequence_rows :
        (if o.has_processors
          then append_tokens E (map (λ l. l.sequence) lanes) best
          else map (λ l. l.sequence) lanes)
        ≡ map sequence_of lanes
    sequence_rows =
        if-eq o.has_processors
          (append_tokens-map E o (λ (l : Lane E R o). l.sequence) (lane_sample E R o step) lanes)
          refl
        ∙ if-map o.has_processors _ _ lanes

    input_of-goes_on :
        (l : Lane E R o) → goes_on E R o step l ≡ true → input_of l ≡ (lane_sample E R o step l).0
    input_of-goes_on l g = elim (Bool-cases (is_finished E o step (lane_item E R o step l))) [
      | inl f ↦ cc (g, f)
      | inr f ↦ rw f
    ]

    kept_inputs : map input_of going ≡ map (λ l. l.input) (next_lanes E R o step lanes)
    kept_inputs =
        map-keep input_of (λ l. (lane_sample E R o step l).0) (goes_on E R o step) lanes
          input_of-goes_on
        ∙ sym (map-map (λ (l : Lane E R o). l.input) (lane_next E R o step) going)

    -- The variables at the end of the loop over the batch.
    abbrev closing : State → List (DecodingResult E) → Search E
    closing state' results = record {
      sample_from = map input_of lanes;
      batch_offset = offset;
      alive_seq = map sequence_of lanes;
      state = state';
      results = results;
    }

    abbrev alive : List ℕ
    alive = positions 0 (map (goes_on E R o step) lanes)

    keep_some :
        (state' : State) (results : List (DecodingResult E))
        → rows state' ≡ map (λ l. (lane_forward E R o step l).2) lanes
        → (state'' : State) × (rows state'' ≡ map (λ l. l.row) (next_lanes E R o step lanes))
          × (keep_alive E alive (length lanes) (closing state' results)
              ≡ at_lanes E R o (next_lanes E R o step lanes) state'' results)
    unfolding keep_alive
    keep_some state' results k = elim (Bool-cases (length alive == length lanes)) [
      | inl e ↦
          let all : going ≡ lanes = keep_all (goes_on E R o step) lanes (
            sym (length-positions (goes_on E R o step) lanes)
            ∙ (==_iff (length alive) (length lanes)).0 e) in
          (
            state',
            k
                ∙ ap (map (λ l. (lane_forward E R o step l).2)) (sym all)
                ∙ sym (map-map (λ (l : Lane E R o). l.row) (lane_next E R o step) going),
            rw e (
                search_ext E R o state' results (ap (map input_of) (sym all) ∙ kept_inputs)
                  (ap (map (λ (l : Lane E R o). l.batch_id)) (sym all)
                    ∙ sym (map-map (λ (l : Lane E R o). l.batch_id) (lane_next E R o step) going))
                  (ap (map sequence_of) (sym all)
                    ∙ sym (map-map (λ (l : Lane E R o). l.sequence) (lane_next E R o step) going))),
          )
      | inr e ↦ (
        E.update_state state' alive,
        update_rows (Lane E R o) lanes (λ l. (lane_forward E R o step l).2) (goes_on E R o step)
              state' k
            ∙ sym (map-map (λ (l : Lane E R o). l.row) (lane_next E R o step) going),
        rw e (
            search_ext E R o (E.update_state state' alive) results
              (index_vector-positions 0 input_of (goes_on E R o step) lanes ∙ kept_inputs)
              (index_vector-positions 0 (λ (l : Lane E R o). l.batch_id) (goes_on E R o step) lanes
                ∙ sym (map-map (λ (l : Lane E R o). l.batch_id) (lane_next E R o step) going))
              (index_vector-positions [] sequence_of (goes_on E R o step) lanes
                ∙ sym (map-map (λ (l : Lane E R o). l.sequence) (lane_next E R o step) going))),
      )
    ]

    abbrev state_after : State
    state_after = (decode_step E o step (at_lanes E R o lanes state [])).2

    decoded :
        (results : List (DecodingResult E))
        → decode_step E o step (at_lanes E R o lanes state results) ≡ (best, ats, state_after)
    unfolding decode_step
    decoded results =
        let w : (if gather_attention E o then (forward (o.start_step + step) ids state).1 else [])
            ≡ ats =
          if-eq (gather_attention E o) (forward_ids E R o step lanes state h).1 refl in
        λ i. (best_rows E R o step lanes state h results i, w i, state_after)

    abbrev lane_items : List (Item E)
    lane_items = map (lane_item E R o step) lanes

    closed :
        (results : List (DecodingResult E))
        → close_step E o step (at_lanes E R o lanes state results) (best, ats, state_after) ≡ (
          keep_alive E alive
              (length lanes)
              (closing state_after (update_results E o step lane_items results)),
          is_nil alive,
        )
    unfolding close_step
    closed results =
        let n : length lane_items ≡ length lanes = length-map (lane_item E R o step) lanes in
        let seqs = sequence_rows in
        ap
          (λ rows.
            let alive' = positions 0 (map (λ t. not (is_finished E o step t)) rows) in
            (
              keep_alive E alive' (length rows) (record {
                sample_from = next_inputs E o step rows (map (λ (l : Lane E R o). l.input) lanes);
                batch_offset = offset;
                alive_seq =
                    if o.has_processors
                    then append_tokens E (map (λ (l : Lane E R o). l.sequence) lanes) best
                    else map (λ (l : Lane E R o). l.sequence) lanes;
                state = state_after;
                results = update_results E o step rows results;
              }),
              is_nil alive',
            ))
          item_rows
        ∙ (λ i. (
          keep_alive E (alive_rows i) (n i) (record {
            sample_from = input_rows i;
            batch_offset = offset;
            alive_seq = seqs i;
            state = state_after;
            results = update_results E o step lane_items results;
          }),
          is_nil (alive_rows i),
        ))

    -- A step on a batch is a step on each lane.
    pub step_lanes :
        (results : List (DecodingResult E))
        → (state'' : State) × (rows state'' ≡ map (λ l. l.row) (next_lanes E R o step lanes))
          × (close_step E o step
                (at_lanes E R o lanes state results)
                (decode_step E o step (at_lanes E R o lanes state results))
              ≡ (
                at_lanes E R o
                    (next_lanes E R o step lanes)
                    state''
                    (update_results E o step lane_items results),
                is_nil alive,
              ))
    step_lanes results =
        let results' = update_results E o step lane_items results in
        let (state'', k, e) =
          keep_some state_after results' (state_rows E R o step lanes state h []) in
        (
          state'',
          k,
          ap (close_step E o step (at_lanes E R o lanes state results)) (decoded results)
              ∙ closed results
              ∙ ap (λ s. (s, is_nil alive)) e,
        )
