-- ===== src/Decoding/DecodeRows.antt =====
-- What a greedy step decodes for a batch, as maps over the lanes.
use ctranslate.Prelude.{ℕ, ◌+◌, Bool, true, false, List, map, if◌then◌else◌, ◌≡◌, refl, ap, ◌∙◌}
use ctranslate.Decoding.Defs.{
  Engine, SearchOptions, DecodingResult, apply_min_length, update_sample_with_prefix,
}
use ctranslate.Decoding.Greedy.{Search, decode_step}
use ctranslate.Decoding.Lanes.{
  RowWise, Lane, lane_forward, lane_allowed, lane_processed, lane_probs, lane_sample,
}
use ctranslate.Decoding.RowSteps.{map-map, apply_min_length-map, update_sample-map}

pub if-map :
    {X A : Type 0} (b : Bool) (f g : X → A) (xs : List X)
    → (if b then map f xs else map g xs) ≡ map (λ x. if b then f x else g x) xs
if-map true f g xs = refl
if-map false f g xs = refl

pub if-eq :
    {A : Type 0} (b : Bool) {x x' y y' : A}
    → x ≡ x'
    → y ≡ y'
    → (if b then x else y) ≡ (if b then x' else y')
if-eq true p q = p
if-eq false p q = q

module _ (E : Engine) (R : RowWise E) (o : SearchOptions) where
  open E use {Score, Attention, State, forward, to_original_word_id, process, log_softmax, sample}
  open R use {rows, forward_rows, process_rows, sample_rows, update_rows}

  -- The loop's variables, filled from lanes.
  abbrev pub at_lanes : List (Lane E R o) → State → List (DecodingResult E) → Search E
  at_lanes lanes state results = record {
    sample_from = map (λ l. l.input) lanes;
    batch_offset = map (λ l. l.batch_id) lanes;
    alive_seq = map (λ l. l.sequence) lanes;
    state = state;
    results = results;
  }

  pub search_ext :
      {ids ids' offset offset' : List ℕ} {seqs seqs' : List (List ℕ)} (state : State)
      (results : List (DecodingResult E))
      → ids ≡ ids'
      → offset ≡ offset'
      → seqs ≡ seqs'
      → ◌≡◌ {A = Search E}
          (record {
            sample_from = ids;
            batch_offset = offset;
            alive_seq = seqs;
            state = state;
            results = results;
          })
          (record {
            sample_from = ids';
            batch_offset = offset';
            alive_seq = seqs';
            state = state;
            results = results;
          })
  search_ext state results p q r = λ i. record {
    sample_from = p i;
    batch_offset = q i;
    alive_seq = r i;
    state = state;
    results = results;
  }

  module _ (step : ℕ) (lanes : List (Lane E R o)) (state : State)
      (h : rows state ≡ map (λ l. l.row) lanes) where
    abbrev ids : List ℕ
    ids = map to_original_word_id (map (λ (l : Lane E R o). l.input) lanes)

    pub forward_ids :
        ((forward (o.start_step + step) ids state).0
          ≡ map (λ l. (lane_forward E R o step l).0) lanes)
        × ((forward (o.start_step + step) ids state).1
            ≡ map (λ l. (lane_forward E R o step l).1) lanes)
        × (rows (forward (o.start_step + step) ids state).2
            ≡ map (λ l. (lane_forward E R o step l).2) lanes)
    forward_ids = rw (map-map to_original_word_id (λ (l : Lane E R o). l.input) lanes) (
        forward_rows (Lane E R o) (o.start_step + step) lanes (λ l. to_original_word_id l.input)
          (λ l. l.row) state h)

    abbrev offset : List ℕ
    offset = map (λ (l : Lane E R o). l.batch_id) lanes

    allowed_rows :
        apply_min_length E o step offset (forward (o.start_step + step) ids state).0
        ≡ map (lane_allowed E R o step) lanes
    allowed_rows =
        ap (apply_min_length E o step offset) forward_ids.0
        ∙ apply_min_length-map E o step (λ (l : Lane E R o). l.batch_id)
            (λ l. (lane_forward E R o step l).0) lanes

    processed_rows :
        (let x = apply_min_length E o step offset (forward (o.start_step + step) ids state).0 in
          if o.has_processors
          then process step (map (λ (l : Lane E R o). l.sequence) lanes) offset x
          else x)
        ≡ map (lane_processed E R o step) lanes
    processed_rows =
        ap
          (λ x.
            if o.has_processors
            then process step (map (λ (l : Lane E R o). l.sequence) lanes) offset x
            else x)
          allowed_rows
        ∙ if-eq o.has_processors
            (process_rows (Lane E R o) step lanes (λ l. l.sequence) (λ l. l.batch_id)
              (lane_allowed E R o step))
            refl
        ∙ if-map o.has_processors _ _ lanes

    abbrev processed : List (List Score)
    processed =
        let x = apply_min_length E o step offset (forward (o.start_step + step) ids state).0 in
        if o.has_processors
        then process step (map (λ (l : Lane E R o). l.sequence) lanes) offset x
        else x

    probs_rows :
        (if o.return_scores then map log_softmax processed else processed)
        ≡ map (lane_probs E R o step) lanes
    probs_rows =
        ap (λ x. if o.return_scores then map log_softmax x else x) processed_rows
        ∙ if-eq o.return_scores (map-map log_softmax (lane_processed E R o step) lanes) refl
        ∙ if-map o.return_scores _ _ lanes

    abbrev forwarded : State
    forwarded = (forward (o.start_step + step) ids state).2

    pub best_rows :
        (results : List (DecodingResult E))
        → (decode_step E o step (at_lanes lanes state results)).0
          ≡ map (lane_sample E R o step) lanes
    unfolding decode_step
    best_rows results =
        ap (λ x. update_sample_with_prefix E o step offset (sample x forwarded).0) probs_rows
        ∙ ap (update_sample_with_prefix E o step offset)
            (sample_rows (Lane E R o) lanes (lane_probs E R o step) forwarded).0
        ∙ update_sample-map E o step (λ (l : Lane E R o). l.batch_id)
            (λ l. R.pick (lane_probs E R o step l)) lanes

    -- The rows of the state behind the sampler are those behind the decoder.
    pub state_rows :
        (results : List (DecodingResult E))
        → rows (decode_step E o step (at_lanes lanes state results)).2
          ≡ map (λ l. (lane_forward E R o step l).2) lanes
    unfolding decode_step
    state_rows results =
        ap (λ x. rows (sample x forwarded).1) probs_rows
        ∙ (sample_rows (Lane E R o) lanes (lane_probs E R o step) forwarded).1
        ∙ forward_ids.2
