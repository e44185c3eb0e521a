-- ===== src/Decoding/Greedy.antt =====
-- GreedySearch::search for one hypothesis.
use ctranslate.Prelude.{
  ℕ, zero, suc, ◌+◌, leb, ◌==◌, Bool, true, false, not, ◌&&◌, ◌||◌, Option, none, some, List, [],
  ◌∷◌, ◌++◌, length, get_or, set, iota, map, is_nil, replicate, if◌then◌else◌,
}
use ctranslate.Batching.Rebatch.{index_vector}
use ctranslate.Decoding.Defs.{
  Engine, SearchOptions, DecodingResult, is_eos, prefix_of, get_max_step, is_last_step,
  apply_min_length, update_sample_with_prefix, finalize_result,
}

-- `v[0].push_back(x)`. On an empty `v` the source writes out of bounds; the model writes nothing.
abbrev pub push_first {ℓ} : {A : Type ℓ} → List (List A) → A → List (List A)
push_first [] x = []
push_first (xs ∷ v) x = (xs ++ x ∷ []) ∷ v

-- The positions at which a flag is set: `non_finished_index`.
abbrev pub positions : ℕ → List Bool → List ℕ
positions i [] = []
positions i (true ∷ flags) = i ∷ positions (suc i) flags
positions i (false ∷ flags) = positions (suc i) flags

module _ (E : Engine) where
  open E use {
    Score, Attention, State, forward, update_state, to_original_word_id, process, log_softmax,
    sample, callback, zero_score, add_score,
  }

  -- What the loop over the batch reads for one row: its batch id, the sampled token with its score,
  -- and the attention of the step, if it was asked for.
  pub record Item : Type 0 where
    pub batch_id : ℕ
    pub word_id : ℕ
    pub score : Score
    pub weights : Option Attention

  unfoldable pub gather_attention : SearchOptions → Bool
  gather_attention o = o.return_attention || (o.return_scores && o.has_coverage)

  abbrev pub head_weights : List Attention → Option Attention
  head_weights [] = none
  head_weights (a ∷ ats) = some a

  abbrev pub tail_weights : List Attention → List Attention
  tail_weights [] = []
  tail_weights (a ∷ ats) = ats

  unfoldable pub items : List ℕ → List (ℕ × Score) → List Attention → List Item
  items (b ∷ offset) ((w, s) ∷ best) ats =
      record { batch_id = b; word_id = w; score = s; weights = head_weights ats }
      ∷ items offset best (tail_weights ats)
  items [] best ats = []
  items (b ∷ offset) [] ats = []

  -- Whether the token goes into the hypothesis.
  unfoldable pub is_kept : SearchOptions → ℕ → Item → Bool
  unfolding is_eos prefix_of
  is_kept o step t =
      (not (is_eos t.word_id o.end_ids) || o.include_eos_in_hypotheses)
      && (o.return_prefix || leb (length (prefix_of o t.batch_id)) step)

  -- The tokens, scores and attention that are added to a result.
  -- Attention is gathered without a vector for it only for a coverage penalty without
  -- return_attention, where the write is undefined in the source, and none is made here.
  unfoldable pub push : SearchOptions → ℕ → Item → DecodingResult E → DecodingResult E
  unfolding is_kept
  push o step t r =
      let kept = is_kept o step t in
      record {
        hypotheses = if kept then push_first r.hypotheses t.word_id else r.hypotheses;
        scores =
            if o.return_scores
            then set r.scores 0 (add_score (get_or r.scores 0 zero_score) t.score)
            else r.scores;
        attention =
            if kept
            then (elim t.weights as (λ _. List (List Attention)) [
              | none ↦ r.attention
              | some a ↦ push_first r.attention a
            ])
            else r.attention;
      }

  unfoldable pub is_finished : SearchOptions → ℕ → Item → Bool
  unfolding is_eos prefix_of is_last_step
  is_finished o step t =
      let plen = length (prefix_of o t.batch_id) in
      let over =
        (is_eos t.word_id o.end_ids && leb plen step)
        || is_last_step step o.max_length plen o.return_prefix in
      over
      || ((o.return_prefix || leb plen step)
          && callback step t.batch_id 0 t.word_id (if o.return_scores then some t.score else none)
              over)

  -- What the loop does to the result of a row.
  unfoldable pub advance : SearchOptions → ℕ → Item → DecodingResult E → DecodingResult E
  unfolding push is_finished finalize_result
  advance o step t r =
      if is_finished o step t
      then finalize_result E 1 o.return_scores o.return_attention (push o step t r)
      else push o step t r

  abbrev pub no_result : DecodingResult E
  no_result = record { hypotheses = []; scores = []; attention = [] }

  unfoldable pub update_results :
      SearchOptions → ℕ → List Item → List (DecodingResult E) → List (DecodingResult E)
  unfolding advance
  update_results o step [] results = results
  update_results o step (t ∷ ts) results =
      update_results o step ts
        (set results t.batch_id (advance o step t (get_or results t.batch_id no_result)))

  -- `sample_from`, in which a row that goes on has its token.
  unfoldable pub next_inputs : SearchOptions → ℕ → List Item → List ℕ → List ℕ
  unfolding is_finished
  next_inputs o step (t ∷ ts) (id ∷ ids) =
      (if is_finished o step t then id else t.word_id) ∷ next_inputs o step ts ids
  next_inputs o step [] ids = ids
  next_inputs o step (t ∷ ts) [] = []

  -- `alive_seq` with the sampled tokens; an empty one is read as no tokens in each row.
  unfoldable pub append_tokens : List (List ℕ) → List (ℕ × Score) → List (List ℕ)
  append_tokens (seq ∷ seqs) ((w, s) ∷ best) = (seq ++ w ∷ []) ∷ append_tokens seqs best
  append_tokens [] best = []
  append_tokens (seq ∷ seqs) [] = []

  -- The variables of the loop over the steps.
  pub record Search : Type 0 where
    pub sample_from : List ℕ
    pub batch_offset : List ℕ
    pub alive_seq : List (List ℕ)
    pub state : State
    pub results : List (DecodingResult E)

  -- The body of a step up to the loop over the batch: the rows and the new state.
  unfoldable pub decode_step :
      SearchOptions → ℕ → Search → List (ℕ × Score) × List Attention × State
  unfolding apply_min_length update_sample_with_prefix gather_attention
  decode_step o step s =
      let (logits, weights, state) =
        forward (o.start_step + step) (map to_original_word_id s.sample_from) s.state in
      let allowed = apply_min_length E o step s.batch_offset logits in
      let processed =
        if o.has_processors then process step s.alive_seq s.batch_offset allowed else allowed in
      let probs = if o.return_scores then map log_softmax processed else processed in
      let (best, drawn) = sample probs state in
      (
        update_sample_with_prefix E o step s.batch_offset best,
        (if gather_attention o then weights else []),
        drawn,
      )

  -- The end of a step: the rows that are finished leave the search, if there are any.
  unfoldable pub keep_alive : List ℕ → ℕ → Search → Search
  unfolding index_vector
  keep_alive alive cur_batch_size s = if length alive == cur_batch_size then s else record {
    sample_from = index_vector 0 s.sample_from alive;
    batch_offset = index_vector 0 s.batch_offset alive;
    alive_seq = index_vector [] s.alive_seq alive;
    state = update_state s.state alive;
    results = s.results;
  }

  -- The rest of the body, and whether no row goes on.
  unfoldable pub close_step :
      SearchOptions → ℕ → Search → List (ℕ × Score) × List Attention × State → Search × Bool
  unfolding items update_results next_inputs append_tokens is_finished keep_alive
  close_step o step s (best, weights, state) =
      let rows = items s.batch_offset best weights in
      let alive = positions 0 (map (λ t. not (is_finished o step t)) rows) in
      (
        keep_alive alive (length rows) (record {
          sample_from = next_inputs o step rows s.sample_from;
          batch_offset = s.batch_offset;
          alive_seq = if o.has_processors then append_tokens s.alive_seq best else s.alive_seq;
          state = state;
          results = update_results o step rows s.results;
        }),
        is_nil alive,
      )

  unfoldable pub search_rounds : SearchOptions → ℕ → ℕ → Search → List (DecodingResult E)
  search_rounds o zero step s = s.results
  search_rounds o (suc rounds) step s =
      let (s', over) = close_step o step s (decode_step o step s) in
      elim over [ true ↦ s'.results | false ↦ search_rounds o rounds (suc step) s' ]

  -- `results` before the first step.
  abbrev pub new_result : SearchOptions → DecodingResult E
  new_result o = record {
    hypotheses = [] ∷ [];
    scores = if o.return_scores then zero_score ∷ [] else [];
    attention = if o.return_attention then [] ∷ [] else [];
  }

  unfoldable pub greedy_search : SearchOptions → List ℕ → State → List (DecodingResult E)
  unfolding search_rounds get_max_step
  greedy_search o start_ids state =
      search_rounds o (get_max_step o.max_length o.return_prefix o.prefix_ids) 0 (record {
        sample_from = start_ids;
        batch_offset = iota 0 (length start_ids);
        alive_seq = replicate (length start_ids) [];
        state = state;
        results = replicate (length start_ids) (new_result o);
      })
