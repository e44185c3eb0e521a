-- ===== src/Output/RoundTrip.antt =====
-- An id of the output leads back to the id of the vocabulary.
use mathlib.Core.Option.{some-injective}
use ctranslate.Prelude.{
  ℕ, suc, ◌+◌, ◌==◌, ==_iff, Bool, true, false, Bool-cases, Option, none, some, List, [], ◌∷◌, ◌++◌,
  length, get_elem?, iota, replicate, is_nil, if◌then◌else◌, ok, ◌>>=◌, ◌≡◌, refl, sym, ap, subst,
  ◌∙◌, arith, inl, inr, append_assoc, length-append, Option-cases,
}
use ctranslate.Output.Defs.{
  OutputLayer, find_id, emplace_id, emplace_ids, select_ids, update_output_layer, is_in_output,
  to_output_word_id, to_original_word_id, padding_size,
}

-- Each entry leads to a position of its id.
abbrev pub Leads : List ℕ → List (ℕ × ℕ) → Type 0
Leads full m = (k i : ℕ) → find_id k m ≡ some i → get_elem? full i ≡ some k

get_elem?-middle :
    (before rest : List ℕ) (k : ℕ) → get_elem? (before ++ k ∷ rest) (length before) ≡ some k
get_elem?-middle [] rest k = refl
get_elem?-middle (x ∷ before) rest k = get_elem?-middle before rest k

emplace_id-Leads :
    (full : List ℕ) (k i : ℕ) (m : List (ℕ × ℕ))
    → get_elem? full i ≡ some k
    → Leads full m
    → Leads full (emplace_id k i m)
unfolding emplace_id find_id
emplace_id-Leads full k i m h l =
    let entry : Option ℕ → List (ℕ × ℕ) =
      λ o. elim o as (λ _. List (ℕ × ℕ)) [ some j ↦ m | none ↦ (k, i) ∷ m ] in
    elim (Option-cases (find_id k m)) [
      | inl e ↦ subst (Leads full) (sym (ap entry e)) (λ k' i' f. elim (Bool-cases (k' == k)) [
        | inl c ↦
            let here : some i ≡ (if k' == k then some i else find_id k' m) = rw c refl in
            ap (get_elem? full) (sym (some-injective i i' (here ∙ f)))
            ∙ h
            ∙ ap some (sym ((==_iff k' k).0 c))
        | inr c ↦
            let there : find_id k' m ≡ (if k' == k then some i else find_id k' m) = rw c refl in
            l k' i' (there ∙ f)
      ])
      | inr (j, e) ↦ subst (Leads full) (sym (ap entry e)) l
    ]

emplace_ids-Leads :
    (before rest : List ℕ) (i : ℕ) (m : List (ℕ × ℕ))
    → i ≡ length before
    → Leads (before ++ rest) m
    → Leads (before ++ rest) (emplace_ids i rest m)
unfolding emplace_ids
emplace_ids-Leads before [] i m e l = l
emplace_ids-Leads before (k ∷ rest) i m e l =
    let same : (before ++ k ∷ []) ++ rest ≡ before ++ k ∷ rest =
      append_assoc before (k ∷ []) rest in
    let at : get_elem? (before ++ k ∷ rest) i ≡ some k =
      ap (get_elem? (before ++ k ∷ rest)) e ∙ get_elem?-middle before rest k in
    subst (λ full. Leads full (emplace_ids (suc i) rest (emplace_id k i m))) same
      (emplace_ids-Leads (before ++ k ∷ []) rest (suc i) (emplace_id k i m)
        (omega (arith, e, length-append before (k ∷ [])))
        (subst (λ full. Leads full (emplace_id k i m)) (sym same)
          (emplace_id-Leads (before ++ k ∷ rest) k i m at l)))

-- The maps of a layer agree.
pub record Agrees (s : OutputLayer) : Type 0 where
  pub leads : Leads s.to_original s.to_output

unfilled-Leads : (full : List ℕ) (m : List (ℕ × ℕ)) → m ≡ [] → Leads full m
unfolding find_id
unfilled-Leads full m h k i f =
    let none_there : find_id k m ≡ none = ap (find_id k) h in cc (none_there, f)

select_ids-Agrees :
    (ids : List ℕ) (padding : ℕ) (s : OutputLayer)
    → s.to_output ≡ []
    → Agrees (select_ids ids padding s)
unfolding select_ids
select_ids-Agrees ids padding s h = record {
  leads =
      emplace_ids-Leads [] (ids ++ replicate padding 0) 0 s.to_output refl
        (unfilled-Leads (ids ++ replicate padding 0) s.to_output h);
}

if-Agrees : (c : Bool) (x y : OutputLayer) → Agrees x → Agrees y → Agrees (if c then x else y)
if-Agrees true x y p q = p
if-Agrees false x y p q = q

update_output_layer-Agrees :
    (size_multiple : ℕ) (restrict_ids : List ℕ) (s : OutputLayer)
    → s.to_output ≡ []
    → Agrees (update_output_layer size_multiple restrict_ids s)
unfolding update_output_layer
update_output_layer-Agrees size_multiple restrict_ids s h =
    let size = if s.vocabulary_size == 0 then s.output_size else s.vocabulary_size in
    let s' : OutputLayer = record s { vocabulary_size = size } in
    let wanted = if is_nil restrict_ids then size else length restrict_ids in
    let padding = padding_size wanted size_multiple in
    let whole : OutputLayer = record s' {
      output_size = s.layer_size;
      masked = 0;
      to_original = [];
      to_output = [];
    } in
    let all = select_ids (iota 0 size) padding s' in
    let reset = if padding == 0 then whole else all in
    if-Agrees (is_nil restrict_ids) (if wanted + padding == s.output_size then s' else reset)
      (select_ids restrict_ids padding s')
      (if-Agrees (wanted + padding == s.output_size) s' reset
        (record { leads = unfilled-Leads s.to_original s.to_output h })
        (if-Agrees (padding == 0) whole all (record { leads = unfilled-Leads [] [] refl })
          (select_ids-Agrees (iota 0 size) padding s' h)))
      (select_ids-Agrees restrict_ids padding s' h)

find_id-nonempty : (k i : ℕ) (m : List (ℕ × ℕ)) → find_id k m ≡ some i → is_nil m ≡ false
unfolding find_id
find_id-nonempty k i [] h = cc h
find_id-nonempty k i (x ∷ m) h = refl

get_elem?-nonempty : (i k : ℕ) (ids : List ℕ) → get_elem? ids i ≡ some k → is_nil ids ≡ false
get_elem?-nonempty i k [] h = cc h
get_elem?-nonempty i k (x ∷ ids) h = refl

Agrees-trip :
    (s : OutputLayer) (word_id : ℕ)
    → Agrees s
    → is_in_output s word_id ≡ true
    → (to_output_word_id s word_id >>= to_original_word_id s) ≡ ok word_id
unfolding is_in_output to_output_word_id to_original_word_id
Agrees-trip s word_id a h = elim (Option-cases (find_id word_id s.to_output)) [
  | inl e ↦ cc (sym h ∙ ap (λ x. elim x as (λ _. Bool) [ some i ↦ true | none ↦ false ]) e)
  | inr (i, e) ↦
      let g = a.leads word_id i e in
      rw
        (
          find_id-nonempty word_id i s.to_output e,
          e,
          get_elem?-nonempty i word_id s.to_original g,
          g,
        )
        refl
]

-- After update_output_layer on a decoder whose map of output ids is empty, with or without restricted
-- ids and padding, an id that is in the output leads to an output id that leads back to it, without an
-- exception.
pub to_original_word_id-to_output_word_id :
    (size_multiple : ℕ) (restrict_ids : List ℕ) (s : OutputLayer) (word_id : ℕ)
    → s.to_output ≡ []
    → is_in_output (update_output_layer size_multiple restrict_ids s) word_id ≡ true
    → (to_output_word_id (update_output_layer size_multiple restrict_ids s) word_id
        >>= to_original_word_id (update_output_layer size_multiple restrict_ids s))
      ≡ ok word_id
to_original_word_id-to_output_word_id size_multiple restrict_ids s word_id h k =
    Agrees-trip (update_output_layer size_multiple restrict_ids s) word_id
      (update_output_layer-Agrees size_multiple restrict_ids s h) k
