-- ===== src/Batching/Defs.antt =====
-- Examples and the base class BatchReader, over any source of examples.
use ctranslate.Prelude.{
  ℕ, zero, suc, ◌+◌, ◌*◌, ◌%◌, ◌^◌, max, Bool, true, false, not, ◌&&◌, ◌||◌, String, str_eq, List,
  [], ◌∷◌, ◌++◌, length, get_elem?, none, some, ltb, ◌==◌, if◌then◌else◌, is_nil, invalid_argument,
  Result, ok, err, Run, done, fail, timeout,
}

-- `size_t` arithmetic, on 64 bits.
abbrev pub u64 : ℕ → ℕ
u64 n = n % 2 ^ 64

pub data BatchType : Type 0 where
  examples tokens : BatchType

unfoldable pub str_to_batch_type : String → Result BatchType
str_to_batch_type s =
    if str_eq s "examples"
    then ok examples
    else if str_eq s "tokens"
    then ok tokens
    else err invalid_argument

pub record Example : Type 0 where
  pub streams : List (List String)

abbrev pub no_example : Example
no_example = record { streams = [] }

abbrev pub is_empty : Example → Bool
is_empty e = is_nil e.streams

-- `example.length(index)`.
unfoldable pub example_length : Example → ℕ → ℕ
example_length e index = elim (get_elem? e.streams index) [ none ↦ 0 | some stream ↦ length stream ]

unfoldable pub get_batch_size_increment : Example → BatchType → ℕ
unfolding example_length
get_batch_size_increment e tokens = example_length e 0
get_batch_size_increment e examples = 1

-- A BatchReader: the state of the subclass, and the example that is read ahead.
pub record Reader (S : Type 0) : Type 0 where
  pub source : S
  pub initialized : Bool
  pub ahead : Example

abbrev pub new_reader : {S : Type 0} → S → Reader S
new_reader s = record { source = s; initialized = false; ahead = no_example }

-- `next` is the virtual method `get_next_example` of the subclass. An example with no stream is its
-- end of input.
module _ {S : Type 0} (next : S → Result (Example × S)) where
  abbrev pub stop : S → Example → List Example → Run (List Example × Reader S)
  stop s ahead batch = done (batch, record { source = s; initialized = true; ahead = ahead })

  unfoldable pub fill_batch_with_fixed_increment :
      ℕ → ℕ → BatchType → S → Example → List Example → ℕ → Run (List Example × Reader S)
  unfolding get_batch_size_increment
  fill_batch_with_fixed_increment zero max_size type s ahead batch max_increment = timeout
  fill_batch_with_fixed_increment (suc fuel) max_size type s ahead batch max_increment =
      let increment = max max_increment (get_batch_size_increment ahead type) in
      let new_size = u64 ((length batch + 1) * increment) in
      elim (is_empty ahead || (not (is_nil batch) && ltb max_size new_size)) [
        | true ↦ stop s ahead batch
        | false ↦ elim (next s) [
          | err e ↦ fail e
          | ok (e, s') ↦
              fill_batch_with_fixed_increment fuel max_size type s' e (batch ++ ahead ∷ [])
                increment
        ]
      ]

  unfoldable pub fill_batch_with_variable_increment :
      ℕ → ℕ → BatchType → S → Example → List Example → ℕ → Run (List Example × Reader S)
  unfolding get_batch_size_increment
  fill_batch_with_variable_increment zero max_size type s ahead batch total = timeout
  fill_batch_with_variable_increment (suc fuel) max_size type s ahead batch total =
      let new_size = u64 (total + get_batch_size_increment ahead type) in
      elim (is_empty ahead || (not (is_nil batch) && ltb max_size new_size)) [
        | true ↦ stop s ahead batch
        | false ↦ elim (next s) [
          | err e ↦ fail e
          | ok (e, s') ↦
              fill_batch_with_variable_increment fuel max_size type s' e (batch ++ ahead ∷ [])
                new_size
        ]
      ]

  -- The read of the first example.
  unfoldable pub prefetch : Reader S → Result (Reader S)
  prefetch r = if r.initialized then ok r else elim (next r.source) [
    | err e ↦ err e
    | ok (e, s) ↦ ok (record { source = s; initialized = true; ahead = e })
  ]

  unfoldable pub fill : ℕ → ℕ → BatchType → Bool → Reader S → Run (List Example × Reader S)
  unfolding fill_batch_with_fixed_increment fill_batch_with_variable_increment
  fill fuel max_size type consider_padding r =
      if is_empty r.ahead
      then done ([], r)
      else if consider_padding
      then fill_batch_with_fixed_increment fuel max_size type r.source r.ahead [] 0
      else fill_batch_with_variable_increment fuel max_size type r.source r.ahead [] 0

  unfoldable pub get_next : ℕ → ℕ → BatchType → Bool → Reader S → Run (List Example × Reader S)
  unfolding prefetch fill
  get_next fuel max_size type consider_padding r =
      if max_size == 0 then fail invalid_argument else elim (prefetch r) [
        | err e ↦ fail e
        | ok r' ↦ fill fuel max_size type consider_padding r'
      ]
