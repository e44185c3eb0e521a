-- ===== src/Types/NamesLaws.antt =====
-- The names of the compute types, and the data types that they stand for.
use ctranslate.Prelude.{
  String, str_eq, eq_iff, ◌||◌, ◌≡◌, refl, ◌⊎◌, inl, inr, ◌∙◌, ap, sym, Error, if◌then◌else◌,
  Result, ok, err, arith,
}
use ctranslate.Types.Defs.{
  DataType, ComputeType, str_to_compute_type, compute_type_to_str, compute_type_to_data_type,
  data_type_to_compute_type,
}

-- Printing a compute type and reading the name back gives that compute type, for every type.
pub str_to_compute_type-compute_type_to_str :
    (c : ComputeType) → str_to_compute_type (compute_type_to_str c) ≡ ok c
unfolding str_to_compute_type compute_type_to_str
str_to_compute_type-compute_type_to_str ComputeType.default = refl
str_to_compute_type-compute_type_to_str other = refl

-- A compute type that has data types is the one that its pair of data types gives back.
pub data_type_to_compute_type-compute_type_to_data_type :
    (c : ComputeType) {w f : DataType}
    → compute_type_to_data_type c ≡ ok (w, f)
    → data_type_to_compute_type w f ≡ c
unfolding compute_type_to_data_type data_type_to_compute_type
data_type_to_compute_type-compute_type_to_data_type ComputeType.default h = ground arith
data_type_to_compute_type-compute_type_to_data_type other h = ground arith

-- One test of the chain: it passes, or the rest of the chain gives the answer.
peel :
    {c c' : ComputeType} (s name : String) (rest : Result ComputeType)
    → (if str_eq s name then ok c' else rest) ≡ ok c
    → ((s ≡ name) × (c' ≡ c)) ⊎ (rest ≡ ok c)
peel s name rest h = ground (arith, eq_iff s name)

named :
    (s : String) (c : ComputeType) {c' : ComputeType} {name : String}
    → s ≡ name
    → c' ≡ c
    → compute_type_to_str c' ≡ name
    → (s ≡ compute_type_to_str c) ⊎ ((s ≡ "float") × (c ≡ ComputeType.float32))
named s c e q n = inl (e ∙ sym n ∙ ap compute_type_to_str q)

peel_float :
    {c : ComputeType} (s : String) (rest : Result ComputeType)
    → (if str_eq s "float32" || str_eq s "float" then ok ComputeType.float32 else rest) ≡ ok c
    → ((s ≡ compute_type_to_str c) ⊎ ((s ≡ "float") × (c ≡ ComputeType.float32))) ⊎ (rest ≡ ok c)
unfolding compute_type_to_str
peel_float s rest h = ground (arith, eq_iff s "float32", eq_iff s "float")

err-ne-ok : {c : ComputeType} {e : Error} → Path (Result ComputeType) (err e) (ok c) → ⊥
err-ne-ok h = cc

-- A text that is read as a compute type is that type's name, but for "float", which is read as
-- FLOAT32 and never printed.
pub str_to_compute_type-eq-ok :
    (s : String) (c : ComputeType)
    → str_to_compute_type s ≡ ok c
    → (s ≡ compute_type_to_str c) ⊎ ((s ≡ "float") × (c ≡ ComputeType.float32))
unfolding str_to_compute_type compute_type_to_str
str_to_compute_type-eq-ok s c h = elim (peel s "int8" _ h) [
  | inl (e, q) ↦ named s c e q refl
  | inr h ↦ elim (peel s "int8_float32" _ h) [
    | inl (e, q) ↦ named s c e q refl
    | inr h ↦ elim (peel s "int8_float16" _ h) [
      | inl (e, q) ↦ named s c e q refl
      | inr h ↦ elim (peel s "int8_bfloat16" _ h) [
        | inl (e, q) ↦ named s c e q refl
        | inr h ↦ elim (peel s "int16" _ h) [
          | inl (e, q) ↦ named s c e q refl
          | inr h ↦ elim (peel_float s _ h) [
            | inl found ↦ found
            | inr h ↦ elim (peel s "float16" _ h) [
              | inl (e, q) ↦ named s c e q refl
              | inr h ↦ elim (peel s "bfloat16" _ h) [
                | inl (e, q) ↦ named s c e q refl
                | inr h ↦ elim (peel s "default" _ h) [
                  | inl (e, q) ↦ named s c e q refl
                  | inr h ↦ elim (peel s "auto" _ h) [
                    | inl (e, q) ↦ named s c e q refl
                    | inr h ↦ absurd (err-ne-ok h)
                  ]
                ]
              ]
            ]
          ]
        ]
      ]
    ]
  ]
]
