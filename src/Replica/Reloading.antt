-- ===== src/Replica/Reloading.antt =====
-- Unloading the models of a pool, and loading them again.
use ctranslate.Prelude.{
  List, [], ◌∷◌, map, length, Option, none, some, replicate, ◌==◌, ==_iff, Bool-cases, ◌≢◌, ◌≡◌,
  refl, ok, err, invalid_argument, arith, inl, inr,
}
use ctranslate.Replica.Workers.{set_each, set_models, detach_models}

module _ {Model Replica : Type 0} (create_from_model : Model → Replica) (model : Replica → Model)
    (same_model : (m : Model) → model (create_from_model m) ≡ m) where
  detach-set_each :
      (models : List Model) (workers : List (Option Replica))
      → length models ≡ length workers
      → detach_models create_from_model model (set_each create_from_model model models workers)
        ≡ (map some models, replicate (length workers) none)
  unfolding detach_models set_each
  detach-set_each [] [] h = refl
  detach-set_each [] (w ∷ workers) h = absurd (omega arith)
  detach-set_each (m ∷ models) [] h = absurd (omega arith)
  detach-set_each (m ∷ models) (w ∷ workers) h =
      let ih = detach-set_each models workers (omega arith) in
      λ i. (some (same_model m i) ∷ (ih i).0, none ∷ (ih i).1)

  -- If each replica knows the model that it was made from: setting as many models as there are
  -- workers succeeds, and detaching the models gives them back in order and leaves every worker
  -- without a replica.
  pub detach_models-set_models :
      (models : List Model) (workers : List (Option Replica))
      → length models ≡ length workers
      → (loaded : List (Option Replica)) × (set_models create_from_model model models workers
          ≡ ok loaded)
        × (detach_models create_from_model model loaded
            ≡ (map some models, replicate (length workers) none))
  unfolding set_models
  detach_models-set_models models workers h = (
    set_each create_from_model model models workers,
    rw ((==_iff (length models) (length workers)).1 h, set_models) refl,
    detach-set_each models workers h,
  )

  -- Any other number of models is refused.
  pub set_models-refuses :
      (models : List Model) (workers : List (Option Replica))
      → length models ≢ length workers
      → set_models create_from_model model models workers ≡ err invalid_argument
  unfolding set_models
  set_models-refuses models workers h = elim (Bool-cases (length models == length workers)) [
    | inl e ↦ absurd (h ((==_iff (length models) (length workers)).0 e))
    | inr e ↦ rw (e, set_models) refl
  ]
