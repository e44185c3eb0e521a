-- ===== src/Replica/Workers.antt =====
-- The workers of a replica pool, and the models behind their replicas.
use ctranslate.Prelude.{
  ℕ, ◌*◌, ◌-◌, ◌^◌, List, [], ◌∷◌, length, Option, none, some, ◌==◌, if◌then◌else◌,
  invalid_argument, Result, ok, err,
}
use ctranslate.Padding.Padder.{ℤ, pos, negsuc}
use ctranslate.Batching.Defs.{u64}

-- `max_queue_size` of `initialize_pool`, from `config.max_queued_batches`.
unfoldable pub max_queue_size : ℤ → ℕ → ℕ
max_queue_size (pos max_queued_batches) num_workers =
    if max_queued_batches == 0 then u64 (4 * num_workers) else max_queued_batches
max_queue_size (negsuc n) num_workers = 2 ^ 64 - 1

-- `create_from_model` and `model` belong to the class of the replicas.
module _ {Model Replica : Type 0} (create_from_model : Model → Replica)
    (model : Replica → Model) where
  -- The replica of each worker.
  abbrev pub Workers : Type 0
  Workers = List (Option Replica)

  unfoldable pub set_each : List Model → Workers → Workers
  set_each [] ws = ws
  set_each (m ∷ ms) [] = []
  set_each (m ∷ ms) (w ∷ ws) = some (create_from_model m) ∷ set_each ms ws

  unfoldable pub set_models : List Model → Workers → Result Workers
  unfolding set_each
  set_models models workers =
      if length models == length workers then ok (set_each models workers) else err invalid_argument

  unfoldable pub detach_model : Option Replica → Option Model × Option Replica
  detach_model none = (none, none)
  detach_model (some replica) = (some (model replica), none)

  unfoldable pub detach_models : Workers → List (Option Model) × Workers
  unfolding detach_model
  detach_models [] = ([], [])
  detach_models (w ∷ ws) =
      let (m, w') = detach_model w in let (models, ws') = detach_models ws in (m ∷ models, w' ∷ ws')
