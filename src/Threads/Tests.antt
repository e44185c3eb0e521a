-- ===== src/Threads/Tests.antt =====
-- A pool of two workers whose queue has room for one job, followed step by step.
use mathlib.Core.List.{Perm}
use ctranslate.Prelude.{ℕ, ◌+◌, ◌*◌, ◌≤◌, [], ◌∷◌, refl, arith, ◌⊎◌}
use ctranslate.Threads.System.{
  Pool, new_pool, enqueue, block, wake_none, take_ready, finish, internal, post, Reach, start,
  later,
}
use ctranslate.Threads.Invariant.{Inv, Reach-Inv}
use ctranslate.Threads.Jobs.{Reach-jobs}
use ctranslate.Threads.Progress.{CanStep, IsQuiet, progress}
use ctranslate.Threads.Bound.{count, count-steps}
use ctranslate.Threads.Joining.{close-joins}
use ctranslate.Threads.Closing.{Runs, closed, halt, next, IsJoined}

-- Job 7 was posted and is in the queue.
abbrev queued : Pool
queued = record (new_pool 2 1) { active = 1; queue = 7 ∷ []; put_signals = 1; accepted = 7 ∷ [] }

queued_reached : Reach 2 1 queued
queued_reached = later (later start (post 7)) (internal (enqueue [] [] 7 refl (omega arith)))

-- Job 8 was posted too, and finds the queue full.
abbrev full : Pool
full = record queued { active = 2; blocked = 8 ∷ [] }

full_reached : Reach 2 1 full
full_reached = later (later queued_reached (post 8)) (internal (block [] [] 8 refl (omega arith)))

-- A worker took job 7.
abbrev taken : Pool
taken = record full { ready = 1; queue = []; get_signals = 1; running = 7 ∷ []; started = 7 ∷ [] }

taken_reached : Reach 2 1 taken
taken_reached = later full_reached (internal (take_ready 1 7 [] refl refl))

Reach-Inv_example : Inv 2 1 taken
Reach-Inv_example = Reach-Inv taken_reached

Reach-jobs_example : Perm {A = ℕ} (7 ∷ []) (7 ∷ [])
Reach-jobs_example = Reach-jobs taken_reached

abbrev ended : Pool
ended = record taken { running = []; finished = 7 ∷ []; active = 1; ready = 2 }

ended_reached : Reach 2 1 ended
ended_reached = later taken_reached (internal (finish [] [] 7 refl))

count-steps_example :
    (count ended_reached).steps
    ≤ 2
      + 10 * (count ended_reached).posts
      + (2 + 1) * (count ended_reached).closes
      + (count ended_reached).wakeups
count-steps_example = count-steps ended_reached

progress_example : CanStep full ⊎ IsQuiet full
progress_example = progress full_reached (omega arith) (omega arith) refl

close-joins_example :
    (u : Pool) × Runs (record (closed queued) { put_signals = 0 }) u × IsJoined 2 u
close-joins_example =
    close-joins queued_reached (omega arith) refl refl (next halt (wake_none 0 refl refl))
