-- ===== src/Threads/System.antt =====
-- The pool as a system of interleaved steps. One step is what a thread does under the queue's mutex,
-- or one notification; `wait` is left by a thread that was notified, or that wakes up without a
-- notification. Threads at the same place
-- are alike, so the state counts them, and names only the jobs that they hold.
use ctranslate.Prelude.{
  ℕ, suc, ◌+◌, ◌-◌, ◌≤◌, ◌<◌, Bool, true, false, List, [], ◌∷◌, ◌++◌, length, ◌≡◌,
}

pub record Pool : Type 0 where
  -- JobQueue
  pub maximum_size : ℕ
  pub queue : List ℕ
  pub request_end : Bool
  -- `_num_active_jobs`
  pub active : ℕ
  -- Threads in `put`: not yet at the test, asleep in `_can_put_job`, and notified.
  pub arriving : List ℕ
  pub blocked : List ℕ
  pub roused : List ℕ
  -- Calls of `put` that have unlocked and are about to notify `_can_get_job`.
  pub put_signals : ℕ
  -- Calls of `get` that are about to notify `_can_put_job`.
  pub get_signals : ℕ
  -- Calls of `close` that are about to notify all of `_can_get_job`.
  pub closers : ℕ
  -- Workers: before the test of `get`, asleep in `_can_get_job`, notified, in `job->run()`, and
  -- out of the loop of `Worker::run`.
  pub ready : ℕ
  pub asleep : ℕ
  pub woken : ℕ
  pub running : List ℕ
  pub stopped : ℕ
  -- History: the jobs in the order in which they entered the queue, left it, and ended.
  pub accepted : List ℕ
  pub started : List ℕ
  pub finished : List ℕ

-- `ThreadPool(num_threads, maximum_queue_size)`: every worker starts its loop.
abbrev pub new_pool : ℕ → ℕ → Pool
new_pool num_threads maximum_queue_size = record {
  maximum_size = maximum_queue_size;
  queue = [];
  request_end = false;
  active = 0;
  arriving = [];
  blocked = [];
  roused = [];
  put_signals = 0;
  get_signals = 0;
  closers = 0;
  ready = num_threads;
  asleep = 0;
  woken = 0;
  running = [];
  stopped = 0;
  accepted = [];
  started = [];
  finished = [];
}

-- What a worker and the threads in `put` do, once a job was posted or the queue was closed.
pub data Internal (s : Pool) : Pool → Type 0 where
  -- `put`, with room in the queue.
  enqueue :
      (before behind : List ℕ) (j : ℕ)
      → s.arriving ≡ before ++ j ∷ behind
      → length s.queue < s.maximum_size
      → Internal s (record s {
        arriving = before ++ behind;
        queue = s.queue ++ j ∷ [];
        put_signals = suc s.put_signals;
        accepted = s.accepted ++ j ∷ [];
      })
  -- `put`, with none.
  block :
      (before behind : List ℕ) (j : ℕ)
      → s.arriving ≡ before ++ j ∷ behind
      → s.maximum_size ≤ length s.queue
      → Internal s (record s { arriving = before ++ behind; blocked = j ∷ s.blocked })
  -- `put`, back from `wait`.
  enqueue_roused :
      (before behind : List ℕ) (j : ℕ)
      → s.roused ≡ before ++ j ∷ behind
      → length s.queue < s.maximum_size
      → Internal s (record s {
        roused = before ++ behind;
        queue = s.queue ++ j ∷ [];
        put_signals = suc s.put_signals;
        accepted = s.accepted ++ j ∷ [];
      })
  block_again :
      (before behind : List ℕ) (j : ℕ)
      → s.roused ≡ before ++ j ∷ behind
      → s.maximum_size ≤ length s.queue
      → Internal s (record s { roused = before ++ behind; blocked = j ∷ s.blocked })
  -- `_can_get_job.notify_one()` at the end of `put`.
  wake_one :
      (n m : ℕ)
      → s.put_signals ≡ suc n
      → s.asleep ≡ suc m
      → Internal s (record s { put_signals = n; asleep = m; woken = suc s.woken })
  wake_none :
      (n : ℕ) → s.put_signals ≡ suc n → s.asleep ≡ 0 → Internal s (record s { put_signals = n })
  -- `get`, with a job in the queue, by a worker that comes to it or that was notified.
  take_ready :
      (n j : ℕ) (q : List ℕ)
      → s.ready ≡ suc n
      → s.queue ≡ j ∷ q
      → Internal s (record s {
        ready = n;
        queue = q;
        get_signals = suc s.get_signals;
        running = j ∷ s.running;
        started = s.started ++ j ∷ [];
      })
  take_woken :
      (n j : ℕ) (q : List ℕ)
      → s.woken ≡ suc n
      → s.queue ≡ j ∷ q
      → Internal s (record s {
        woken = n;
        queue = q;
        get_signals = suc s.get_signals;
        running = j ∷ s.running;
        started = s.started ++ j ∷ [];
      })
  -- `get`, on an open queue with no job.
  sleep :
      (n : ℕ)
      → s.ready ≡ suc n
      → s.queue ≡ []
      → s.request_end ≡ false
      → Internal s (record s { ready = n; asleep = suc s.asleep })
  sleep_again :
      (n : ℕ)
      → s.woken ≡ suc n
      → s.queue ≡ []
      → s.request_end ≡ false
      → Internal s (record s { woken = n; asleep = suc s.asleep })
  -- `_can_put_job.notify_one()` in `get`.
  rouse_one :
      (n : ℕ) (before behind : List ℕ) (j : ℕ)
      → s.get_signals ≡ suc n
      → s.blocked ≡ before ++ j ∷ behind
      → Internal s (record s { get_signals = n; blocked = before ++ behind; roused = j ∷ s.roused })
  rouse_none :
      (n : ℕ) → s.get_signals ≡ suc n → s.blocked ≡ [] → Internal s (record s { get_signals = n })
  -- `job->run()` returns, and the job is destroyed: `*_counter -= 1`.
  finish :
      (before behind : List ℕ) (j : ℕ)
      → s.running ≡ before ++ j ∷ behind
      → Internal s (record s {
        running = before ++ behind;
        finished = s.finished ++ j ∷ [];
        active = s.active - 1;
        ready = suc s.ready;
      })
  -- `_can_get_job.notify_all()` in `close`.
  wake_all :
      (n : ℕ)
      → s.closers ≡ suc n
      → Internal s (record s { closers = n; asleep = 0; woken = s.woken + s.asleep })
  -- `get` returns the null pointer, and the worker leaves its loop.
  stop_ready :
      (n : ℕ)
      → s.ready ≡ suc n
      → s.queue ≡ []
      → s.request_end ≡ true
      → Internal s (record s { ready = n; stopped = suc s.stopped })
  stop_woken :
      (n : ℕ)
      → s.woken ≡ suc n
      → s.queue ≡ []
      → s.request_end ≡ true
      → Internal s (record s { woken = n; stopped = suc s.stopped })

-- A step of the pool, a call by its client, or a spurious wake-up.
pub data Step (s : Pool) : Pool → Type 0 where
  internal : {t : Pool} → Internal s t → Step s t
  -- `post` counts the job, and calls `put`.
  post : (j : ℕ) → Step s (record s { active = suc s.active; arriving = j ∷ s.arriving })
  -- `close` on an open queue. Its test is made without the mutex, so two calls may both pass it.
  close : Step s (record s { request_end = true; closers = suc s.closers })
  close_again : s.request_end ≡ true → Step s s
  -- A thread wakes up in `wait` without a notification.
  spurious_get : (m : ℕ) → s.asleep ≡ suc m → Step s (record s { asleep = m; woken = suc s.woken })
  spurious_put :
      (before behind : List ℕ) (j : ℕ)
      → s.blocked ≡ before ++ j ∷ behind
      → Step s (record s { blocked = before ++ behind; roused = j ∷ s.roused })

pub data Reach (num_threads size : ℕ) : Pool → Type 0 where
  start : Reach num_threads size (new_pool num_threads size)
  later : {s t : Pool} → Reach num_threads size s → Step s t → Reach num_threads size t
