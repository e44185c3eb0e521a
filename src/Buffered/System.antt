-- ===== src/Buffered/System.antt =====
-- The wrapper as a system of interleaved steps. One step is what a thread does under `_mutex`, one
-- notification, or one call of the translator.
use ctranslate.Prelude.{
  ℕ, suc, ◌-◌, ◌%◌, Bool, true, false, ◌||◌, ◌&&◌, not, List, [], ◌∷◌, ◌++◌, length, take, drop,
  Option, none, some, ltb, leb, ◌==◌, if◌then◌else◌, is_nil, ◌≡◌, ◌≢◌,
}
use ctranslate.Batching.Defs.{Example}

-- Where the thread of `buffer_loop` is: about to lock, asleep in `wait_for`, notified there, about to
-- call `post_examples` with the examples and promises that it took and the flag that it read, or out
-- of the loop.
pub data Place : Type 0 where
  top asleep woken exited : Place
  posting : List Example → List ℕ → Bool → Place

pub record Wrapper : Type 0 where
  pub max_batch_size : ℕ
  pub max_buffer_size : ℕ
  pub examples : List Example
  -- A promise is known by its number.
  pub promises : List ℕ
  pub stop : Bool
  pub thread : Place
  -- Calls that have unlocked and are about to notify `_cv`.
  pub notifiers : ℕ
  -- History: the requests in the order in which they were made, and the calls of `post_examples`.
  pub requests : List (Example × ℕ)
  pub posts : List (List Example × List ℕ)

-- The constructor, and the start of the thread.
unfoldable pub new_wrapper : ℕ → ℕ → Wrapper
new_wrapper max_batch_size max_buffer_size = record {
  max_batch_size = max_batch_size;
  max_buffer_size = if max_buffer_size == 0 then max_batch_size else max_buffer_size;
  examples = [];
  promises = [];
  stop = false;
  thread = top;
  notifiers = 0;
  requests = [];
  posts = [];
}

-- The predicate of `wait_for`.
unfoldable pub must_flush : Wrapper → Bool
must_flush w = leb w.max_buffer_size (length w.examples) || w.stop

-- How many of `n` examples are flushed. A remainder by 0 is undefined.
unfoldable pub flush_size : ℕ → ℕ → Bool → Option ℕ
flush_size max_batch_size n stop =
    if not stop && ltb max_batch_size n
    then (if max_batch_size == 0 then none else some (n - n % max_batch_size))
    else some n

unfoldable pub leave : Bool → Place
leave stop = if stop then exited else top

-- From the end of `wait_for` to the release of the lock.
unfoldable pub flush : Wrapper → Option Wrapper
unfolding flush_size leave
flush w =
    if is_nil w.examples
    then some (record w { thread = leave w.stop })
    else elim (flush_size w.max_batch_size (length w.examples) w.stop) [
      | none ↦ none
      | some n ↦ some (record w {
        thread = posting (take n w.examples) (take n w.promises) w.stop;
        examples = drop n w.examples;
        promises = drop n w.promises;
      })
    ]

-- `translate_async`, under the lock.
unfoldable pub translate_async : Example → ℕ → Wrapper → Wrapper
translate_async e p w =
    let examples = w.examples ++ e ∷ [] in
    record w {
      examples = examples;
      promises = w.promises ++ p ∷ [];
      notifiers = if leb w.max_buffer_size (length examples) then suc w.notifiers else w.notifiers;
      requests = w.requests ++ (e, p) ∷ [];
    }

-- A step of the thread of the loop, or a notification.
pub data Internal (w : Wrapper) : Wrapper → Type 0 where
  -- `wait_for`, from the start or back from a notification.
  flush_top : {t : Wrapper} → w.thread ≡ top → must_flush w ≡ true → flush w ≡ some t → Internal w t
  flush_woken :
      {t : Wrapper} → w.thread ≡ woken → must_flush w ≡ true → flush w ≡ some t → Internal w t
  sleep : w.thread ≡ top → must_flush w ≡ false → Internal w (record w { thread = asleep })
  sleep_again : w.thread ≡ woken → must_flush w ≡ false → Internal w (record w { thread = asleep })
  -- The time is up.
  flush_late : {t : Wrapper} → w.thread ≡ asleep → flush w ≡ some t → Internal w t
  notify_asleep :
      (n : ℕ)
      → w.notifiers ≡ suc n
      → w.thread ≡ asleep
      → Internal w (record w { notifiers = n; thread = woken })
  notify_none :
      (n : ℕ) → w.notifiers ≡ suc n → w.thread ≢ asleep → Internal w (record w { notifiers = n })
  -- `post_examples`, and the end of the round.
  post :
      (es : List Example) (ps : List ℕ) (stop : Bool)
      → w.thread ≡ posting es ps stop
      → Internal w (record w { thread = leave stop; posts = w.posts ++ (es, ps) ∷ [] })

-- A step, a request, the start of the destructor, or a wake-up of the thread that no one caused. No call is made on an object that is being
-- destroyed.
pub data Step (w : Wrapper) : Wrapper → Type 0 where
  internal : {t : Wrapper} → Internal w t → Step w t
  request : (e : Example) (p : ℕ) → w.stop ≡ false → Step w (translate_async e p w)
  destroy : w.stop ≡ false → Step w (record w { stop = true; notifiers = suc w.notifiers })
  spurious : w.thread ≡ asleep → Step w (record w { thread = woken })

pub data Reach (max_batch_size max_buffer_size : ℕ) : Wrapper → Type 0 where
  start : Reach max_batch_size max_buffer_size (new_wrapper max_batch_size max_buffer_size)
  later :
      {w t : Wrapper}
      → Reach max_batch_size max_buffer_size w
      → Step w t
      → Reach max_batch_size max_buffer_size t
