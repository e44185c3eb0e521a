-- ===== src/Buffered/Tests.antt =====
-- A buffer of two requests, followed step by step, and the theorems at its states.
use ctranslate.Prelude.{
  Error, List, ℕ, ◌<◌, true, false, [], ◌∷◌, ◌++◌, length, some, none, ◌≡◌, refl, arith, map, iota,
  replicate, done, get_elem?, All,
}
use ctranslate.Batching.Defs.{Example, example_length}
use ctranslate.Buffered.Pairs.{pairs}
use ctranslate.Buffered.System.{
  Wrapper, new_wrapper, translate_async, top, asleep, exited, posting, flush, flush_size, leave,
  must_flush, Internal, sleep, flush_late, post, internal, request, destroy, Reach, start, later,
}
use ctranslate.Buffered.Orderly.{posted_pairs, in_hand}
use ctranslate.Buffered.Ending.{Reach-requests, Reach-exited, Reach-notified}
use mathlib.Core.List.{Nodup-cons, Nodup-nil, not-mem-nil, reverse, reverse_perm}
use ctranslate.Replica.Defs.{Store, Failure, value, pending, returns}
use ctranslate.Replica.Posting.{Client}
use ctranslate.Buffered.Requests.{IsRequests}
use ctranslate.Buffered.Answering.{run_posts, run_posts-translates}
use ctranslate.Prelude.Sorting.{sort_by, sort_by-perm}
use ctranslate.Buffered.Stopping.{countdown, Internal-countdown, PromptRuns, stop-exits}

abbrev short : Example
short = record { streams = ("a" ∷ []) ∷ [] ∷ [] }

abbrev fresh_buffer : Wrapper
fresh_buffer = record {
  max_batch_size = 2;
  max_buffer_size = 1;
  examples = [];
  promises = [];
  stop = false;
  thread = top;
  notifiers = 0;
  requests = [];
  posts = [];
}

fresh_reached : Reach 2 1 fresh_buffer
unfolding new_wrapper
fresh_reached = start

-- The thread sleeps, and then a request comes that fills the buffer.
abbrev sleeping : Wrapper
sleeping = record fresh_buffer {
  thread = asleep;
  examples = short ∷ [];
  promises = 10 ∷ [];
  notifiers = 1;
  requests = (short, 10) ∷ [];
}

sleeping_reached : Reach 2 1 sleeping
unfolding translate_async must_flush
sleeping_reached = later (later fresh_reached (internal (sleep refl refl))) (request short 10 refl)

-- The destructor begins, the time is up, and the thread posts what is there.
abbrev stopping : Wrapper
stopping = record sleeping { stop = true; notifiers = 2 }

stopping_reached : Reach 2 1 stopping
stopping_reached = later sleeping_reached (destroy refl)

abbrev taken : Wrapper
taken = record stopping {
  thread = posting (short ∷ []) (10 ∷ []) true;
  examples = [];
  promises = [];
}

last_flush : Internal stopping taken
unfolding flush
last_flush = flush_late refl refl

abbrev ended : Wrapper
ended = record taken { thread = exited; posts = (short ∷ [], 10 ∷ []) ∷ [] }

ended_reached : Reach 2 1 ended
unfolding leave
ended_reached =
    later (later stopping_reached (internal last_flush))
      (internal (post (short ∷ []) (10 ∷ []) true refl))

Reach-requests_example :
    (sleeping.requests
      ≡ posted_pairs sleeping.posts
        ++ (in_hand sleeping.thread ++ pairs sleeping.examples sleeping.promises))
    × (length sleeping.examples ≡ length sleeping.promises)
Reach-requests_example = Reach-requests sleeping_reached

Reach-exited_example : ended.requests ≡ posted_pairs ended.posts
Reach-exited_example = Reach-exited ended_reached refl

Reach-notified_example : 0 < sleeping.notifiers
unfolding must_flush
Reach-notified_example = Reach-notified sleeping_reached refl refl

abbrev measure : Client ℕ ℕ Error
measure replica b = returns (map (λ e. example_length e 0) b.members)

abbrev backwards : ℕ → List ℕ
backwards n = reverse (iota 0 n)

-- Promise 10 and those before it.
abbrev eleven : Store ℕ (Failure Error)
eleven = replicate 11 pending

ended-IsRequests : IsRequests 1 eleven ended.requests
unfolding example_length
ended-IsRequests = record {
  full = (refl, tt);
  bounded = omega arith;
  small = omega arith;
  own = Nodup-cons.1 (not-mem-nil, Nodup-nil);
  waiting = (refl, tt);
}

run_posts-translates_example :
    (after : Store ℕ (Failure Error)) × (run_posts sort_by measure 2 some backwards ended.posts
        eleven
      ≡ done after)
    × All (λ x. get_elem? after x.1 ≡ some (value (example_length x.0 0))) ended.requests
unfolding example_length
run_posts-translates_example =
    run_posts-translates sort_by sort_by-perm measure (λ e. example_length e 0) (λ r b. refl) some
      (λ k. (k, refl)) backwards (λ n. reverse_perm (iota 0 n)) 2 1 (omega arith) eleven
      ended_reached refl ended-IsRequests

Internal-countdown_example : (countdown taken < countdown stopping) × (taken.stop ≡ true)
Internal-countdown_example = Internal-countdown refl last_flush

stop-exits_example :
    (t : Wrapper) × PromptRuns stopping t
    × (t.thread ≡ exited)
    × (t.requests ≡ posted_pairs t.posts)
stop-exits_example = stop-exits stopping_reached refl

-- A batch size of 0 stands for no limit in rebatch_input; here the remainder by 0 is undefined.
no_limit : flush_size 0 1 false ≡ none
unfolding flush_size
no_limit = refl
