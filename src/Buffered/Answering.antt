-- ===== src/Buffered/Answering.antt =====
-- From a request to its translation: the posts of the buffer, run by the pool of the translator.
use mathlib.Core.List.{Perm, Mem, mem-cons_self, mem-cons_of_mem, map-append}
use mathlib.Core.List.Perm
use native.Mathlib.Bridge.{le_prop}
use ctranslate.Prelude.{
  ℕ, zero, suc, ◌+◌, ◌<◌, Bool, List, [], ◌∷◌, ◌++◌, All, map, length, get_elem?, get_or, iota, ◌≡◌,
  refl, sym, ap, subst, ◌∙◌, Option, some, Error, Run, done, and_then, arith, All-append, All-perm,
  All-iota, append_assoc, get_elem?-lt,
}
use ctranslate.Prelude.Distinct.{Distinct-of_Nodup, flat, flat-perm}
use ctranslate.Prelude.Reading.{
  All-get, All-map, get_or-of_get, get_elem?-left, get_elem?-right, get_elem?-map_at,
}
use ctranslate.Prelude.Finding.{get_elem?-of_lt, position_of, mem-iota}
use ctranslate.Decoding.RowSteps.{length-map}
use ctranslate.Batching.Defs.{examples, Example}
use ctranslate.Replica.Defs.{
  value, Store, Call, Failure, Job, outcome, batch_job, with_thread_replica, run_jobs,
}
use ctranslate.Replica.Posting.{Client, post_examples}
use ctranslate.Replica.Consuming.{ended}
use ctranslate.Replica.Settling.{IsPending, JobAt, Answered, run_jobs-AllSettled}
use ctranslate.Replica.Schedules.{IsSchedule, func-Serves}
use ctranslate.Replica.InOrder.{IsPointwise, complete}
use ctranslate.Buffered.System.{Wrapper, exited, Reach}
use ctranslate.Buffered.Orderly.{posted_pairs, AllMatched}
use ctranslate.Buffered.Invariant.{Reach-IsOrderly}
use ctranslate.Buffered.Ending.{Reach-exited}
use ctranslate.Buffered.Requests.{second, IsRequests, IsRequests-left, IsRequests-right}
use ctranslate.Buffered.Slots.{Slot, no_slot, slot_ids, job_of, IsServed, Covered, IsPlan, one_post}

abbrev pub Posts : Type 0
Posts = List (List Example × List ℕ)

-- The calls of `post_examples`, which do not wait for their jobs, and the jobs of all of them in the
-- pool, which has the order in which they run and the replica of the worker of each.
module _ {Replica R : Type 0} (sort : (ℕ → ℕ → Bool) → List ℕ → List ℕ)
    (func : Client Replica R Error) (max_batch_size : ℕ) where
  unfoldable pub posted_jobs : Posts → Run (List (Job Replica R Error))
  unfolding post_examples
  posted_jobs [] = done []
  posted_jobs ((es, ps) ∷ posts) =
      and_then (post_examples sort es max_batch_size examples (map some ps) func)
        λ jobs. and_then (posted_jobs posts) λ rest. done (jobs ++ rest)

  unfoldable pub run_posts :
      (ℕ → Option Replica)
      → (ℕ → List ℕ)
      → Posts
      → Store R (Failure Error)
      → Run (Store R (Failure Error))
  unfolding posted_jobs run_jobs
  run_posts replica order posts s =
      and_then (posted_jobs posts) λ jobs. ended (run_jobs jobs replica (order (length jobs)) s)

All-of_Mem : (P : ℕ → Type 0) (xs : List ℕ) → ((x : ℕ) → Mem x xs → P x) → All P xs
All-of_Mem P [] h = tt
All-of_Mem P (x ∷ xs) h = (h x mem-cons_self, All-of_Mem P xs (λ y m. h y (mem-cons_of_mem x m)))

All-Mem : (P : ℕ → Type 0) (xs : List ℕ) (x : ℕ) → All P xs → Mem x xs → P x
All-Mem P xs x h m = let (i, e) = position_of x xs m in All-get P xs i x h e

flat-append : (xs ys : List Slot) → flat slot_ids (xs ++ ys) ≡ flat slot_ids xs ++ flat slot_ids ys
flat-append [] ys = refl
flat-append (x ∷ xs) ys =
    ap (◌++◌ x.0) (flat-append xs ys) ∙ sym (append_assoc x.0 (flat slot_ids xs) (flat slot_ids ys))

Covered-left : (xs ys : List Slot) (e : Example) (p : ℕ) → Covered xs e p → Covered (xs ++ ys) e p
Covered-left xs ys e p (k, x, j, found, at, member) =
    (k, x, j, get_elem?-left xs ys k (get_elem?-lt xs k x found) ∙ found, at, member)

Covered-right : (xs ys : List Slot) (e : Example) (p : ℕ) → Covered ys e p → Covered (xs ++ ys) e p
Covered-right xs ys e p (k, x, j, found, at, member) =
    (length xs + k, x, j, get_elem?-right xs ys k ∙ found, at, member)

IsPlan-append :
    (xs ys : List Slot) (rs ts : List (Example × ℕ))
    → IsPlan xs rs
    → IsPlan ys ts
    → IsPlan (xs ++ ys) (rs ++ ts)
IsPlan-append xs ys rs ts v w = record {
  served = All-append IsServed xs ys v.served w.served;
  permutes =
      subst (λ l. Perm l (map second (rs ++ ts))) (sym (flat-append xs ys))
        (subst (Perm _) (sym (map-append second rs ts)) (
          Perm.trans (Perm.append_right (flat slot_ids ys) v.permutes)
            (Perm.append_left (map second rs) w.permutes)));
  covered =
      All-append (λ x. Covered (xs ++ ys) x.0 x.1) rs ts
        (All-map _ _ rs (λ x c. Covered-left xs ys x.0 x.1 c) v.covered)
        (All-map _ _ ts (λ x c. Covered-right xs ys x.0 x.1 c) w.covered);
}

flat-iota :
    (c : List Slot) (n i : ℕ) (slots : List Slot)
    → ((k : ℕ) → k < n → get_or c (i + k) no_slot ≡ get_or slots k no_slot)
    → n ≡ length slots
    → flat (λ k. (get_or c k no_slot).0) (iota i n) ≡ flat slot_ids slots
flat-iota c zero i [] h e = refl
flat-iota c zero i (x ∷ slots) h e = absurd (omega (arith, e))
flat-iota c (suc n) i [] h e = absurd (omega (arith, e))
flat-iota c (suc n) i (x ∷ slots) h e =
    ap (λ y. y.0 ++ flat (λ k. (get_or c k no_slot).0) (iota (suc i) n))
      (ap (λ z. get_or c z no_slot) (omega arith) ∙ h 0 (omega arith))
    ∙ ap (◌++◌ x.0) (
        flat-iota c n (suc i) slots
          (λ k lt. ap (λ z. get_or c z no_slot) (omega arith) ∙ h (suc k) (omega (arith, lt)))
          (omega (arith, e)))

module _ {Replica R : Type 0} (sort : (ℕ → ℕ → Bool) → List ℕ → List ℕ)
    (sort-perm : (before : ℕ → ℕ → Bool) (xs : List ℕ) → Perm (sort before xs) xs)
    (func : Client Replica R Error) (translate : Example → R)
    (pointwise : IsPointwise func translate) (replica : ℕ → Option Replica)
    (present : (k : ℕ) → (r : Replica) × (replica k ≡ some r)) (order : ℕ → List ℕ)
    (scheduled : IsSchedule order) (max_batch_size L : ℕ) (pos : 0 < L) where
  abbrev Holds : Store R (Failure Error) → Example → ℕ → Type 0
  Holds s e p = get_elem? s p ≡ some (value (translate e))

  -- The jobs of all posts, as slots.
  posted_jobs-IsPlan :
      (posts : Posts) (s : Store R (Failure Error))
      → AllMatched posts
      → IsRequests L s (posted_pairs posts)
      → (slots : List Slot) × (posted_jobs sort func max_batch_size posts
          ≡ done (map (job_of func) slots))
        × IsPlan slots (posted_pairs posts)
  unfolding posted_jobs
  posted_jobs-IsPlan [] s m v =
      ([], refl, record { served = tt; permutes = Perm.nil; covered = tt })
  posted_jobs-IsPlan ((es, ps) ∷ posts) s m v =
      let one = IsRequests-left L s _ (posted_pairs posts) v in
      let (xs, e, p) =
        one_post sort sort-perm func es ps max_batch_size L m.0 pos one.full one.bounded
          one.small in
      let (ys, f, q) =
        posted_jobs-IsPlan posts s m.1
          (IsRequests-right L s _ (posted_pairs posts) v s (λ k a. refl)) in
      (
        xs ++ ys,
        ap
              (λ r. and_then r λ jobs.
                and_then (posted_jobs sort func max_batch_size posts) λ rest. done (jobs ++ rest))
              e
            ∙ ap (λ r. and_then r λ rest. done (map (job_of func) xs ++ rest)) f
            ∙ ap done (sym (map-append (job_of func) xs ys)),
        IsPlan-append xs ys _ (posted_pairs posts) p q,
      )

  module _ (slots : List Slot) where
    abbrev jobs : List (Job Replica R Error)
    jobs = map (job_of func) slots

    abbrev ids : ℕ → List ℕ
    ids k = (get_or slots k no_slot).0

    abbrev call : ℕ → Call (List R) (Failure Error)
    call k = with_thread_replica (λ r. func r (get_or slots k no_slot).1) (replica k)

    slot-JobAt : All IsServed slots → (k : ℕ) → k < length slots → JobAt jobs replica ids call k
    unfolding batch_job
    slot-JobAt served k lt =
        let (x, e) = get_elem?-of_lt slots k lt in
        let q : get_or slots k no_slot ≡ x = get_or-of_get slots k x no_slot e in
        record {
          job = job_of func (get_or slots k no_slot);
          found = get_elem?-map_at (job_of func) slots k _ (e ∙ ap some (sym q));
          holds = refl;
          calls = refl;
          serves =
              func-Serves func
                (complete sort sort-perm func translate pointwise replica present order scheduled)
                (replica k) (get_or slots k no_slot).1 _
                (subst IsServed (sym q) (All-get IsServed slots k x served e));
        }

    outcome-call :
        (k j : ℕ) (x : Slot) (e : Example)
        → get_elem? slots k ≡ some x
        → get_elem? x.1.members j ≡ some e
        → outcome (call k) j ≡ some (value (translate e))
    unfolding with_thread_replica outcome
    outcome-call k j x e found member =
        let q : get_or slots k no_slot ≡ x = get_or-of_get slots k x no_slot found in
        let (r, h) = present k in
        let here : get_elem? (map translate x.1.members) j ≡ some (translate e) =
          get_elem?-map_at translate x.1.members j e member in
        ap (λ y. outcome (with_thread_replica (λ r. func r y.1) (replica k)) j) q
        ∙ rw h (rw (pointwise r x.1, with_thread_replica) (rw (here, outcome) refl))

    flat-perm_requests :
        (requests : List (Example × ℕ)) (schedule : List ℕ)
        → IsPlan slots requests
        → Perm schedule (iota 0 (length slots))
        → Perm (flat ids schedule) (map second requests)
    flat-perm_requests requests schedule plan h = Perm.trans (flat-perm ids h) (
        subst (λ l. Perm l (map second requests))
          (sym (
            flat-iota slots (length slots) 0 slots
              (λ k lt. ap (λ z. get_or slots z no_slot) (omega arith)) refl))
          plan.permutes)

    -- All jobs run, in an order of all of them, and each promise has the result of its example.
    run_plan :
        (requests : List (Example × ℕ)) (s : Store R (Failure Error)) (schedule : List ℕ)
        → IsPlan slots requests
        → IsRequests L s requests
        → Perm schedule (iota 0 (length slots))
        → (after : Store R (Failure Error)) × (run_jobs jobs replica schedule s ≡ some after)
          × All (λ x. Holds after x.0 x.1) requests
    run_plan requests s schedule plan v h =
        let perm = flat-perm_requests requests schedule plan h in
        let numbers : All (λ k. k < length slots) schedule =
          All-perm _ (λ a. le_prop) h (All-iota 0 (length slots) (length slots) (omega arith)) in
        let run =
          run_jobs-AllSettled jobs replica ids call schedule s
            (Distinct-of_Nodup _ (Perm.nodup (Perm.symm perm) v.own))
            (All-of_Mem (IsPending s) (flat ids schedule) (λ p m.
              All-Mem (IsPending s) (map second requests) p v.waiting (Perm.subset perm p m)))
            (All-map (λ k. k < length slots) _ schedule (slot-JobAt plan.served) numbers) in
        (
          run.after,
          run.returns,
          All-map _ _ requests
              (λ x c.
                let (k, y, j, found, at, member) = c in
                let q : get_or slots k no_slot ≡ y = get_or-of_get slots k y no_slot found in
                let lt : k < length slots = get_elem?-lt slots k y found in
                let here =
                  All-Mem (Answered jobs replica ids call run.after) schedule k run.answered (
                    Perm.subset (Perm.symm h) k
                      (mem-iota k 0 (length slots) (omega arith) (omega (arith, lt)))) in
                here j x.1 (ap (λ z. get_elem? z.0 j) q ∙ at) ∙ outcome-call k j y x.0 found member)
              plan.covered,
        )

  -- When the thread of the buffer has left its loop, in any reachable state: if the requests have
  -- examples with streams whose sizes do not overflow, and a pending promise of its own each, and the
  -- translator gives each example its own result and runs the jobs of all posts once each, in any
  -- order, in which jobs of different posts may be mixed, and each by any worker, then they run, and
  -- the promise of every request holds the result of its example.
  pub run_posts-translates :
      {m n : ℕ} {w : Wrapper} (s : Store R (Failure Error))
      → Reach m n w
      → w.thread ≡ exited
      → IsRequests L s w.requests
      → (after : Store R (Failure Error)) × (run_posts sort func max_batch_size replica order
            w.posts s
          ≡ done after)
        × All (λ x. Holds after x.0 x.1) w.requests
  unfolding run_posts
  run_posts-translates {w} s r gone v =
      let e = Reach-exited r gone in
      let v' = subst (IsRequests L s) e v in
      let (slots, posted, plan) =
        posted_jobs-IsPlan w.posts s (Reach-IsOrderly r).posts_matched v' in
      let size : length (jobs slots) ≡ length slots = length-map (job_of func) slots in
      let (after, ran, held) =
        run_plan slots (posted_pairs w.posts) s (order (length (jobs slots))) plan v' (
          subst (λ n. Perm (order (length (jobs slots))) (iota 0 n)) size
            (scheduled (length (jobs slots)))) in
      (
        after,
        ap (λ r. and_then r λ jobs. ended (run_jobs jobs replica (order (length jobs)) s)) posted
            ∙ ap ended ran,
        subst (All (λ x. Holds after x.0 x.1)) (sym e) held,
      )
