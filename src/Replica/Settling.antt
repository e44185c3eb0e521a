-- ===== src/Replica/Settling.antt =====
-- What one job leaves in the shared states, and what jobs with promises of their own leave together.
use ctranslate.Prelude.{
  ℕ, zero, suc, ◌+◌, ◌<◌, List, [], ◌∷◌, ◌++◌, All, map, length, get_elem?, set, ◌≢◌, ◌≡◌, refl,
  sym, ap, ◌∙◌, Option, some, arith, length-set, All-append_right, All-append_left,
}
use ctranslate.Prelude.Reading.{get_elem?-set_self, get_elem?-set_ne}
use ctranslate.Prelude.Distinct.{
  Distinct, flat, Distinct-left, Distinct-right, Distinct-before, Distinct-skip, Distinct-apart,
}
use ctranslate.Replica.Defs.{
  Shared, pending, Store, Promise, Call, Failure, Job, settle, outcome, settle_all, run, run_jobs,
}

module _ {R E : Type 0} where
  abbrev pub IsPending : Store R E → ℕ → Type 0
  IsPending s p = get_elem? s p ≡ some pending

  -- The call has something to give to the promises from number `i` on.
  abbrev pub Serves : Call (List R) E → ℕ → ℕ → Type 0
  Serves call i n = (k : ℕ) → k < n → (o : Shared R E) × (outcome call (i + k) ≡ some o)

  -- The shared states after the promises `ids` were given the outcomes from number `i` on.
  pub record Settled (call : Call (List R) E) (i : ℕ) (ids : List ℕ) (s : Store R E)
      (r : Option (Store R E)) : Type 0 where
    pub after : Store R E
    pub returns : r ≡ some after
    pub same_size : length after ≡ length s
    pub kept : (p : ℕ) → All (λ q. p ≢ q) ids → get_elem? after p ≡ get_elem? s p
    pub written : (k p : ℕ) → get_elem? ids k ≡ some p → get_elem? after p ≡ outcome call (i + k)

  settle_pending :
      (s : Store R E) (p : ℕ) (o : Shared R E)
      → IsPending s p
      → settle (some p) o s ≡ some (set s p o)
  unfolding settle
  settle_pending s p o h = rw (h, settle) refl

  still-IsPending :
      (s : Store R E) (p : ℕ) (o : Shared R E) (ids : List ℕ)
      → All (λ q. p ≢ q) ids
      → All (IsPending s) ids
      → All (IsPending (set s p o)) ids
  still-IsPending s p o [] d h = tt
  still-IsPending s p o (q ∷ ids) d h =
      (get_elem?-set_ne s p q o d.0 ∙ h.0, still-IsPending s p o ids d.1 h.1)

  step_eq :
      (call : Call (List R) E) (i p : ℕ) (ps : List Promise) (s : Store R E) (o : Shared R E)
      → outcome call i ≡ some o
      → IsPending s p
      → settle_all call (some p ∷ ps) i s ≡ settle_all call ps (suc i) (set s p o)
  unfolding settle_all
  step_eq call i p ps s o h pend =
      rw (h, settle_all) (rw (settle_pending s p o pend, settle_all) refl)

  pub settle_all-Settled :
      (call : Call (List R) E) (i : ℕ) (ids : List ℕ) (s : Store R E)
      → Distinct ids
      → All (IsPending s) ids
      → Serves call i (length ids)
      → Settled call i ids s (settle_all call (map some ids) i s)
  unfolding settle_all
  settle_all-Settled call i [] s d h v = record {
    after = s;
    returns = refl;
    same_size = refl;
    kept = λ p a. refl;
    written = λ k p e. cc;
  }
  settle_all-Settled call i (p ∷ ids) s d h v =
      let (o, e) = v 0 (omega arith) in
      let e' : outcome call i ≡ some o = ap (outcome call) (omega arith) ∙ e in
      let ih =
        settle_all-Settled call (suc i) ids (set s p o) d.1 (still-IsPending s p o ids d.0 h.1)
          (λ k lt.
            let (o', q) = v (suc k) (omega arith) in (o', ap (outcome call) (omega arith) ∙ q)) in
      record {
        after = ih.after;
        returns = step_eq call i p (map some ids) s o e' h.0 ∙ ih.returns;
        same_size = ih.same_size ∙ length-set s p o;
        kept = λ q a. ih.kept q a.1 ∙ get_elem?-set_ne s p q o (λ e'. a.0 (sym e'));
        written = pick p ids s o call i e' (h.0) d.0 ih;
      }
    where
      pick :
          (p : ℕ) (ids : List ℕ) (s : Store R E) (o : Shared R E) (call : Call (List R) E) (i : ℕ)
          → outcome call i ≡ some o
          → IsPending s p
          → All (λ q. p ≢ q) ids
          → {r : Option (Store R E)} → (ih : Settled call (suc i) ids (set s p o) r) → (k q : ℕ)
          → get_elem? (p ∷ ids) k ≡ some q
          → get_elem? ih.after q ≡ outcome call (i + k)
      pick p ids s o call i e pend d ih zero q h =
          let e' : p ≡ q = cc in
          ap (get_elem? ih.after) (sym e')
          ∙ ih.kept p d
          ∙ get_elem?-set_self s p o pending pend
          ∙ sym e
          ∙ ap (outcome call) (omega arith)
      pick p ids s o call i e pend d ih (suc k) q h =
          ih.written k q h ∙ ap (outcome call) (omega arith)

module _ {R E : Type 0} where
  pub others-IsPending :
      (s s' : Store R E) (xs ys : List ℕ)
      → ((p : ℕ) → All (λ q. p ≢ q) xs → get_elem? s' p ≡ get_elem? s p)
      → Distinct (xs ++ ys)
      → All (IsPending s) ys
      → All (IsPending s') ys
  others-IsPending s s' xs [] kept d h = tt
  others-IsPending s s' xs (y ∷ ys) kept d h = (
    kept y (Distinct-before xs y ys d) ∙ h.0,
    others-IsPending s s' xs ys kept (Distinct-skip xs y ys d) h.1,
  )

-- Jobs that run in some order. Job `k` holds the promises `ids k`, and its function does `call k`.
module _ {Replica R E : Type 0} (jobs : List (Job Replica R E)) (replica : ℕ → Option Replica)
    (ids : ℕ → List ℕ) (call : ℕ → Call (List R) (Failure E)) where
  pub record JobAt (k : ℕ) : Type 0 where
    pub job : Job Replica R E
    pub found : get_elem? jobs k ≡ some job
    pub holds : job.promises ≡ map some (ids k)
    pub calls : job.func (replica k) ≡ call k
    pub serves : Serves (call k) 0 (length (ids k))

  -- The promises of job `k` are answered: with what its function returned or threw, in order.
  abbrev pub Answered : Store R (Failure E) → ℕ → Type 0
  Answered s k = (i p : ℕ) → get_elem? (ids k) i ≡ some p → get_elem? s p ≡ outcome (call k) i

  pub record AllSettled (order : List ℕ) (s : Store R (Failure E))
      (r : Option (Store R (Failure E))) : Type 0 where
    pub after : Store R (Failure E)
    pub returns : r ≡ some after
    pub same_size : length after ≡ length s
    pub kept : (p : ℕ) → All (λ q. p ≢ q) (flat ids order) → get_elem? after p ≡ get_elem? s p
    pub answered : All (Answered after) order

  run_step :
      (k : ℕ) (order : List ℕ) (s s' : Store R (Failure E)) (j : JobAt k)
      → settle_all (call k) (map some (ids k)) 0 s ≡ some s'
      → run_jobs jobs replica (k ∷ order) s ≡ run_jobs jobs replica order s'
  unfolding run_jobs run
  run_step k order s s' j h =
      let e : run j.job (replica k) s ≡ some s' =
        ap (λ c. settle_all c j.job.promises 0 s) j.calls
        ∙ ap (λ ps. settle_all (call k) ps 0 s) j.holds
        ∙ h in
      rw (j.found, run_jobs) (rw (e, run_jobs) refl)

  pub run_jobs-AllSettled :
      (order : List ℕ) (s : Store R (Failure E))
      → Distinct (flat ids order)
      → All (IsPending s) (flat ids order)
      → All JobAt order
      → AllSettled order s (run_jobs jobs replica order s)
  unfolding run_jobs
  run_jobs-AllSettled [] s d h j = record {
    after = s;
    returns = refl;
    same_size = refl;
    kept = λ p a. refl;
    answered = tt;
  }
  run_jobs-AllSettled (k ∷ order) s d h j =
      let one =
        settle_all-Settled (call k) 0 (ids k) s (Distinct-left (ids k) (flat ids order) d)
          (All-append_left _ (ids k) (flat ids order) h) j.0.serves in
      let rest =
        run_jobs-AllSettled order one.after (Distinct-right (ids k) (flat ids order) d)
          (others-IsPending s one.after (ids k) (flat ids order) one.kept d
            (All-append_right _ (ids k) (flat ids order) h))
          j.1 in
      record {
        after = rest.after;
        returns = run_step k order s one.after j.0 one.returns ∙ rest.returns;
        same_size = rest.same_size ∙ one.same_size;
        kept = λ p a.
            rest.kept p (All-append_right _ (ids k) (flat ids order) a)
            ∙ one.kept p (All-append_left _ (ids k) (flat ids order) a);
        answered = (
          λ i p e.
              rest.kept p (Distinct-apart (ids k) (flat ids order) i p d e)
              ∙ one.written i p e
              ∙ ap (outcome (call k)) (omega arith),
          rest.answered,
        );
      }
