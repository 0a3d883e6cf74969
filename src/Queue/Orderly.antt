-- ===== src/Queue/Orderly.antt =====
-- The steps of clients and workers on the queue of queue.rs, and its invariant.
use kanai.Base.{
  ℕ, ◌≤◌, ◌==◌, ==_iff, Bool, true, false, Option, none, some, List, [], ◌∷◌, ◌++◌, map, ◌≡◌, ◌≢◌,
  refl, sym, ap, subst, ◌∙◌, length, length-append, All, All-append, lookup, lookup-remove, remove,
  contains, contains-right, inl, inr, Bool-cases, Result, arith, ok, leb, ltb, if-cases, ◌||◌, ◌<◌,
}
use kanai.Protocol.Requests.{session_id}
use kanai.Queue.{
  EnhancementJob, EnhancementQueue, EnhancementQueueError, from_coordinator,
  max_enhancement_queue_capacity, max_enhancement_workers, supersede, submit, pop_job,
  finish_latest, is_latest, close,
}
use kanai.Queue.Pending.{
  Covered, Settled, IsOrderly, IsUnique, Step, submits, pops, finishes, closes, Steps, stays, moves,
  All-map, All-both, All-without, same_key, supersede-Covered, supersede-newest, supersede-same,
}

ok_injective :
    {q r : EnhancementQueue}
    → Path (Result EnhancementQueueError EnhancementQueue) (ok q) (ok r)
    → q ≡ r
ok_injective h = cc

from_coordinator-IsOrderly :
    (capacity workers : ℕ) (runtime : Bool) (q : EnhancementQueue)
    → from_coordinator capacity workers runtime ≡ ok q
    → IsOrderly q
unfolding from_coordinator
from_coordinator-IsOrderly capacity workers runtime q =
    let P = λ (r : Result EnhancementQueueError EnhancementQueue). r ≡ ok q → IsOrderly q in
    if-cases P (capacity == 0 || ltb max_enhancement_queue_capacity capacity) _ _
      (λ e h. absurd (ground arith))
      (λ fits.
        if-cases P (workers == 0 || ltb max_enhancement_workers workers) _ _
          (λ e h. absurd (ground arith))
          (λ e.
            if-cases P runtime _ _
              (λ f h. subst IsOrderly (ok_injective h) (record {
                bounded = omega arith;
                small = ground (arith, fits);
                queued = tt;
                taken = tt;
              }))
              (λ f h. absurd (ground arith))))

entered-IsOrderly :
    (q m : EnhancementQueue) (job : EnhancementJob)
    → m ≡ supersede q (session_id job.envelope.command) job.envelope.request_id job.cancellation
    → leb q.capacity (length q.jobs) ≡ false
    → IsOrderly q
    → IsOrderly (record m { jobs = m.jobs ++ (job ∷ []) })
entered-IsOrderly q m job e room v =
    let fits : length q.jobs < q.capacity = ground (arith, room) in
    let o = session_id job.envelope.command in
    let r = job.envelope.request_id in
    let t = job.cancellation in
    let (jobs, running, capacity) = supersede-same q o r t in
    let same_jobs : m.jobs ≡ q.jobs = ap (λ n. n.jobs) e ∙ jobs in
    let same_running : m.running ≡ q.running = ap (λ n. n.running) e ∙ running in
    let same_capacity : m.capacity ≡ q.capacity = ap (λ n. n.capacity) e ∙ capacity in
    let step = λ (xs : List EnhancementJob) (h : All (Covered q.latest q.cancelled) xs).
      subst (λ n. All (Covered n.latest n.cancelled) xs) (sym e)
        (All-map (Covered q.latest q.cancelled)
          (Covered (supersede q o r t).latest (supersede q o r t).cancelled) xs
          (λ other. supersede-Covered q o r t other) h) in
    record {
      bounded =
          omega (arith, length-append m.jobs (job ∷ []), ap length same_jobs, same_capacity, fits);
      small = omega (arith, same_capacity, v.small);
      queued =
          All-append (Covered m.latest m.cancelled) m.jobs (job ∷ [])
            (subst (All (Covered m.latest m.cancelled)) (sym same_jobs) (step q.jobs v.queued))
            (
              subst (λ n. Covered n.latest n.cancelled job) (sym e) (supersede-newest q job o refl),
              tt,
            );
      taken =
          subst (All (Covered m.latest m.cancelled)) (sym same_running) (step q.running v.taken);
    }

submit-IsOrderly :
    (q : EnhancementQueue) (job : EnhancementJob) → IsOrderly q → IsOrderly (submit q job).0
unfolding submit
submit-IsOrderly q job v =
    let P = λ (p : EnhancementQueue × Result EnhancementQueueError (Unit {0})). IsOrderly p.0 in
    if-cases P q.is_closed _ _ (λ e. v)
      (λ e.
        if-cases P (leb q.capacity (length q.jobs)) _ _ (λ f. v)
          (λ f. entered-IsOrderly q _ job refl f v))

pop_job-IsOrderly : (q : EnhancementQueue) → IsOrderly q → IsOrderly (pop_job q).0
unfolding pop_job
pop_job-IsOrderly q v =
    elim q.jobs
        as (λ jobs.
          length jobs ≤ q.capacity
          → All (Covered q.latest q.cancelled) jobs
          → IsOrderly (pop_job (record q { jobs = jobs })).0) [
            | [] ↦ λ l h. record { bounded = l; small = v.small; queued = tt; taken = v.taken }
            | job ∷ jobs ↦ λ l h. record {
              bounded = omega (arith, l);
              small = v.small;
              queued = h.1;
              taken = (h.0, v.taken);
            }
          ]
      v.bounded v.queued

-- Without its session's latest entry, which is another request's, a request is as settled as it was.
remove-Settled :
    (latest : List (ℕ × (ℕ × ℕ))) (cancelled : List ℕ) (s session finished request token : ℕ)
    → is_latest (lookup s latest) finished ≡ true
    → (s ≡ session → request ≢ finished)
    → Settled (lookup session latest) cancelled request token
    → Settled (lookup session (remove s latest)) cancelled request token
remove-Settled latest cancelled s session finished request token last other (inr h) = inr h
remove-Settled latest cancelled s session finished request token last other (inl h) =
    elim (Bool-cases (s == session)) [
      | inr f ↦ inl (lookup-remove s session latest ∙ rw f h)
      | inl f ↦
          absurd
            (other ((==_iff s session).0 f) (ground (arith, last, h, same_key s session latest f)))
    ]

finish_latest-Covered :
    (q : EnhancementQueue) (finished other : EnhancementJob) (o : Option ℕ)
    → session_id finished.envelope.command ≡ o
    → Covered q.latest q.cancelled other
    → (session_id other.envelope.command ≡ session_id finished.envelope.command
        → other.envelope.request_id ≢ finished.envelope.request_id)
    → Covered
        (finish_latest q o finished.envelope.request_id).latest
        (finish_latest q o finished.envelope.request_id).cancelled
        other
unfolding finish_latest
finish_latest-Covered q finished other none e h unique = h
finish_latest-Covered q finished other (some s) e h unique = λ session about.
    elim (Bool-cases (is_latest (lookup s q.latest) finished.envelope.request_id)) [
      | inr f ↦ rw (f, finish_latest) (h session about)
      | inl f ↦
          rw (f, finish_latest)
            (remove-Settled q.latest q.cancelled s session finished.envelope.request_id
              other.envelope.request_id other.cancellation f
              (λ same. unique (about ∙ (ap some (sym same) ∙ sym e))) (h session about))
    ]

finish_latest-same :
    (q : EnhancementQueue) (o : Option ℕ) (request : ℕ)
    → ((finish_latest q o request).jobs ≡ q.jobs)
      × ((finish_latest q o request).capacity ≡ q.capacity)
unfolding finish_latest
finish_latest-same q none request = (refl, refl)
finish_latest-same q (some s) request = elim (Bool-cases (is_latest (lookup s q.latest) request)) [
  | inl f ↦ rw (f, finish_latest) (refl, refl)
  | inr f ↦ rw (f, finish_latest) (refl, refl)
]

finish-IsOrderly :
    (q m : EnhancementQueue) (before after : List EnhancementJob) (job : EnhancementJob)
    → m ≡ finish_latest q (session_id job.envelope.command) job.envelope.request_id
    → q.running ≡ before ++ (job ∷ after)
    → IsUnique job (before ++ after)
    → IsUnique job q.jobs
    → IsOrderly q
    → IsOrderly (record m { running = before ++ after })
finish-IsOrderly q m before after job e split alone alone_queued v =
    let o = session_id job.envelope.command in
    let n = finish_latest q o job.envelope.request_id in
    let (jobs, capacity) = finish_latest-same q o job.envelope.request_id in
    let same_jobs : m.jobs ≡ q.jobs = ap (λ k. k.jobs) e ∙ jobs in
    let same_capacity : m.capacity ≡ q.capacity = ap (λ k. k.capacity) e ∙ capacity in
    let old = Covered q.latest q.cancelled in
    let unique = λ (other : EnhancementJob).
      session_id other.envelope.command ≡ session_id job.envelope.command
      → other.envelope.request_id ≢ job.envelope.request_id in
    let step = λ (xs : List EnhancementJob) (h : All old xs) (k : All unique xs).
      subst (λ w. All (Covered w.latest w.cancelled) xs) (sym e)
        (All-map (λ other. old other × unique other) (Covered n.latest n.cancelled) xs
          (λ other both. finish_latest-Covered q job other o refl both.0 both.1)
          (All-both old unique xs h k)) in
    record {
      bounded = omega (arith, ap length same_jobs, same_capacity, v.bounded);
      small = omega (arith, same_capacity, v.small);
      queued =
          subst (All (Covered m.latest m.cancelled)) (sym same_jobs)
            (step q.jobs v.queued alone_queued);
      taken =
          step (before ++ after) (All-without old before after job (subst (All old) split v.taken))
            alone;
    }

contains-latest :
    (latest : List (ℕ × (ℕ × ℕ))) (ys : List ℕ) (session request token : ℕ)
    → lookup session latest ≡ some (request, token)
    → contains token (map (λ entry. entry.1.1) latest ++ ys) ≡ true
unfolding contains lookup
contains-latest [] ys session request token h = absurd (ground arith)
contains-latest ((s, (r, t)) ∷ latest) ys session request token h =
    ground (arith, contains-latest latest ys session request token)

close-Covered :
    (q : EnhancementQueue) (job : EnhancementJob)
    → Covered q.latest q.cancelled job
    → Covered (close q).latest (close q).cancelled job
unfolding close
close-Covered q job h session about = elim (h session about) [
  | inl last ↦
      inr
        (contains-latest q.latest q.cancelled session job.envelope.request_id job.cancellation last)
  | inr gone ↦
      inr (contains-right job.cancellation (map (λ entry. entry.1.1) q.latest) q.cancelled gone)
]

close-IsOrderly : (q : EnhancementQueue) → IsOrderly q → IsOrderly (close q)
unfolding close
close-IsOrderly q v = record {
  bounded = v.bounded;
  small = v.small;
  queued =
      All-map (Covered q.latest q.cancelled) (Covered (close q).latest (close q).cancelled) q.jobs
        (close-Covered q) v.queued;
  taken =
      All-map (Covered q.latest q.cancelled) (Covered (close q).latest (close q).cancelled)
        q.running (close-Covered q) v.taken;
}

Step-IsOrderly : (q r : EnhancementQueue) → Step q r → IsOrderly q → IsOrderly r
Step-IsOrderly q _ (submits job) v = submit-IsOrderly q job v
Step-IsOrderly q _ pops v = pop_job-IsOrderly q v
Step-IsOrderly q _ (finishes before after job split alone alone_queued) v =
    finish-IsOrderly q _ before after job refl split alone alone_queued v
Step-IsOrderly q _ closes v = close-IsOrderly q v

Steps-IsOrderly : (q r : EnhancementQueue) → Steps q r → IsOrderly q → IsOrderly r
Steps-IsOrderly q _ stays v = v
Steps-IsOrderly q r (moves {m} p s) v = Step-IsOrderly m r s (Steps-IsOrderly q m p v)

-- From a queue that was set up, whatever clients and workers do in whatever order (a job finishes
-- when no other pending job of its session has its request id): at most `capacity` jobs wait, which
-- is at most 64, and every pending job of a session, waiting or taken, is the session's latest or
-- has been cancelled.
pub from_coordinator-Steps :
    (capacity workers : ℕ) (runtime : Bool) (q r : EnhancementQueue)
    → from_coordinator capacity workers runtime ≡ ok q
    → Steps q r
    → IsOrderly r
from_coordinator-Steps capacity workers runtime q r start steps =
    Steps-IsOrderly q r steps (from_coordinator-IsOrderly capacity workers runtime q start)
