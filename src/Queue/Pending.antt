-- ===== src/Queue/Pending.antt =====
-- The pending jobs of queue.rs: the invariant of the queue, and the steps that clients and workers
-- take.
use kanai.Base.{
  ℕ, ◌≤◌, ◌==◌, ==_iff, true, Option, none, some, List, [], ◌∷◌, ◌++◌, ◌≡◌, ◌≢◌, refl, ap, ◌∙◌,
  length, All, lookup, lookup-insert, insert, contains, ◌⊎◌, inl, inr, Bool-cases, Option-cases,
  arith,
}
use kanai.Protocol.Requests.{session_id}
use kanai.Queue.{
  EnhancementJob, EnhancementQueue, max_enhancement_queue_capacity, supersede, submit, pop_job,
  finish_latest, close,
}

-- The job is the latest of its session, or it was cancelled.
abbrev pub Covered : List (ℕ × (ℕ × ℕ)) → List ℕ → EnhancementJob → Type 0
Covered latest cancelled job =
    (session : ℕ)
    → session_id job.envelope.command ≡ some session
    → (lookup session latest ≡ some (job.envelope.request_id, job.cancellation))
      ⊎ (contains job.cancellation cancelled ≡ true)

pub record IsOrderly (q : EnhancementQueue) : Type 0 where
  pub bounded : length q.jobs ≤ q.capacity
  pub small : q.capacity ≤ max_enhancement_queue_capacity
  pub queued : All (Covered q.latest q.cancelled) q.jobs
  pub taken : All (Covered q.latest q.cancelled) q.running

-- No other pending job of the same session has the request id of this one.
abbrev pub IsUnique : EnhancementJob → List EnhancementJob → Type 0
IsUnique job jobs =
    All
      (λ other.
        session_id other.envelope.command ≡ session_id job.envelope.command
        → other.envelope.request_id ≢ job.envelope.request_id)
      jobs

-- What clients and workers do: a request comes in, a worker takes a job, or finishes one, whose
-- request id no other pending job of its session has, and the queue is closed.
pub data Step (q : EnhancementQueue) : EnhancementQueue → Type 0 where
  submits : (job : EnhancementJob) → Step q (submit q job).0
  pops : Step q (pop_job q).0
  finishes :
      (before after : List EnhancementJob) (job : EnhancementJob)
      → q.running ≡ before ++ (job ∷ after)
      → IsUnique job (before ++ after)
      → IsUnique job q.jobs
      → Step q (record (finish_latest q (session_id job.envelope.command) job.envelope.request_id) {
        running = before ++ after;
      })
  closes : Step q (close q)

pub data Steps (q : EnhancementQueue) : EnhancementQueue → Type 0 where
  stays : Steps q q
  moves : {m r : EnhancementQueue} → Steps q m → Step m r → Steps q r

pub All-map {ℓ κ ι} :
    {A : Type ℓ} (P : A → Type κ) (Q : A → Type ι) (xs : List A)
    → ((x : A) → P x → Q x)
    → All P xs
    → All Q xs
All-map P Q [] f h = tt
All-map P Q (x ∷ xs) f h = (f x h.0, All-map P Q xs f h.1)

pub All-both {ℓ κ ι} :
    {A : Type ℓ} (P : A → Type κ) (Q : A → Type ι) (xs : List A)
    → All P xs
    → All Q xs
    → All (λ x. P x × Q x) xs
All-both P Q [] h k = tt
All-both P Q (x ∷ xs) h k = ((h.0, k.0), All-both P Q xs h.1 k.1)

pub All-without {ℓ κ} :
    {A : Type ℓ} (P : A → Type κ) (xs ys : List A) (x : A)
    → All P (xs ++ (x ∷ ys))
    → All P (xs ++ ys)
All-without P [] ys x h = h.1
All-without P (z ∷ xs) ys x h = (h.0, All-without P xs ys x h.1)

-- A request of a session is the latest or was cancelled.
abbrev pub Settled : Option (ℕ × ℕ) → List ℕ → ℕ → ℕ → Type 0
Settled entry cancelled request token =
    (entry ≡ some (request, token)) ⊎ (contains token cancelled ≡ true)

pub same_key :
    (s session : ℕ) (latest : List (ℕ × (ℕ × ℕ)))
    → s == session ≡ true
    → lookup s latest ≡ lookup session latest
same_key s session latest e = ap (λ k. lookup k latest) ((==_iff s session).0 e)

insert_new-Settled :
    (latest : List (ℕ × (ℕ × ℕ))) (cancelled : List ℕ) (s session request token : ℕ) (entry : ℕ × ℕ)
    → lookup s latest ≡ none
    → Settled (lookup session latest) cancelled request token
    → Settled (lookup session (insert s entry latest)) cancelled request token
insert_new-Settled latest cancelled s session request token entry e (inr h) = inr h
insert_new-Settled latest cancelled s session request token entry e (inl h) =
    elim (Bool-cases (s == session)) [
      | inl f ↦ absurd (ground (arith, e, h, same_key s session latest f))
      | inr f ↦ inl (lookup-insert s session entry latest ∙ rw f h)
    ]

replace-Settled :
    (latest : List (ℕ × (ℕ × ℕ))) (cancelled : List ℕ) (s session request token : ℕ)
    → (entry previous : ℕ × ℕ) → lookup s latest ≡ some previous
    → Settled (lookup session latest) cancelled request token
    → Settled (lookup session (insert s entry latest)) (previous.1 ∷ cancelled) request token
unfolding contains
replace-Settled latest cancelled s session request token entry previous e (inr h) =
    inr (ground (arith, h))
replace-Settled latest cancelled s session request token entry previous e (inl h) =
    elim (Bool-cases (s == session)) [
      | inl f ↦ inr (ground (arith, e, h, same_key s session latest f))
      | inr f ↦ inl (lookup-insert s session entry latest ∙ rw f h)
    ]

pub supersede-Covered :
    (q : EnhancementQueue) (o : Option ℕ) (request cancellation : ℕ) (job : EnhancementJob)
    → Covered q.latest q.cancelled job
    → Covered
        (supersede q o request cancellation).latest
        (supersede q o request cancellation).cancelled
        job
unfolding supersede
supersede-Covered q none request cancellation job h = h
supersede-Covered q (some s) request cancellation job h = λ session about.
    elim (Option-cases (lookup s q.latest)) [
      | inl e ↦
          rw (e, supersede)
            (insert_new-Settled q.latest q.cancelled s session job.envelope.request_id
              job.cancellation (request, cancellation) e (h session about))
      | inr (previous, e) ↦
          rw (e, supersede)
            (replace-Settled q.latest q.cancelled s session job.envelope.request_id job.cancellation
              (request, cancellation) previous e (h session about))
    ]

supersede-latest :
    (q : EnhancementQueue) (s request cancellation : ℕ)
    → (supersede q (some s) request cancellation).latest ≡ insert s (request, cancellation) q.latest
unfolding supersede
supersede-latest q s request cancellation = elim (Option-cases (lookup s q.latest)) [
  | inl e ↦ rw (e, supersede) refl
  | inr (previous, e) ↦ rw (e, supersede) refl
]

pub supersede-newest :
    (q : EnhancementQueue) (job : EnhancementJob) (o : Option ℕ)
    → session_id job.envelope.command ≡ o
    → Covered
        (supersede q o job.envelope.request_id job.cancellation).latest
        (supersede q o job.envelope.request_id job.cancellation).cancelled
        job
unfolding supersede
supersede-newest q job none e session about = absurd (ground (arith, e, about))
supersede-newest q job (some s) e session about =
    let same : s ≡ session = ground (arith, e, about) in
    let entry : ℕ × ℕ = (job.envelope.request_id, job.cancellation) in
    inl (
      ap (lookup session) (supersede-latest q s job.envelope.request_id job.cancellation)
      ∙ (lookup-insert s session entry q.latest ∙ rw ((==_iff s session).1 same) refl))

pub supersede-same :
    (q : EnhancementQueue) (o : Option ℕ) (request cancellation : ℕ)
    → ((supersede q o request cancellation).jobs ≡ q.jobs)
      × ((supersede q o request cancellation).running ≡ q.running)
      × ((supersede q o request cancellation).capacity ≡ q.capacity)
unfolding supersede
supersede-same q none request cancellation = (refl, refl, refl)
supersede-same q (some s) request cancellation = elim (Option-cases (lookup s q.latest)) [
  | inl e ↦ rw (e, supersede) (refl, refl, refl)
  | inr (previous, e) ↦ rw (e, supersede) (refl, refl, refl)
]
