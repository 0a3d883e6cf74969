-- ===== src/Queue/Order.antt =====
-- The order in which the workers of queue.rs take the jobs, also behind `close`.
use kanai.Base.{
  ℕ, zero, suc, ◌<◌, Bool, false, List, [], ◌∷◌, ◌++◌, ◌≡◌, refl, ap, length, arith, if◌then◌else◌,
}
use kanai.Protocol.Requests.{session_id}
use kanai.Queue.{
  EnhancementJob, EnhancementQueue, Popped, job_taken, queue_ended, queue_empty, submit, pop_job,
  close,
}
use kanai.Queue.Pending.{supersede-same}

-- Turns of a worker's loop until it has to wait or to end; what it took, and how it stopped.
pub worker_turns : ℕ → EnhancementQueue → List EnhancementJob × Popped
worker_turns zero q = ([], (pop_job q).1)
worker_turns (suc n) q =
    let rest = worker_turns n (pop_job q).0 in
    elim (pop_job q).1 [ job_taken job ↦ (job ∷ rest.0, rest.1) | stop ↦ ([], stop) ]

stopped : Bool → Popped
stopped is_closed = if is_closed then queue_ended else queue_empty

worker_turns-jobs :
    (jobs : List EnhancementJob) (q : EnhancementQueue)
    → q.jobs ≡ jobs
    → worker_turns (length jobs) q ≡ (jobs, stopped q.is_closed)
unfolding worker_turns pop_job stopped
worker_turns-jobs [] q e = rw (e, pop_job) refl
worker_turns-jobs (job ∷ jobs) q e =
    let next : EnhancementQueue = record q { jobs = jobs; running = job ∷ q.running } in
    rw (e, pop_job) (ap (λ rest. (job ∷ rest.0, rest.1)) (worker_turns-jobs jobs next refl))

submit-jobs :
    (q : EnhancementQueue) (job : EnhancementJob)
    → q.is_closed ≡ false
    → length q.jobs < q.capacity
    → (submit q job).0.jobs ≡ q.jobs ++ (job ∷ [])
unfolding submit
submit-jobs q job live room =
    let same =
      supersede-same q (session_id job.envelope.command) job.envelope.request_id job.cancellation in
    ground (arith, live, room, same.0)

-- In an open queue with room, a job that is submitted is taken behind all that wait, in their
-- order; and when the queue is closed then, a worker takes all of them still and ends.
pub worker_turns-submit :
    (q : EnhancementQueue) (job : EnhancementJob)
    → q.is_closed ≡ false
    → length q.jobs < q.capacity
    → worker_turns (length (q.jobs ++ (job ∷ []))) (close (submit q job).0)
      ≡ (q.jobs ++ (job ∷ []), queue_ended)
unfolding close stopped
worker_turns-submit q job live room =
    worker_turns-jobs (q.jobs ++ (job ∷ [])) (close (submit q job).0) (submit-jobs q job live room)
