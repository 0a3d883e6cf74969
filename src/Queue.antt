-- ===== src/Queue.antt =====
-- crates/kanai-broker/src/queue.rs: the bounded queue of optional work and its workers.
-- A `CancellationToken` is an address, and `cancelled` holds those that were cancelled; the reply
-- channel of a job and the work of the coordinator on it are left out.
pub mod Pending
pub mod Orderly
pub mod Order
mod Examples
use kanai.Base.{
  ℕ, Bool, true, false, ◌||◌, Option, none, some, List, [], ◌∷◌, ◌++◌, map, ◌==◌, ltb, leb,
  if◌then◌else◌, length, Result, ok, err, lookup, insert, remove,
}
use kanai.Protocol.Requests.{RequestEnvelope, session_id}
use kanai.Session.Tokens.{GenerationToken}

abbrev pub max_enhancement_queue_capacity : ℕ
max_enhancement_queue_capacity = 64

abbrev pub max_enhancement_workers : ℕ
max_enhancement_workers = 8

pub data EnhancementQueueError : Type 0 where
  full closed invalid_capacity invalid_workers no_runtime : EnhancementQueueError

pub record EnhancementJob : Type 0 where
  pub envelope : RequestEnvelope
  pub token : GenerationToken
  pub cancellation : ℕ

-- `QueueState` with the capacity, and the jobs that workers have taken and not finished.
pub record EnhancementQueue : Type 0 where
  pub capacity : ℕ
  pub jobs : List EnhancementJob
  -- For a session its latest request and that request's cancellation token.
  pub latest : List (ℕ × (ℕ × ℕ))
  pub is_closed : Bool
  pub running : List EnhancementJob
  pub cancelled : List ℕ

-- `from_coordinator`; `runtime` tells whether it runs in an async runtime.
unfoldable pub from_coordinator : ℕ → ℕ → Bool → Result EnhancementQueueError EnhancementQueue
from_coordinator capacity workers runtime =
    if capacity == 0 || ltb max_enhancement_queue_capacity capacity
    then err invalid_capacity
    else if workers == 0 || ltb max_enhancement_workers workers
    then err invalid_workers
    else if runtime
    then ok (record {
      capacity = capacity;
      jobs = [];
      latest = [];
      is_closed = false;
      running = [];
      cancelled = [];
    })
    else err no_runtime

-- The session's earlier request is cancelled, and the new one is its latest.
unfoldable pub supersede : EnhancementQueue → Option ℕ → ℕ → ℕ → EnhancementQueue
supersede q none request_id cancellation = q
supersede q (some session) request_id cancellation = elim (lookup session q.latest) [
  | none ↦ record q { latest = insert session (request_id, cancellation) q.latest }
  | some previous ↦ record q {
    latest = insert session (request_id, cancellation) q.latest;
    cancelled = previous.1 ∷ q.cancelled;
  }
]

-- `submit` until it waits for the reply.
unfoldable pub submit :
    EnhancementQueue → EnhancementJob → EnhancementQueue × Result EnhancementQueueError (Unit {0})
unfolding supersede
submit q job =
    if q.is_closed
    then (q, err closed)
    else if leb q.capacity (length q.jobs)
    then (q, err full)
    else (let q1 =
          supersede q (session_id job.envelope.command) job.envelope.request_id job.cancellation in
        (record q1 { jobs = q1.jobs ++ (job ∷ []) }, ok tt))

-- One turn of the loop of `pop_job`.
pub data Popped : Type 0 where
  job_taken : EnhancementJob → Popped
  queue_ended queue_empty : Popped

unfoldable pub pop_job : EnhancementQueue → EnhancementQueue × Popped
pop_job q = elim q.jobs [
  | [] ↦ (q, if q.is_closed then queue_ended else queue_empty)
  | job ∷ jobs ↦ (record q { jobs = jobs; running = job ∷ q.running }, job_taken job)
]

abbrev pub is_latest : Option (ℕ × ℕ) → ℕ → Bool
is_latest none request_id = false
is_latest (some entry) request_id = entry.0 == request_id

unfoldable pub finish_latest : EnhancementQueue → Option ℕ → ℕ → EnhancementQueue
finish_latest q none request_id = q
finish_latest q (some session) request_id =
    if is_latest (lookup session q.latest) request_id
    then record q { latest = remove session q.latest }
    else q

-- `close`, when its task has run.
unfoldable pub close : EnhancementQueue → EnhancementQueue
close q = record q {
  is_closed = true;
  cancelled = map (λ entry. entry.1.1) q.latest ++ q.cancelled;
  latest = [];
}
