-- ===== src/Queue/Examples.antt =====
-- Two requests of one session in the queue of queue.rs.
use kanai.Base.{ℕ, ◌≡◌, refl, true, false, [], ◌∷◌, ok, arith, lookup, insert, remove, contains}
use kanai.Protocol.Text.{codes}
use kanai.Protocol.Requests.{
  FieldClass, RequestCommand, CandidateRerankRequest, session_id, allow_local_only,
}
use kanai.Session.Tokens.{GenerationToken}
use kanai.Queue.{
  EnhancementJob, EnhancementQueue, queue_ended, from_coordinator, submit, supersede, pop_job,
  close,
}
use kanai.Queue.Pending.{IsOrderly, stays, moves, submits, pops}
use kanai.Queue.Order.{worker_turns, worker_turns-submit}
use kanai.Queue.Orderly.{from_coordinator-Steps}

abbrev rerank : CandidateRerankRequest
rerank = record {
  session_id = 7;
  generation = 1;
  candidates = [];
  context_before = [];
  context_after = [];
  policy_version = codes "v1";
  deadline_ms = 100;
  baseline_latency_micros = 0;
}

abbrev admitted : GenerationToken
admitted = record {
  session_id = 7;
  generation = 1;
  address = 0;
  token_epoch = 1;
  field_class = FieldClass.regular;
  secure_field_policy = allow_local_only;
}

abbrev request : ℕ → ℕ → EnhancementJob
request id cancellation = record {
  envelope = record {
    version = 1;
    request_id = id;
    command = RequestCommand.rerank_candidates rerank;
  };
  token = admitted;
  cancellation = cancellation;
}

abbrev small_queue : EnhancementQueue
small_queue = record {
  capacity = 2;
  jobs = [];
  latest = [];
  is_closed = false;
  running = [];
  cancelled = [];
}

started : from_coordinator 2 1 true ≡ ok small_queue
unfolding from_coordinator
started = refl

abbrev first_taken : EnhancementQueue
first_taken = (pop_job (submit small_queue (request 10 0)).0).0

abbrev both : EnhancementQueue
both = (submit first_taken (request 11 1)).0

earlier_cancelled : contains 0 both.cancelled ≡ true
unfolding submit supersede pop_job session_id lookup insert remove contains
earlier_cancelled = refl

from_coordinator-Steps_example : IsOrderly both
from_coordinator-Steps_example =
    from_coordinator-Steps 2 1 true small_queue both started
      (moves (moves (moves stays (submits (request 10 0))) pops) (submits (request 11 1)))

worker_turns-submit_example :
    worker_turns 2 (close (submit (submit small_queue (request 10 0)).0 (request 11 1)).0)
    ≡ (request 10 0 ∷ request 11 1 ∷ [], queue_ended)
unfolding submit supersede session_id lookup insert remove
worker_turns-submit_example =
    worker_turns-submit (submit small_queue (request 10 0)).0 (request 11 1) refl (omega arith)
