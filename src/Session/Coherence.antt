-- ===== src/Session/Coherence.antt =====
-- The generations that the replies of session.rs name, beside those of the sessions.
pub mod Starts
pub mod Ends
pub mod Creation
pub mod Requests
use kanai.Base.{ℕ, Option, none, some, ◌≡◌, lookup}
use kanai.Protocol.Responses.{ResponseEnvelope, success, failure, payload_generation}
use kanai.Session.State.{SessionBroker}
use kanai.Session.Finish.{Reply}

abbrev pub Names : Option ℕ → ℕ → SessionBroker → Type 0
Names none id b = Unit
Names (some n) id b = (a : ℕ) → lookup id b.sessions ≡ some a → (b.store a).clock ≡ n

-- A success that names a generation names the one that the session then has, if it is live.
abbrev pub Coherent : ℕ → Reply → Type 0
Coherent id (b, response) = elim response.outcome [
  | success payload ↦ Names (payload_generation payload) id b
  | failure error ↦ Unit
]
