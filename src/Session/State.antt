-- ===== src/Session/State.antt =====
-- The state of the session broker, and the helpers of session.rs that read and write it.
use kanai.Base.{
  ℕ, ◌+◌, Bool, true, false, Option, none, some, List, [], ◌∷◌, ◌++◌, map, ◌==◌, if◌then◌else◌,
  lookup, insert, remove, update,
}
use kanai.Protocol.Text.{Text, ValidationError, unsupported_version}
use kanai.Protocol.Candidates.{CompositionState}
use kanai.Protocol.Requests.{FieldClass, protocol_version}
use kanai.Protocol.Responses.{
  ErrorCode, invalid_request, wrong_version, unknown_session_code, stale_generation,
  backend_unavailable, FallbackMode, no_fallback, direct_input, Message, literal, request_active,
  session_missing, generation_is_stale, invalid, ResponseEnvelope, failure,
}

pub data FallbackPolicy : Type 0 where
  to_direct_input to_last_valid_preedit : FallbackPolicy

pub record BrokerConfig : Type 0 where
  pub fallback : FallbackPolicy
  pub max_sessions : ℕ

-- `SessionEntry` with its `SessionData`.
pub record SessionEntry : Type 0 where
  pub last_valid : Option CompositionState
  pub owner : Option Text
  pub clock : ℕ
  pub epoch : ℕ
  pub active : Bool
  pub field_class : FieldClass
  pub rerank_only : Bool

abbrev pub new_entry : FieldClass → SessionEntry
new_entry field_class = record {
  last_valid = none;
  owner = none;
  clock = 0;
  epoch = 0;
  active = true;
  field_class = field_class;
  rerank_only = false;
}

abbrev pub new_rerank_only : FieldClass → SessionEntry
new_rerank_only field_class = record (new_entry field_class) { rerank_only = true }

-- `store` holds the entries that were ever made, at the addresses below `next_address`.
pub record SessionBroker : Type 0 where
  pub config : BrokerConfig
  pub store : ℕ → SessionEntry
  pub next_address : ℕ
  pub sessions : List (ℕ × ℕ)
  pub invalidated : List ℕ
  -- The registry: the requests that are active, and whether each was cancelled.
  pub cancellations : List (ℕ × Bool)

unfoldable pub with_config : BrokerConfig → SessionBroker
with_config config = record {
  config = config;
  store = λ a. new_entry FieldClass.regular;
  next_address = 0;
  sessions = [];
  invalidated = [];
  cancellations = [];
}

abbrev pub write : SessionBroker → ℕ → SessionEntry → SessionBroker
write b address e = record b { store = update b.store address e }

-- `Arc::new`
abbrev pub allocate : SessionBroker → SessionEntry → SessionBroker
allocate b e = record b {
  store = update b.store b.next_address e;
  next_address = b.next_address + 1;
}

-- `CancellationRegistry::register`; false stands for the error `DuplicateRequest`.
unfoldable pub register : SessionBroker → ℕ → SessionBroker × Bool
register b request_id = elim (lookup request_id b.cancellations) [
  | some token ↦ (b, false)
  | none ↦ (record b { cancellations = insert request_id false b.cancellations }, true)
]

abbrev pub finish : SessionBroker → ℕ → SessionBroker
finish b request_id = record b { cancellations = remove request_id b.cancellations }

-- `CancellationRegistry::cancel`
unfoldable pub cancel_request : SessionBroker → ℕ → SessionBroker × Bool
cancel_request b request_id = elim (lookup request_id b.cancellations) [
  | some token ↦ (record b { cancellations = insert request_id true b.cancellations }, true)
  | none ↦ (b, false)
]

-- The free function `failure` of session.rs.
unfoldable pub fail : ℕ → Option ℕ → ErrorCode → Message → FallbackMode → ResponseEnvelope
fail request_id generation code message fallback = record {
  version = protocol_version;
  request_id = request_id;
  generation = generation;
  outcome = failure (record {
    code = code;
    message = message;
    retryable = false;
    fallback = fallback;
    current_generation = generation;
  });
}

abbrev pub duplicate_request : ℕ → ResponseEnvelope
duplicate_request request_id =
    fail request_id none invalid_request (request_active request_id) no_fallback

abbrev pub unknown_session : ℕ → ℕ → ℕ → ResponseEnvelope
unknown_session request_id session_id generation =
    fail request_id (some generation) unknown_session_code (session_missing session_id) no_fallback

abbrev pub stale_failure : ℕ → ℕ → ℕ → ℕ → ResponseEnvelope
stale_failure request_id session_id expected current =
    fail request_id (some current) stale_generation
      (generation_is_stale expected session_id current) no_fallback

unfoldable pub validation_code : ValidationError → ErrorCode
validation_code (unsupported_version expected actual) = wrong_version
validation_code _ = invalid_request

unfoldable pub validation_failure : ℕ → Option ℕ → ValidationError → ResponseEnvelope
unfolding validation_code
validation_failure request_id generation error =
    fail request_id generation (validation_code error) (invalid error) no_fallback

unfoldable pub deactivate : List (ℕ × ℕ) → (ℕ → SessionEntry) → ℕ → SessionEntry
deactivate [] store = store
deactivate ((id, a) ∷ sessions) store =
    deactivate sessions (update store a (record (store a) { active = false; last_valid = none }))

-- The parts of `invalidate_all_sessions`, between which it holds no lock: the sessions are drained,
-- their entries are deactivated, their ids are tombstoned.
abbrev pub drain : SessionBroker → SessionBroker
drain b = record b { sessions = [] }

abbrev pub deactivate_entries : SessionBroker → List (ℕ × ℕ) → SessionBroker
deactivate_entries b entries = record b { store = deactivate entries b.store }

abbrev pub tombstone : SessionBroker → List ℕ → SessionBroker
tombstone b ids = record b { invalidated = ids ++ b.invalidated }

-- `invalidate_all_sessions` when nothing runs between its parts.
unfoldable pub invalidate_all_sessions : SessionBroker → SessionBroker
unfolding deactivate
invalidate_all_sessions b =
    tombstone (deactivate_entries (drain b) b.sessions) (map (λ s. s.0) b.sessions)

-- `invalidate_session`
unfoldable pub invalidate_session : SessionBroker → ℕ → ℕ → SessionBroker × ResponseEnvelope
invalidate_session b request_id generation = (
  invalidate_all_sessions b,
  fail request_id (some generation) backend_unavailable
      (literal "Mozc session invalidated after backend failure") direct_input,
)

-- `rollback_state_change`: a compare-and-exchange of the clock; the epoch stays advanced.
unfoldable pub rollback_state_change : SessionBroker → ℕ → ℕ → ℕ → SessionBroker
rollback_state_change b address expected attempted =
    let e = b.store address in
    if e.clock == attempted then write b address (record e { clock = expected }) else b

unfoldable pub remember_state : SessionBroker → ℕ → CompositionState → SessionBroker
remember_state b session_id state = elim (lookup session_id b.sessions) [
  | none ↦ b
  | some a ↦ write b a (record (b.store a) { last_valid = some state })
]

unfoldable pub clear_state : SessionBroker → ℕ → ℕ → SessionBroker
clear_state b session_id address = elim (lookup session_id b.sessions) [
  | none ↦ b
  | some a ↦ if a == address then write b a (record (b.store a) { last_valid = none }) else b
]

unfoldable pub fallback_state : SessionBroker → ℕ → Option CompositionState
fallback_state b session_id = elim b.config.fallback [
  | to_direct_input ↦ none
  | to_last_valid_preedit ↦ elim (lookup session_id b.sessions) [
    | none ↦ none
    | some a ↦ (b.store a).last_valid
  ]
]
