-- ===== src/Session/Create.antt =====
-- The requests of session.rs that make a session: `create_session` up to the call of the backend, and
-- `prepare_rerank_session`.
use kanai.Base.{
  ℕ, Bool, true, false, not, none, some, ltb, leb, if◌then◌else◌, length, ok, err, lookup, insert,
  remove, contains, list_eq,
}
use kanai.Protocol.Requests.{
  FieldClass, regular, password, protected, search_field, email, number, other,
  CreateSessionRequest, PrepareRerankSessionRequest,
}
use kanai.Protocol.Responses.{
  invalid_request, backend_unavailable, already_exists, no_fallback, direct_input, literal,
  ResponseEnvelope, succeed, ResponsePayload, Message,
}
use kanai.Session.State.{
  SessionBroker, SessionEntry, new_entry, new_rerank_only, write, allocate, register, finish, fail,
  duplicate_request, stale_failure,
}
use kanai.Session.Begin.{Phase, advance}

abbrev invalidated_message : Message
invalidated_message = literal "session id was invalidated; create a new session id"

-- `sessions.insert(session_id, Arc::clone(&entry))` for a new entry.
abbrev pub insert_entry : SessionBroker → ℕ → SessionEntry → SessionBroker
insert_entry b session_id e = record (allocate b e) {
  sessions = insert session_id b.next_address b.sessions;
}

-- `register` of `create_session`, which takes the session out again when it fails.
abbrev pub register_created : SessionBroker × Bool → ℕ → ℕ → ℕ → Phase ℕ
register_created (b, true) request_id session_id address = (b, ok address)
register_created (b, false) request_id session_id address = (
  record b { sessions = remove session_id b.sessions },
  err (
      fail request_id (some 0) invalid_request (literal "request id is already active")
        no_fallback),
)

-- `create_session` with the sessions locked; the result is the address of the new entry.
abbrev pub insert_created : SessionBroker → ℕ → CreateSessionRequest → Phase ℕ
insert_created b request_id command =
    let id = command.session_id in
    elim (lookup id b.sessions) [
      | some a ↦ (
        b,
        err (
            fail request_id (some 0) already_exists (literal "session already exists") no_fallback),
      )
      | none ↦
          if leb b.config.max_sessions (length b.sessions)
          then (
            b,
            err (
                fail request_id none backend_unavailable (literal "session limit reached")
                  no_fallback),
          )
          else (insert_entry b id (new_entry command.field_class), ok b.next_address)
    ]

abbrev pub register_inserted : Phase ℕ → ℕ → ℕ → Phase ℕ
register_inserted (b, ok address) request_id session_id =
    register_created (register b request_id) request_id session_id address
register_inserted (b, err response) request_id session_id = (b, err response)

-- `create_session` up to the call of the backend, when nothing runs between its parts: the test of
-- the tombstones, the insertion and the registration.
unfoldable pub begin_create : SessionBroker → ℕ → CreateSessionRequest → Phase ℕ
unfolding register
begin_create b request_id command =
    let id = command.session_id in
    if contains id b.invalidated
    then (b, err (fail request_id (some 0) backend_unavailable invalidated_message direct_input))
    else register_inserted (insert_created b request_id command) request_id id

-- `prepare_rerank_session` with the sessions locked; the result is the entry's address.
abbrev pub insert_prepared : SessionBroker → ℕ → PrepareRerankSessionRequest → Phase ℕ
insert_prepared b request_id command =
    let id = command.session_id in
    elim (lookup id b.sessions) [
      | some a ↦ (b, ok a)
      | none ↦
          if leb b.config.max_sessions (length b.sessions)
          then (
            b,
            err (
                fail request_id (some command.generation) backend_unavailable
                  (literal "session limit reached") no_fallback),
          )
          else (insert_entry b id (new_rerank_only command.field_class), ok b.next_address)
    ]

-- `prepare_rerank_session` up to the operation lock, when nothing runs between the test of the
-- tombstones and the insertion.
unfoldable pub prepare_entry : SessionBroker → ℕ → PrepareRerankSessionRequest → Phase ℕ
prepare_entry b request_id command =
    if contains command.session_id b.invalidated
    then (
      b,
      err (
          fail request_id (some command.generation) backend_unavailable invalidated_message
            direct_input),
    )
    else insert_prepared b request_id command

-- The derived equality of field classes.
unfoldable pub field_class_eq : FieldClass → FieldClass → Bool
field_class_eq regular regular = true
field_class_eq password password = true
field_class_eq protected protected = true
field_class_eq search_field search_field = true
field_class_eq email email = true
field_class_eq number number = true
field_class_eq (other a) (other b) = list_eq a b
field_class_eq _ _ = false

-- A later generation is adopted.
unfoldable pub adopted : SessionBroker → ℕ → ℕ → SessionBroker
adopted b address generation =
    let b1 = advance b address generation in
    if ltb (b.store address).clock generation
    then write b1 address (record (b1.store address) { active = true })
    else b

-- The end of `prepare_rerank_session`: an earlier generation is refused.
unfoldable pub adopt_generation :
    SessionBroker → ℕ → ℕ → PrepareRerankSessionRequest → SessionBroker × ResponseEnvelope
unfolding succeed
adopt_generation b request_id address command =
    let current = (b.store address).clock in
    let b1 = adopted b address command.generation in
    if ltb command.generation current
    then (b, stale_failure request_id command.session_id command.generation current)
    else (
      b1,
      succeed request_id (
          ResponsePayload.generation
            (record { session_id = command.session_id; generation = (b1.store address).clock })),
    )

abbrev pub prepare_registered :
    SessionBroker × Bool → ℕ → ℕ → PrepareRerankSessionRequest → SessionBroker × ResponseEnvelope
prepare_registered (b, true) request_id address command =
    adopt_generation (finish b request_id) request_id address command
prepare_registered (b, false) request_id address command = (b, duplicate_request request_id)

-- `prepare_rerank_session` with the operation lock held. The registration and the `finish`
-- behind it leave the registry as it was.
unfoldable pub prepare_locked :
    SessionBroker → ℕ → ℕ → PrepareRerankSessionRequest → SessionBroker × ResponseEnvelope
unfolding register adopt_generation field_class_eq
prepare_locked b request_id address command =
    let e = b.store address in
    let hint = some command.generation in
    if not e.rerank_only
    then (
      b,
      fail request_id hint invalid_request
          (literal "a full Mozc session cannot be adopted as a rerank-only session") no_fallback,
    )
    else if not (field_class_eq e.field_class command.field_class)
    then (
      b,
      fail request_id hint invalid_request
          (literal "field class cannot change for a rerank session") no_fallback,
    )
    else prepare_registered (register b request_id) request_id address command
