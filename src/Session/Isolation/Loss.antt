-- ===== src/Session/Isolation/Loss.antt =====
-- The answers of the backend on which session.rs gives all sessions up.
use kanai.Base.{ℕ, Bool, true, false, ◌&&◌, not, ◌==◌, ◌≡◌, ok, err}
use kanai.Protocol.Requests.{RequestCommand}
use kanai.Protocol.Responses.{ResponsePayload, validate_payload, no_fallback}
use kanai.Session.Finish.{BackendResult, cancelled, rejected, session_invalidated, passes}
use kanai.Session.Handle.{Backend, is_unavailable, checked_limit, reported}

-- The payload is about the command's session and passes the checks of the wire, once it has the
-- generation that the operation began.
abbrev pub acceptable : RequestCommand → ℕ → ResponsePayload → Bool
acceptable (RequestCommand.key c) n (ResponsePayload.key p) =
    (p.session_id == c.session_id)
    && passes (
        validate_payload
          (ResponsePayload.key (record p { generation = n; fallback = no_fallback })))
acceptable (RequestCommand.edit c) n (ResponsePayload.edit p) =
    (p.session_id == c.session_id)
    && passes (
        validate_payload
          (ResponsePayload.edit (record p { generation = n; fallback = no_fallback })))
acceptable (RequestCommand.convert c) n (ResponsePayload.convert p) =
    (p.session_id == c.session_id)
    && passes (
        validate_payload
          (ResponsePayload.convert (record p { generation = n; fallback = no_fallback })))
acceptable (RequestCommand.commit c) n (ResponsePayload.commit p) =
    (p.session_id == c.session_id)
    && passes (validate_payload (ResponsePayload.commit (record p { generation = n })))
acceptable (RequestCommand.cancel c) n p = true
acceptable _ n p = false

-- A request that types gives up on every error but a cancellation and a rejection, and on a payload
-- that is not acceptable; one that makes or ends a session only when the backend has lost its
-- sessions.
abbrev pub gives_up : RequestCommand → ℕ → BackendResult → Bool
gives_up (RequestCommand.create_session c) n (err session_invalidated) = true
gives_up (RequestCommand.create_session c) n _ = false
gives_up (RequestCommand.focus_lost c) n (err session_invalidated) = true
gives_up (RequestCommand.focus_lost c) n _ = false
gives_up command n (ok p) = not (acceptable command n p)
gives_up command n (err cancelled) = false
gives_up command n (err rejected) = false
gives_up command n (err e) = true

-- What the backend is asked.
abbrev pub asked : RequestCommand → ℕ → RequestCommand
asked (RequestCommand.convert c) n = RequestCommand.convert (record c { generation = n })
asked command n = command

-- The backend's answer to this command is one on which all sessions are given up.
abbrev pub IsLoss : Backend → RequestCommand → Type 0
IsLoss backend RequestCommand.health =
    is_unavailable (checked_limit (reported backend)).status ≡ true
IsLoss backend command = (n : ℕ) × (gives_up command n (backend.execute (asked command n)) ≡ true)
