-- ===== src/Session/Isolation/Peers.antt =====
-- Whole requests to session.rs, also of authenticated peers, and the entries of other sessions.
use kanai.Base.{
  list_eq_iff, ℕ, ◌==◌, ==_iff, true, false, none, some, ◌≡◌, ◌≢◌, refl, ap, lookup, inl, inr,
  Bool-cases, Option-cases, Result-cases, arith,
}
use kanai.Protocol.Text.{Text}
use kanai.Protocol.Requests.{RequestCommand, RequestEnvelope, session_id, validate_request}
use kanai.Protocol.Responses.{ResponsePayload, success}
use kanai.Session.State.{SessionBroker, SessionEntry, write}
use kanai.Session.Tokens.{bind_session_owner, session_owned_by, text_empty}
use kanai.Session.Begin.{begin_focus_lost}
use kanai.Session.Create.{begin_create}
use kanai.Session.Finish.{Reply, finish_key, finish_edit, finish_convert, finish_commit}
use kanai.Session.Handle.{
  Backend, proceed, handle_create, handle_key, handle_edit, handle_convert, handle_commit,
  handle_focus_lost, tear_down, dispatch, handle, handle_for_peer, bind_created, owned_by,
  guarded_session, makes_session,
}
use kanai.Session.Invariant.{IsValid}
use kanai.Session.Isolation.Loss.{IsLoss}
use kanai.Session.Isolation.{Spared, Spared-map, write-Holds}
use kanai.Session.Isolation.Starts.{begin_focus_lost-Holds}
use kanai.Session.Isolation.Creation.{begin_create-Holds, handle_prepare-Holds}
use kanai.Session.Isolation.Ends.{
  finish_key-Spared, finish_edit-Spared, finish_convert-Spared, finish_commit-Spared,
}
use kanai.Session.Isolation.Requests.{
  with_entry-Spared, begun-Spared, cancel-Spared, tear_down-Spared, create-Spared, health-Spared,
  generation-Spared, valid-Apart,
}

differ : (j id : ℕ) → j ≢ id → j == id ≡ false
differ j id h = elim (Bool-cases (j == id)) [
  | inl same ↦ absurd (h ((==_iff j id).0 same))
  | inr other ↦ other
]

fresh_address :
    (b : SessionBroker) (id x : ℕ)
    → IsValid b
    → lookup id b.sessions ≡ some x
    → b.next_address == x ≡ false
fresh_address b id x v live = ground (arith, v.known id x live)

dispatch-Spared :
    (backend : Backend) (b : SessionBroker) (r : ℕ) (command : RequestCommand) (id x : ℕ)
    → IsValid b
    → lookup id b.sessions ≡ some x
    → session_id command ≢ some id
    → Spared (IsLoss backend command) (b.store x) x id (dispatch backend b r command).0
unfolding dispatch handle_create handle_key handle_edit handle_convert handle_commit
    handle_focus_lost session_id
dispatch-Spared backend b r (RequestCommand.create_session c) id x v live away =
    let other = λ (k : c.session_id ≡ id). away (ap some k) in
    create-Spared (IsLoss backend (RequestCommand.create_session c)) (b.store x) x id backend r c
      (begin_create b r c)
      (begin_create-Holds (b.store x) x id b r c (differ c.session_id id other)
        (fresh_address b id x v live) (live, refl))
      (λ loss. (0, loss))
dispatch-Spared backend b r (RequestCommand.prepare_rerank_session c) id x v live away =
    let other = λ (k : c.session_id ≡ id). away (ap some k) in
    inr (
      handle_prepare-Holds (b.store x) x id backend b r c (differ c.session_id id other)
        (fresh_address b id x v live) (valid-Apart b x id c.session_id v live other) (live, refl))
dispatch-Spared backend b r (RequestCommand.key c) id x v live away =
    let other = λ (k : c.session_id ≡ id). away (ap some k) in
    begun-Spared (IsLoss backend (RequestCommand.key c)) (b.store x) x id b r c.session_id
      c.generation (λ a b1 n. finish_key b1 r a c n (backend.execute (RequestCommand.key c)))
      (valid-Apart b x id c.session_id v live other) (live, refl)
      (λ a b1 n apart off h.
        Spared-map (λ loss. (n, loss))
          (finish_key-Spared (b.store x) x id b1 r a c n _ apart off h))
dispatch-Spared backend b r (RequestCommand.edit c) id x v live away =
    let other = λ (k : c.session_id ≡ id). away (ap some k) in
    begun-Spared (IsLoss backend (RequestCommand.edit c)) (b.store x) x id b r c.session_id
      c.generation (λ a b1 n. finish_edit b1 r a c n (backend.execute (RequestCommand.edit c)))
      (valid-Apart b x id c.session_id v live other) (live, refl)
      (λ a b1 n apart off h.
        Spared-map (λ loss. (n, loss))
          (finish_edit-Spared (b.store x) x id b1 r a c n _ apart off h))
dispatch-Spared backend b r (RequestCommand.convert c) id x v live away =
    let other = λ (k : c.session_id ≡ id). away (ap some k) in
    begun-Spared (IsLoss backend (RequestCommand.convert c)) (b.store x) x id b r c.session_id
      c.generation
      (λ a b1 n.
        finish_convert b1 r a c n
          (backend.execute (RequestCommand.convert (record c { generation = n }))))
      (valid-Apart b x id c.session_id v live other) (live, refl)
      (λ a b1 n apart off h.
        Spared-map (λ loss. (n, loss))
          (finish_convert-Spared (b.store x) x id b1 r a c n _ apart off h))
dispatch-Spared backend b r (RequestCommand.commit c) id x v live away =
    let other = λ (k : c.session_id ≡ id). away (ap some k) in
    begun-Spared (IsLoss backend (RequestCommand.commit c)) (b.store x) x id b r c.session_id
      c.generation (λ a b1 n. finish_commit b1 r a c n (backend.execute (RequestCommand.commit c)))
      (valid-Apart b x id c.session_id v live other) (live, refl)
      (λ a b1 n apart off h.
        Spared-map (λ loss. (n, loss)) (finish_commit-Spared (b.store x) x id b1 r a c n _ off h))
dispatch-Spared backend b r (RequestCommand.cancel c) id x v live away =
    let other = λ (k : c.session_id ≡ id). away (ap some k) in
    cancel-Spared (IsLoss backend (RequestCommand.cancel c)) (b.store x) x id backend b r c
      (valid-Apart b x id c.session_id v live other) (live, refl) (λ n loss. (n, loss))
dispatch-Spared backend b r (RequestCommand.focus_lost c) id x v live away =
    let other = λ (k : c.session_id ≡ id). away (ap some k) in
    let off = differ c.session_id id other in
    with_entry-Spared (IsLoss backend (RequestCommand.focus_lost c)) (b.store x) x id b r
      c.session_id c.generation (λ a. proceed (begin_focus_lost b r a c) (tear_down backend r c))
      (valid-Apart b x id c.session_id v live other) (live, refl)
      (λ a apart.
        tear_down-Spared (IsLoss backend (RequestCommand.focus_lost c)) (b.store x) x id backend r c
          (begin_focus_lost b r a c) off
          (begin_focus_lost-Holds (b.store x) x id b r a c off apart (live, refl))
          (λ n loss. (n, loss)))
dispatch-Spared backend b r RequestCommand.health id x v live away =
    health-Spared (IsLoss backend (RequestCommand.health)) (b.store x) x id backend b r (live, refl)
      (λ loss. loss)
dispatch-Spared backend b r (RequestCommand.generation c) id x v live away =
    generation-Spared (IsLoss backend (RequestCommand.generation c)) (b.store x) x id backend b r c
      (live, refl)
dispatch-Spared backend b r (RequestCommand.rerank_candidates c) id x v live away = inr (live, refl)
dispatch-Spared backend b r (RequestCommand.semantic_assist c) id x v live away = inr (live, refl)

-- In a valid state, a request leaves every live session alone that it is not about: whatever the
-- backend answers, that session keeps its entry as it was (state, generation, epoch and owner). Only
-- on an answer of the backend that is a loss (`IsLoss`: an error on which the request gives up, an
-- answer that is not acceptable, a report of unavailability) it goes, and then all sessions are given
-- up and its id is tombstoned.
pub handle-Spared :
    (backend : Backend) (b : SessionBroker) (envelope : RequestEnvelope) (id x : ℕ)
    → IsValid b
    → lookup id b.sessions ≡ some x
    → session_id envelope.command ≢ some id
    → Spared (IsLoss backend envelope.command) (b.store x) x id (handle backend b envelope).0
unfolding handle
handle-Spared backend b envelope id x v live away =
    elim (Result-cases (validate_request envelope)) [
      | inl (u, f) ↦
          rw (f, handle)
            (dispatch-Spared backend b envelope.request_id envelope.command id x v live away)
      | inr (y, f) ↦ rw (f, handle) (inr (live, refl))
    ]

bind_session_owner-Spared :
    (Loss : Type 0) (e : SessionEntry) (x id : ℕ) (owner : Text) (b : SessionBroker) (j : ℕ)
    (peer : Text)
    → e.owner ≡ some owner
    → Spared Loss e x id b
    → Spared Loss e x id (bind_session_owner b j peer).0
unfolding bind_session_owner
bind_session_owner-Spared Loss e x id owner b j peer has h = elim (Bool-cases (text_empty peer)) [
  | inl f ↦ rw (f, bind_session_owner) h
  | inr f ↦ elim (Option-cases (lookup j b.sessions)) [
    | inl g ↦ rw (f, g, bind_session_owner) h
    | inr (a, g) ↦ elim (Option-cases (b.store a).owner) [
      | inr (o, k) ↦ rw (f, g, k, bind_session_owner) h
      | inl k ↦ rw (f, g, k, bind_session_owner) (bound a k h)
    ]
  ]
]
  where
    bound :
        (a : ℕ)
        → (b.store a).owner ≡ none
        → Spared Loss e x id b
        → Spared Loss e x id (write b a (record (b.store a) { owner = some peer }))
    bound a k (inl gone) = inl gone
    bound a k (inr (live, same)) = elim (Bool-cases (a == x)) [
      | inl g ↦ absurd (
          ground
            (arith, ap (λ c. (b.store c).owner) ((==_iff a x).0 g), k, ap (λ c. c.owner) same, has))
      | inr g ↦ inr (write-Holds e x id b a _ g (live, same))
    ]

bind_created-Spared :
    (Loss : Type 0) (e : SessionEntry) (x id : ℕ) (owner peer : Text) (reply : Reply)
    → e.owner ≡ some owner
    → Spared Loss e x id reply.0
    → Spared Loss e x id (bind_created peer reply).0
bind_created-Spared Loss e x id owner peer (c, response) has h =
    elim response.outcome
      as (λ o. Spared Loss e x id (bind_created peer (c, record response { outcome = o })).0) [
        | success (ResponsePayload.created r) ↦
            bind_session_owner-Spared Loss e x id owner c r.session_id peer has h
        | success (ResponsePayload.generation r) ↦
            bind_session_owner-Spared Loss e x id owner c r.session_id peer has h
        | _ ↦ h
      ]

not_owned :
    (b : SessionBroker) (command : RequestCommand) (id x : ℕ) (owner peer : Text)
    → lookup id b.sessions ≡ some x
    → (b.store x).owner ≡ some owner
    → owner ≢ peer
    → session_id command ≡ some id
    → makes_session command ≡ false
    → ¬ (owned_by b (guarded_session command) peer ≡ true)
unfolding guarded_session session_owned_by
not_owned b command id x owner peer live has differs about guards owned =
    differs ((list_eq_iff owner peer).0 (ground (arith, live, has, about, guards, owned)))

-- In a valid state, what a peer asks for leaves every live session of another peer alone: the
-- session keeps its entry as it was, or the backend's answer is a loss, all sessions are given up and
-- its id is tombstoned. The exceptions are the requests that make a session, when they name that very session.
pub handle_for_peer-Spared :
    (backend : Backend) (b : SessionBroker) (envelope : RequestEnvelope) (id x : ℕ)
    → (owner peer : Text) → IsValid b
    → lookup id b.sessions ≡ some x
    → (b.store x).owner ≡ some owner
    → owner ≢ peer
    → (session_id envelope.command ≡ some id → makes_session envelope.command ≡ false)
    → Spared
        (IsLoss backend envelope.command)
        (b.store x)
        x
        id
        (handle_for_peer backend b envelope peer).0
unfolding handle_for_peer
handle_for_peer-Spared backend b envelope id x owner peer v live has differs guards =
    elim (Bool-cases (owned_by b (guarded_session envelope.command) peer)) [
      | inr f ↦ rw (f, handle_for_peer) (inr (live, refl))
      | inl f ↦
          rw (f, handle_for_peer)
            (bind_created-Spared (IsLoss backend envelope.command) (b.store x) x id owner peer
              (handle backend b envelope) has
              (handle-Spared backend b envelope id x v live (λ about.
                not_owned b envelope.command id x owner peer live has differs about (guards about)
                  f)))
    ]
