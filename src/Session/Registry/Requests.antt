-- ===== src/Session/Registry/Requests.antt =====
-- The cancellation registry under whole requests to session.rs.
use kanai.Base.{
  ℕ, ◌==◌, ◌≡◌, refl, ap, ◌∙◌, lookup, remove, inl, inr, Bool-cases, Option-cases, Result-cases, ok,
  err,
}
use kanai.Protocol.Requests.{
  RequestCommand, RequestEnvelope, CancelRequest, FocusLostRequest, validate_request,
}
use kanai.Session.State.{SessionBroker, invalidate_all_sessions}
use kanai.Session.Begin.{
  Phase, begin_operation, begin_cancel_operation, begin_focus_lost, deactivate_on_ok, release,
  remove_if_same,
}
use kanai.Session.Create.{begin_create}
use kanai.Session.Finish.{
  Reply, finish_key, finish_edit, finish_convert, finish_commit, finish_cancel, finish_create,
}
use kanai.Session.Handle.{
  Backend, unwrap_or, proceed, with_entry, handle_create, handle_key, handle_edit, handle_convert,
  handle_commit, handle_cancel, handle_focus_lost, tear_down, handle_health, handle_generation,
  dispatch, handle, is_unavailable, checked_limit, reported,
}
use kanai.Session.Registry.{
  is_active, Alike, Enters, finish-Alike, begin_operation-Enters, begin_cancel_operation-Enters,
}
use kanai.Session.Registry.Creation.{begin_create-Enters, handle_prepare-cancellations}
use kanai.Session.Registry.Ends.{
  finish_key-cancellations, finish_edit-cancellations, finish_convert-cancellations,
  finish_commit-cancellations, finish_cancel-cancellations, finish_focus_lost-cancellations,
  finish_create-cancellations,
}

proceed-Alike :
    (b : SessionBroker) (r : ℕ) (p : Phase ℕ) (next : SessionBroker → ℕ → Reply)
    → Enters b r p
    → ((c : SessionBroker) (n : ℕ) → (next c n).0.cancellations ≡ remove r c.cancellations)
    → Alike b (proceed p next).0
proceed-Alike b r (c, ok n) next h k j = ap (is_active j) (k c n) ∙ finish-Alike b c r h j
proceed-Alike b r (c, err x) next h k j = h j

with_entry-Alike :
    (b : SessionBroker) (r id hint : ℕ) (next : ℕ → Reply)
    → ((a : ℕ) → Alike b (next a).0)
    → Alike b (with_entry b r id hint next).0
with_entry-Alike b r id hint next h j = elim (Option-cases (lookup id b.sessions)) [
  | inl e ↦ rw (e, with_entry) refl
  | inr (a, e) ↦ rw (e, with_entry) (h a j)
]

begun-Alike :
    (b : SessionBroker) (r id g : ℕ) (next : ℕ → SessionBroker → ℕ → Reply)
    → ((a : ℕ) (c : SessionBroker) (n : ℕ)
        → (next a c n).0.cancellations ≡ remove r c.cancellations)
    → Alike b (with_entry b r id g λ a. proceed (begin_operation b r id a g) (next a)).0
begun-Alike b r id g next h =
    with_entry-Alike b r id g (λ a. proceed (begin_operation b r id a g) (next a))
      λ a.
        proceed-Alike b r (begin_operation b r id a g) (next a) (begin_operation-Enters b r id a g)
          (h a)

cancel-Alike :
    (backend : Backend) (b : SessionBroker) (r : ℕ) (c : CancelRequest)
    → Alike b (handle_cancel backend b r c).0
unfolding handle_cancel
cancel-Alike backend b r c =
    let expected = λ (a : ℕ). unwrap_or c.generation (b.store a).clock in
    let next = λ (a : ℕ) (b1 : SessionBroker) (n : ℕ).
      finish_cancel b1 r a c (expected a) n (backend.execute (RequestCommand.cancel c)) in
    with_entry-Alike b r c.session_id (unwrap_or c.generation 0)
      (λ a. proceed (begin_cancel_operation b r a c) (next a))
      λ a.
        proceed-Alike b r (begin_cancel_operation b r a c) (next a)
          (begin_cancel_operation-Enters b r a c)
          (λ b1 n. finish_cancel-cancellations b1 r a c (expected a) n _)

release-cancellations :
    (b : SessionBroker) (id a : ℕ) → (release b id a).cancellations ≡ b.cancellations
unfolding release
release-cancellations b id a = elim (Option-cases (lookup id b.sessions)) [
  | inl e ↦ rw (e, remove_if_same) refl
  | inr (d, e) ↦ elim (Bool-cases (d == a)) [
    | inl f ↦ rw (e, f, remove_if_same) refl
    | inr f ↦ rw (e, f, remove_if_same) refl
  ]
]

teardown-Alike :
    (backend : Backend) (b : SessionBroker) (r a : ℕ) (c : FocusLostRequest) (p : Phase ℕ)
    → Enters b r p
    → Alike b (proceed (deactivate_on_ok a p) (tear_down backend r c)).0
unfolding tear_down
teardown-Alike backend b r a c (d, ok n) h j =
    ap (is_active j) (finish_focus_lost-cancellations _ r c n _) ∙ finish-Alike b d r h j
teardown-Alike backend b r a c (d, err x) h j = h j

released-Alike :
    (backend : Backend) (b : SessionBroker) (r a : ℕ) (c : FocusLostRequest)
    → Alike b (proceed (begin_focus_lost b r a c) (tear_down backend r c)).0
unfolding begin_focus_lost tear_down
released-Alike backend b r a c j = elim (Bool-cases (b.store a).rerank_only) [
  | inr e ↦
      rw (e, begin_focus_lost)
        (teardown-Alike backend b r a c (begin_operation b r c.session_id a c.generation)
          (begin_operation-Enters b r c.session_id a c.generation) j)
  | inl e ↦ elim (Bool-cases ((b.store a).clock == c.generation)) [
    | inl f ↦
        rw (e, f, begin_focus_lost) (ap (is_active j) (release-cancellations b c.session_id a))
    | inr f ↦ rw (e, f, begin_focus_lost) refl
  ]
]

dispatch-Alike :
    (backend : Backend) (b : SessionBroker) (r : ℕ) (command : RequestCommand)
    → Alike b (dispatch backend b r command).0
unfolding dispatch handle_create handle_key handle_edit handle_convert handle_commit
    handle_focus_lost handle_health handle_generation invalidate_all_sessions
dispatch-Alike backend b r (RequestCommand.create_session c) =
    proceed-Alike b r (begin_create b r c)
      (λ b1 a. finish_create b1 r c (backend.execute (RequestCommand.create_session c)))
      (begin_create-Enters b r c) (λ b1 a. finish_create-cancellations b1 r c _)
dispatch-Alike backend b r (RequestCommand.prepare_rerank_session c) =
    λ j. ap (is_active j) (handle_prepare-cancellations backend b r c)
dispatch-Alike backend b r (RequestCommand.key c) =
    begun-Alike b r c.session_id c.generation
      (λ a b1 n. finish_key b1 r a c n (backend.execute (RequestCommand.key c)))
      (λ a b1 n. finish_key-cancellations b1 r a c n _)
dispatch-Alike backend b r (RequestCommand.edit c) =
    begun-Alike b r c.session_id c.generation
      (λ a b1 n. finish_edit b1 r a c n (backend.execute (RequestCommand.edit c)))
      (λ a b1 n. finish_edit-cancellations b1 r a c n _)
dispatch-Alike backend b r (RequestCommand.convert c) =
    begun-Alike b r c.session_id c.generation
      (λ a b1 n.
        finish_convert b1 r a c n
          (backend.execute (RequestCommand.convert (record c { generation = n }))))
      (λ a b1 n. finish_convert-cancellations b1 r a c n _)
dispatch-Alike backend b r (RequestCommand.commit c) =
    begun-Alike b r c.session_id c.generation
      (λ a b1 n. finish_commit b1 r a c n (backend.execute (RequestCommand.commit c)))
      (λ a b1 n. finish_commit-cancellations b1 r a c n _)
dispatch-Alike backend b r (RequestCommand.cancel c) = cancel-Alike backend b r c
dispatch-Alike backend b r (RequestCommand.focus_lost c) =
    with_entry-Alike b r c.session_id c.generation
      (λ a. proceed (begin_focus_lost b r a c) (tear_down backend r c))
      (λ a. released-Alike backend b r a c)
dispatch-Alike backend b r RequestCommand.health = λ j.
    elim (Bool-cases (is_unavailable (checked_limit (reported backend)).status)) [
      | inl e ↦ rw (e, handle_health) refl
      | inr e ↦ rw (e, handle_health) refl
    ]
dispatch-Alike backend b r (RequestCommand.generation c) = λ j.
    elim (Option-cases (lookup c.session_id b.sessions)) [
      | inl e ↦ rw (e, handle_generation) refl
      | inr (a, e) ↦ rw (e, handle_generation) refl
    ]
dispatch-Alike backend b r (RequestCommand.rerank_candidates c) = λ j. refl
dispatch-Alike backend b r (RequestCommand.semantic_assist c) = λ j. refl

-- Whatever is asked, and whatever the backend answers, on success and on every error: when a
-- request has been handled, the same requests are active as before, so that no registration is
-- left behind and none of another request is taken away.
pub handle-Alike :
    (backend : Backend) (b : SessionBroker) (envelope : RequestEnvelope)
    → Alike b (handle backend b envelope).0
unfolding handle
handle-Alike backend b envelope j = elim (Result-cases (validate_request envelope)) [
  | inl (u, e) ↦ rw (e, handle) (dispatch-Alike backend b envelope.request_id envelope.command j)
  | inr (x, e) ↦ rw (e, handle) refl
]
