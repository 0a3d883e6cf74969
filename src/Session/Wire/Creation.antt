-- ===== src/Session/Wire/Creation.antt =====
-- The checks of the wire on the replies of session.rs to requests that make a session.
use kanai.Base.{
  ℕ, Bool, true, false, lookup, inl, inr, Bool-cases, Option-cases, contains, leb, ltb, length,
}
use kanai.Protocol.Requests.{CreateSessionRequest, PrepareRerankSessionRequest}
use kanai.Protocol.Responses.{succeed}
use kanai.Session.State.{SessionBroker, register, finish, fail, new_entry, new_rerank_only}
use kanai.Session.Create.{
  insert_created, insert_prepared, begin_create, register_created, insert_entry, prepare_entry,
  prepare_locked, prepare_registered, adopt_generation, field_class_eq,
}
use kanai.Session.Finish.{Reply}
use kanai.Session.Handle.{Backend, proceed, handle_create, handle_prepare}
use kanai.Protocol.Responses.{validate_payload}
use kanai.Session.Wire.{Encodable, IsId}
use kanai.Session.Wire.Ends.{finish_create-Encodable}

register_created-Encodable :
    (p : SessionBroker × Bool) (r id a : ℕ) (next : SessionBroker → ℕ → Reply)
    → ((d : SessionBroker) → Encodable (next d a).1)
    → Encodable (proceed (register_created p r id a) next).1
unfolding fail
register_created-Encodable (d, true) r id a next h = h d
register_created-Encodable (d, false) r id a next h = tt

pub create-Encodable :
    (backend : Backend) (b : SessionBroker) (r : ℕ) (c : CreateSessionRequest)
    → IsId c.session_id
    → Encodable (handle_create backend b r c).1
unfolding handle_create begin_create fail
create-Encodable backend b r c known = elim (Bool-cases (contains c.session_id b.invalidated)) [
  | inl e ↦ rw (e, begin_create) tt
  | inr e ↦ elim (Option-cases (lookup c.session_id b.sessions)) [
    | inr (a, f) ↦ rw (e, f, insert_created, begin_create) tt
    | inl f ↦ elim (Bool-cases (leb b.config.max_sessions (length b.sessions))) [
      | inl g ↦ rw (e, f, g, insert_created, begin_create) tt
      | inr g ↦
          let d = insert_entry b c.session_id (new_entry c.field_class) in
          rw (e, f, g, insert_created, begin_create)
            (register_created-Encodable (register d r) r c.session_id b.next_address _
              (λ m. finish_create-Encodable m r c _ known))
    ]
  ]
]

adopt_generation-Encodable :
    (b : SessionBroker) (r a : ℕ) (c : PrepareRerankSessionRequest)
    → IsId c.session_id
    → Encodable (adopt_generation b r a c).1
unfolding adopt_generation succeed validate_payload fail
adopt_generation-Encodable b r a c known = elim (Bool-cases (ltb c.generation (b.store a).clock)) [
  | inl e ↦ rw (e, adopt_generation) tt
  | inr e ↦ rw (e, adopt_generation) known
]

prepare_registered-Encodable :
    (p : SessionBroker × Bool) (r a : ℕ) (c : PrepareRerankSessionRequest)
    → IsId c.session_id
    → Encodable (prepare_registered p r a c).1
unfolding fail
prepare_registered-Encodable (d, true) r a c known =
    adopt_generation-Encodable (finish d r) r a c known
prepare_registered-Encodable (d, false) r a c known = tt

prepare_locked-Encodable :
    (b : SessionBroker) (r a : ℕ) (c : PrepareRerankSessionRequest)
    → IsId c.session_id
    → Encodable (prepare_locked b r a c).1
unfolding prepare_locked fail
prepare_locked-Encodable b r a c known = elim (Bool-cases (b.store a).rerank_only) [
  | inr e ↦ rw (e, prepare_locked) tt
  | inl e ↦ elim (Bool-cases (field_class_eq (b.store a).field_class c.field_class)) [
    | inr f ↦ rw (e, f, prepare_locked) tt
    | inl f ↦ rw (e, f, prepare_locked) (prepare_registered-Encodable (register b r) r a c known)
  ]
]

pub prepare-Encodable :
    (backend : Backend) (b : SessionBroker) (r : ℕ) (c : PrepareRerankSessionRequest)
    → IsId c.session_id
    → Encodable (handle_prepare backend b r c).1
unfolding handle_prepare prepare_entry fail
prepare-Encodable backend b r c known = elim (Bool-cases (contains c.session_id b.invalidated)) [
  | inl e ↦ rw (e, prepare_entry) tt
  | inr e ↦ elim (Option-cases (lookup c.session_id b.sessions)) [
    | inr (a, f) ↦
        rw (e, f, insert_prepared, prepare_entry) (prepare_locked-Encodable b r a c known)
    | inl f ↦ elim (Bool-cases (leb b.config.max_sessions (length b.sessions))) [
      | inl g ↦ rw (e, f, g, insert_prepared, prepare_entry) tt
      | inr g ↦
          let d = insert_entry b c.session_id (new_rerank_only c.field_class) in
          rw (e, f, g, insert_prepared, prepare_entry)
            (prepare_locked-Encodable d r b.next_address c known)
    ]
  ]
]
