-- ===== src/Session/Coherence/Creation.antt =====
-- The generations in the replies of session.rs to requests that make a session.
use kanai.Base.{
  ℕ, Bool, true, false, some, ◌≡◌, refl, ap, ◌∙◌, lookup, lookup-insert, inl, inr, Bool-cases,
  Option-cases, arith, contains, leb, ltb, length,
}
use kanai.Protocol.Requests.{CreateSessionRequest, PrepareRerankSessionRequest}
use kanai.Protocol.Responses.{succeed, payload_generation}
use kanai.Session.State.{
  SessionBroker, SessionEntry, register, finish, fail, new_entry, new_rerank_only,
}
use kanai.Session.Create.{
  insert_created, insert_prepared, begin_create, register_created, insert_entry, prepare_entry,
  prepare_locked, prepare_registered, adopt_generation, adopted, field_class_eq,
}
use kanai.Session.Finish.{Reply}
use kanai.Session.Handle.{Backend, proceed, handle_create, handle_prepare}
use kanai.Session.Coherence.{Coherent}
use kanai.Session.Coherence.Ends.{At, At-Names, finish_create-Coherent}

register_created-Coherent :
    (b : SessionBroker) (p : SessionBroker × Bool) (r id a : ℕ) (next : SessionBroker → ℕ → Reply)
    → ((d : SessionBroker) → d.sessions ≡ b.sessions → d.store ≡ b.store → Coherent id (next d a))
    → ((p.0).sessions ≡ b.sessions) × ((p.0).store ≡ b.store)
    → Coherent id (proceed (register_created p r id a) next)
unfolding fail
register_created-Coherent b (d, true) r id a next h same = h d same.0 same.1
register_created-Coherent b (d, false) r id a next h same = tt

register-same :
    (b : SessionBroker) (r : ℕ)
    → ((register b r).0.sessions ≡ b.sessions) × ((register b r).0.store ≡ b.store)
unfolding register
register-same b r = elim (Option-cases (lookup r b.cancellations)) [
  | inl e ↦ rw (e, register) (refl, refl)
  | inr (t, e) ↦ rw (e, register) (refl, refl)
]

inserted-At :
    (b d : SessionBroker) (id : ℕ) (e : SessionEntry)
    → d.sessions ≡ (insert_entry b id e).sessions
    → d.store ≡ (insert_entry b id e).store
    → At d id b.next_address e.clock
inserted-At b d id e same stores = (
  ap (lookup id) same ∙ rw (lookup-insert id id b.next_address b.sessions) (ground arith),
  ap (λ s. (s b.next_address).clock) stores ∙ ground arith,
)

pub create-Coherent :
    (backend : Backend) (b : SessionBroker) (r : ℕ) (c : CreateSessionRequest)
    → Coherent c.session_id (handle_create backend b r c)
unfolding handle_create begin_create fail
create-Coherent backend b r c = elim (Bool-cases (contains c.session_id b.invalidated)) [
  | inl e ↦ rw (e, begin_create) tt
  | inr e ↦ elim (Option-cases (lookup c.session_id b.sessions)) [
    | inr (a, f) ↦ rw (e, f, insert_created, begin_create) tt
    | inl f ↦ elim (Bool-cases (leb b.config.max_sessions (length b.sessions))) [
      | inl g ↦ rw (e, f, g, insert_created, begin_create) tt
      | inr g ↦
          let entry = new_entry c.field_class in
          let d = insert_entry b c.session_id entry in
          rw (e, f, g, insert_created, begin_create)
            (register_created-Coherent d (register d r) r c.session_id b.next_address _
              (λ m same stores.
                finish_create-Coherent m r b.next_address c _
                  (inserted-At b m c.session_id entry same stores))
              (register-same d r))
    ]
  ]
]

adopted-sessions : (b : SessionBroker) (a g : ℕ) → (adopted b a g).sessions ≡ b.sessions
unfolding adopted
adopted-sessions b a g = elim (Bool-cases (ltb (b.store a).clock g)) [
  | inl e ↦ rw (e, adopted) refl
  | inr e ↦ rw (e, adopted) refl
]

adopt_generation-Coherent :
    (b : SessionBroker) (r a : ℕ) (c : PrepareRerankSessionRequest)
    → lookup c.session_id b.sessions ≡ some a
    → Coherent c.session_id (adopt_generation b r a c)
unfolding adopt_generation succeed payload_generation fail
adopt_generation-Coherent b r a c live = elim (Bool-cases (ltb c.generation (b.store a).clock)) [
  | inl e ↦ rw (e, adopt_generation) tt
  | inr e ↦
      let d = adopted b a c.generation in
      rw (e, adopt_generation)
        (At-Names d c.session_id a (d.store a).clock
          (ap (lookup c.session_id) (adopted-sessions b a c.generation) ∙ live, refl))
]

prepare_registered-Coherent :
    (b : SessionBroker) (p : SessionBroker × Bool) (r a : ℕ) (c : PrepareRerankSessionRequest)
    → lookup c.session_id (p.0).sessions ≡ some a
    → Coherent c.session_id (prepare_registered p r a c)
unfolding fail
prepare_registered-Coherent b (d, true) r a c live =
    adopt_generation-Coherent (finish d r) r a c live
prepare_registered-Coherent b (d, false) r a c live = tt

prepare_locked-Coherent :
    (b : SessionBroker) (r a : ℕ) (c : PrepareRerankSessionRequest)
    → lookup c.session_id b.sessions ≡ some a
    → Coherent c.session_id (prepare_locked b r a c)
unfolding prepare_locked fail
prepare_locked-Coherent b r a c live = elim (Bool-cases (b.store a).rerank_only) [
  | inr e ↦ rw (e, prepare_locked) tt
  | inl e ↦ elim (Bool-cases (field_class_eq (b.store a).field_class c.field_class)) [
    | inr f ↦ rw (e, f, prepare_locked) tt
    | inl f ↦
        rw (e, f, prepare_locked)
          (prepare_registered-Coherent b (register b r) r a c
            (ap (lookup c.session_id) (register-same b r).0 ∙ live))
  ]
]

pub prepare-Coherent :
    (backend : Backend) (b : SessionBroker) (r : ℕ) (c : PrepareRerankSessionRequest)
    → Coherent c.session_id (handle_prepare backend b r c)
unfolding handle_prepare prepare_entry fail
prepare-Coherent backend b r c = elim (Bool-cases (contains c.session_id b.invalidated)) [
  | inl e ↦ rw (e, prepare_entry) tt
  | inr e ↦ elim (Option-cases (lookup c.session_id b.sessions)) [
    | inr (a, f) ↦ rw (e, f, insert_prepared, prepare_entry) (prepare_locked-Coherent b r a c f)
    | inl f ↦ elim (Bool-cases (leb b.config.max_sessions (length b.sessions))) [
      | inl g ↦ rw (e, f, g, insert_prepared, prepare_entry) tt
      | inr g ↦
          let d = insert_entry b c.session_id (new_rerank_only c.field_class) in
          rw (e, f, g, insert_prepared, prepare_entry)
            (prepare_locked-Coherent d r b.next_address c
              (inserted-At b d c.session_id (new_rerank_only c.field_class) refl refl).0)
    ]
  ]
]
