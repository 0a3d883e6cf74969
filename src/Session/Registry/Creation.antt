-- ===== src/Session/Registry/Creation.antt =====
-- The cancellation registry under the requests of session.rs that make a session.
use kanai.Base.{
  if◌then◌else◌, ℕ, ◌==◌, Bool, true, false, Option, none, some, ◌≡◌, refl, sym, ap, ◌∙◌, lookup,
  contains, leb, ltb, length, inl, inr, Bool-cases, Option-cases,
}
use kanai.Protocol.Requests.{CreateSessionRequest, PrepareRerankSessionRequest}
use kanai.Session.State.{SessionBroker, register, finish, new_entry, new_rerank_only}
use kanai.Session.Create.{
  insert_created, insert_prepared, begin_create, register_created, insert_entry, prepare_entry,
  prepare_locked, prepare_registered, adopt_generation, adopted, field_class_eq,
}
use kanai.Session.Handle.{Backend, handle_prepare}
use kanai.Session.Beginnings.{active_with, register_absent, register_present, remove-insert}
use kanai.Session.Registry.{is_active, Enters, active_with-Entered}

register_created-Enters :
    (b d : SessionBroker) (r id a : ℕ)
    → d.cancellations ≡ b.cancellations
    → Enters b r (register_created (register d r) r id a)
unfolding register
register_created-Enters b d r id a same = elim (Option-cases (lookup r d.cancellations)) [
  | inr (t, e) ↦ rw (e, register) (λ j. ap (is_active j) same)
  | inl e ↦
      let (free, h) = active_with-Entered d r e in
      rw (e, register)
        (
          ap (lookup r) (sym same) ∙ free,
          λ j. h j ∙ ap (λ m. if r == j then true else is_active j m) same,
        )
]

pub begin_create-Enters :
    (b : SessionBroker) (r : ℕ) (c : CreateSessionRequest) → Enters b r (begin_create b r c)
unfolding begin_create
begin_create-Enters b r c = elim (Bool-cases (contains c.session_id b.invalidated)) [
  | inl e ↦ rw (e, begin_create) (λ j. refl)
  | inr e ↦ elim (Option-cases (lookup c.session_id b.sessions)) [
    | inr (a, f) ↦ rw (e, f, insert_created, begin_create) (λ j. refl)
    | inl f ↦ elim (Bool-cases (leb b.config.max_sessions (length b.sessions))) [
      | inl g ↦ rw (e, f, g, insert_created, begin_create) (λ j. refl)
      | inr g ↦
          let d = insert_entry b c.session_id (new_entry c.field_class) in
          rw (e, f, g, insert_created, begin_create)
            (register_created-Enters b d r c.session_id b.next_address refl)
    ]
  ]
]

adopted-cancellations :
    (b : SessionBroker) (a g : ℕ) → (adopted b a g).cancellations ≡ b.cancellations
unfolding adopted
adopted-cancellations b a g = elim (Bool-cases (ltb (b.store a).clock g)) [
  | inl e ↦ rw (e, adopted) refl
  | inr e ↦ rw (e, adopted) refl
]

adopt_generation-cancellations :
    (b : SessionBroker) (r a : ℕ) (c : PrepareRerankSessionRequest)
    → (adopt_generation b r a c).0.cancellations ≡ b.cancellations
unfolding adopt_generation
adopt_generation-cancellations b r a c = elim (Bool-cases (ltb c.generation (b.store a).clock)) [
  | inl e ↦ rw (e, adopt_generation) refl
  | inr e ↦ rw (e, adopt_generation) (adopted-cancellations b a c.generation)
]

prepare_locked-cancellations :
    (b : SessionBroker) (r a : ℕ) (c : PrepareRerankSessionRequest)
    → (prepare_locked b r a c).0.cancellations ≡ b.cancellations
unfolding prepare_locked
prepare_locked-cancellations b r a c = elim (Bool-cases (b.store a).rerank_only) [
  | inr e ↦ rw (e, prepare_locked) refl
  | inl e ↦ elim (Bool-cases (field_class_eq (b.store a).field_class c.field_class)) [
    | inr f ↦ rw (e, f, prepare_locked) refl
    | inl f ↦ rw (e, f, prepare_locked) (registered_once (lookup r b.cancellations) refl)
  ]
]
  where
    registered_once :
        (o : Option Bool)
        → lookup r b.cancellations ≡ o
        → (prepare_registered (register b r) r a c).0.cancellations ≡ b.cancellations
    registered_once none e =
        ap (λ p. (prepare_registered p r a c).0.cancellations) (register_absent b r e)
        ∙ (adopt_generation-cancellations (finish (active_with b r) r) r a c
            ∙ remove-insert r false b.cancellations e)
    registered_once (some t) e =
        ap (λ p. (prepare_registered p r a c).0.cancellations) (register_present b r t e)

pub handle_prepare-cancellations :
    (backend : Backend) (b : SessionBroker) (r : ℕ) (c : PrepareRerankSessionRequest)
    → (handle_prepare backend b r c).0.cancellations ≡ b.cancellations
unfolding handle_prepare prepare_entry
handle_prepare-cancellations backend b r c =
    elim (Bool-cases (contains c.session_id b.invalidated)) [
      | inl e ↦ rw (e, prepare_entry) refl
      | inr e ↦ elim (Option-cases (lookup c.session_id b.sessions)) [
        | inr (a, f) ↦
            rw (e, f, insert_prepared, prepare_entry) (prepare_locked-cancellations b r a c)
        | inl f ↦ elim (Bool-cases (leb b.config.max_sessions (length b.sessions))) [
          | inl g ↦ rw (e, f, g, insert_prepared, prepare_entry) refl
          | inr g ↦
              let d = insert_entry b c.session_id (new_rerank_only c.field_class) in
              rw (e, f, g, insert_prepared, prepare_entry)
                (prepare_locked-cancellations d r b.next_address c)
        ]
      ]
    ]
