-- ===== src/Session/Isolation/Creation.antt =====
-- The operations of session.rs that make a session, and the entries of other sessions.
use kanai.Base.{
  ℕ, ◌==◌, Bool, true, false, ◌≡◌, lookup, inl, inr, Bool-cases, Option-cases, contains, leb, ltb,
  length,
}
use kanai.Protocol.Requests.{CreateSessionRequest, PrepareRerankSessionRequest}
use kanai.Session.State.{SessionBroker, SessionEntry, register, finish, new_entry, new_rerank_only}
use kanai.Session.Begin.{advance}
use kanai.Session.Create.{
  insert_created, insert_prepared, begin_create, register_created, insert_entry, prepare_entry,
  prepare_locked, prepare_registered, adopt_generation, adopted, field_class_eq,
}
use kanai.Session.Isolation.Starts.{register-Holds}
use kanai.Session.Handle.{Backend, handle_prepare}
use kanai.Session.Isolation.{Holds, Apart, write-Holds, remove-Holds, insert_entry-Holds}

module _ (e : SessionEntry) (x id : ℕ) where
  register_created-Holds :
      (p : SessionBroker × Bool) (r j a : ℕ)
      → j == id ≡ false
      → Holds e x id p.0
      → Holds e x id (register_created p r j a).0
  register_created-Holds (c, true) r j a away h = h
  register_created-Holds (c, false) r j a away h = remove-Holds e x id c j away h

  pub begin_create-Holds :
      (b : SessionBroker) (r : ℕ) (c : CreateSessionRequest)
      → c.session_id == id ≡ false
      → b.next_address == x ≡ false
      → Holds e x id b
      → Holds e x id (begin_create b r c).0
  unfolding begin_create
  begin_create-Holds b r c away fresh h = elim (Bool-cases (contains c.session_id b.invalidated)) [
    | inl f ↦ rw (f, begin_create) h
    | inr f ↦ elim (Option-cases (lookup c.session_id b.sessions)) [
      | inr (a, g) ↦ rw (f, g, insert_created, begin_create) h
      | inl g ↦ elim (Bool-cases (leb b.config.max_sessions (length b.sessions))) [
        | inl k ↦ rw (f, g, k, insert_created, begin_create) h
        | inr k ↦
            let new = new_entry c.field_class in
            let d = insert_entry b c.session_id new in
            rw (f, g, k, insert_created, begin_create)
              (register_created-Holds (register d r) r c.session_id b.next_address away (
                register-Holds e x id d r
                  (insert_entry-Holds e x id b c.session_id new away fresh h)))
      ]
    ]
  ]

  adopted-Holds :
      (b : SessionBroker) (a g : ℕ) → a == x ≡ false → Holds e x id b → Holds e x id (adopted b a g)
  unfolding adopted
  adopted-Holds b a g other h = elim (Bool-cases (ltb (b.store a).clock g)) [
    | inl f ↦
        rw (f, adopted)
          (write-Holds e x id (advance b a g) a _ other (write-Holds e x id b a _ other h))
    | inr f ↦ rw (f, adopted) h
  ]

  adopt_generation-Holds :
      (b : SessionBroker) (r a : ℕ) (c : PrepareRerankSessionRequest)
      → a == x ≡ false
      → Holds e x id b
      → Holds e x id (adopt_generation b r a c).0
  unfolding adopt_generation
  adopt_generation-Holds b r a c other h = elim (Bool-cases (ltb c.generation (b.store a).clock)) [
    | inl f ↦ rw (f, adopt_generation) h
    | inr f ↦ rw (f, adopt_generation) (adopted-Holds b a c.generation other h)
  ]

  prepare_registered-Holds :
      (p : SessionBroker × Bool) (r a : ℕ) (c : PrepareRerankSessionRequest)
      → a == x ≡ false
      → Holds e x id p.0
      → Holds e x id (prepare_registered p r a c).0
  prepare_registered-Holds (d, true) r a c other h =
      adopt_generation-Holds (finish d r) r a c other h
  prepare_registered-Holds (d, false) r a c other h = h

  prepare_locked-Holds :
      (b : SessionBroker) (r a : ℕ) (c : PrepareRerankSessionRequest)
      → a == x ≡ false
      → Holds e x id b
      → Holds e x id (prepare_locked b r a c).0
  unfolding prepare_locked
  prepare_locked-Holds b r a c other h = elim (Bool-cases (b.store a).rerank_only) [
    | inr f ↦ rw (f, prepare_locked) h
    | inl f ↦ elim (Bool-cases (field_class_eq (b.store a).field_class c.field_class)) [
      | inr g ↦ rw (f, g, prepare_locked) h
      | inl g ↦
          rw (f, g, prepare_locked)
            (prepare_registered-Holds (register b r) r a c other (register-Holds e x id b r h))
    ]
  ]

  pub handle_prepare-Holds :
      (backend : Backend) (b : SessionBroker) (r : ℕ) (c : PrepareRerankSessionRequest)
      → c.session_id == id ≡ false
      → b.next_address == x ≡ false
      → Apart c.session_id x b
      → Holds e x id b
      → Holds e x id (handle_prepare backend b r c).0
  unfolding handle_prepare prepare_entry
  handle_prepare-Holds backend b r c away fresh apart h =
      elim (Bool-cases (contains c.session_id b.invalidated)) [
        | inl f ↦ rw (f, prepare_entry) h
        | inr f ↦ elim (Option-cases (lookup c.session_id b.sessions)) [
          | inr (a, g) ↦
              rw (f, g, insert_prepared, prepare_entry) (prepare_locked-Holds b r a c (apart a g) h)
          | inl g ↦ elim (Bool-cases (leb b.config.max_sessions (length b.sessions))) [
            | inl k ↦ rw (f, g, k, insert_prepared, prepare_entry) h
            | inr k ↦
                let new = new_rerank_only c.field_class in
                let d = insert_entry b c.session_id new in
                rw (f, g, k, insert_prepared, prepare_entry)
                  (prepare_locked-Holds d r b.next_address c fresh
                    (insert_entry-Holds e x id b c.session_id new away fresh h))
          ]
        ]
      ]
