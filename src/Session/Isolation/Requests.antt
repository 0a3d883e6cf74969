-- ===== src/Session/Isolation/Requests.antt =====
-- The operations of session.rs as wholes, and the entries of other sessions.
use kanai.Base.{
  ℕ, ◌==◌, ==_iff, true, false, some, ◌≡◌, ◌≢◌, sym, ap, ◌∙◌, lookup, ok, err, inl, inr, Bool-cases,
  Option-cases,
}
use kanai.Protocol.Requests.{
  RequestCommand, CreateSessionRequest, CancelRequest, FocusLostRequest, GenerationRequest,
}
use kanai.Session.State.{SessionBroker, SessionEntry}
use kanai.Session.Begin.{
  Phase, begin_operation, begin_cancel_operation, FocusPhase, released, teardown,
}
use kanai.Session.Finish.{Reply, finish_cancel, finish_create}
use kanai.Session.Handle.{
  Backend, unwrap_or, proceed, with_entry, handle_cancel, tear_down, handle_health,
  handle_generation, is_unavailable, checked_limit, reported,
}
use kanai.Session.Invariant.{IsValid}
use kanai.Session.Coherence.Starts.{
  Started, begin_operation-Started, begin_cancel_operation-Started,
}
use kanai.Session.Isolation.Loss.{gives_up}
use kanai.Session.Isolation.{invalidate_all_sessions-GivenUp, Spared-map, Holds, Spared, Apart}
use kanai.Session.Isolation.Starts.{begin_operation-Holds, begin_cancel_operation-Holds}
use kanai.Session.Isolation.Ends.{
  finish_cancel-Spared, finish_focus_lost-Spared, finish_create-Spared,
}

module _ (Loss : Type 0) (e : SessionEntry) (x id : ℕ) where
  Started-Spared :
      (b : SessionBroker) (j a : ℕ) (p : Phase ℕ) (next : SessionBroker → ℕ → Reply)
      → Apart j x b
      → Started b a p
      → Holds e x id p.0
      → ((c : SessionBroker) (n : ℕ)
          → Apart j x c
          → Holds e x id c
          → Spared Loss e x id (next c n).0)
      → Spared Loss e x id (proceed p next).0
  Started-Spared b j a (c, ok n) next apart (clock, same) h k =
      k c n (λ d live. apart d (ap (lookup j) (sym same) ∙ live)) h
  Started-Spared b j a (c, err y) next apart s h k = inr h

  pub with_entry-Spared :
      (b : SessionBroker) (r j hint : ℕ) (next : ℕ → Reply)
      → Apart j x b
      → Holds e x id b
      → ((a : ℕ) → a == x ≡ false → Spared Loss e x id (next a).0)
      → Spared Loss e x id (with_entry b r j hint next).0
  with_entry-Spared b r j hint next apart h k = elim (Option-cases (lookup j b.sessions)) [
    | inl f ↦ rw (f, with_entry) (inr h)
    | inr (a, f) ↦ rw (f, with_entry) (k a (apart a f))
  ]

  pub begun-Spared :
      (b : SessionBroker) (r j g : ℕ) (next : ℕ → SessionBroker → ℕ → Reply)
      → Apart j x b
      → Holds e x id b
      → ((a : ℕ) (c : SessionBroker) (n : ℕ)
          → Apart j x c
          → a == x ≡ false
          → Holds e x id c
          → Spared Loss e x id (next a c n).0)
      → Spared Loss e x id (with_entry b r j g λ a. proceed (begin_operation b r j a g) (next a)).0
  begun-Spared b r j g next apart h k =
      with_entry-Spared b r j g (λ a. proceed (begin_operation b r j a g) (next a)) apart h
        λ a other.
          Started-Spared b j a (begin_operation b r j a g) (next a) apart
            (begin_operation-Started b r j a g) (begin_operation-Holds e x id b r j a g other h)
            (λ c n apart' h'. k a c n apart' other h')

  pub cancel-Spared :
      (backend : Backend) (b : SessionBroker) (r : ℕ) (c : CancelRequest)
      → Apart c.session_id x b
      → Holds e x id b
      → ((n : ℕ)
          → gives_up (RequestCommand.cancel c) n (backend.execute (RequestCommand.cancel c)) ≡ true
          → Loss)
      → Spared Loss e x id (handle_cancel backend b r c).0
  unfolding handle_cancel
  cancel-Spared backend b r c apart h loses =
      let expected = λ (a : ℕ). unwrap_or c.generation (b.store a).clock in
      let next = λ (a : ℕ) (b1 : SessionBroker) (n : ℕ).
        finish_cancel b1 r a c (expected a) n (backend.execute (RequestCommand.cancel c)) in
      with_entry-Spared b r c.session_id (unwrap_or c.generation 0)
        (λ a. proceed (begin_cancel_operation b r a c) (next a)) apart h
        λ a other.
          Started-Spared b c.session_id a (begin_cancel_operation b r a c) (next a) apart
            (begin_cancel_operation-Started b r a c)
            (begin_cancel_operation-Holds e x id b r a c other h)
            (λ b1 n apart' h'.
              Spared-map (loses n) (finish_cancel-Spared e x id b1 r a c (expected a) n _ other h'))

  pub tear_down-Spared :
      (backend : Backend) (r : ℕ) (c : FocusLostRequest) (p : Phase FocusPhase)
      → c.session_id == id ≡ false
      → Holds e x id p.0
      → ((n : ℕ)
          → gives_up (RequestCommand.focus_lost c) n (backend.execute (RequestCommand.focus_lost c))
            ≡ true
          → Loss)
      → Spared Loss e x id (proceed p (tear_down backend r c)).0
  unfolding tear_down
  tear_down-Spared backend r c (d, ok (released n)) away h loses = inr h
  tear_down-Spared backend r c (d, ok (teardown n)) away h loses =
      Spared-map (loses n) (finish_focus_lost-Spared e x id d r c n _ away h)
  tear_down-Spared backend r c (d, err y) away h loses = inr h

  pub create-Spared :
      (backend : Backend) (r : ℕ) (c : CreateSessionRequest) (p : Phase ℕ)
      → Holds e x id p.0
      → (gives_up
              (RequestCommand.create_session c)
              0
              (backend.execute (RequestCommand.create_session c))
            ≡ true
          → Loss)
      → Spared Loss e x id
          (proceed p
            λ b1 a. finish_create b1 r c (backend.execute (RequestCommand.create_session c))).0
  create-Spared backend r c (d, ok a) h loses =
      Spared-map loses (finish_create-Spared e x id d r c _ h)
  create-Spared backend r c (d, err y) h loses = inr h

  pub health-Spared :
      (backend : Backend) (b : SessionBroker) (r : ℕ)
      → Holds e x id b
      → (is_unavailable (checked_limit (reported backend)).status ≡ true → Loss)
      → Spared Loss e x id (handle_health backend b r).0
  unfolding handle_health
  health-Spared backend b r h loses =
      elim (Bool-cases (is_unavailable (checked_limit (reported backend)).status)) [
        | inl f ↦ rw (f, handle_health) (inl (loses f, invalidate_all_sessions-GivenUp b id x h.0))
        | inr f ↦ rw (f, handle_health) (inr h)
      ]

  pub generation-Spared :
      (backend : Backend) (b : SessionBroker) (r : ℕ) (c : GenerationRequest)
      → Holds e x id b
      → Spared Loss e x id (handle_generation backend b r c).0
  unfolding handle_generation
  generation-Spared backend b r c h = elim (Option-cases (lookup c.session_id b.sessions)) [
    | inl f ↦ rw (f, handle_generation) (inr h)
    | inr (a, f) ↦ rw (f, handle_generation) (inr h)
  ]

-- No other session stands where this one does, and no new one will.
pub valid-Apart :
    (b : SessionBroker) (x id j : ℕ)
    → IsValid b
    → lookup id b.sessions ≡ some x
    → j ≢ id
    → Apart j x b
valid-Apart b x id j v live other d there = elim (Bool-cases (d == x)) [
  | inl same ↦ absurd (other (v.alone j id d there (live ∙ ap some (sym ((==_iff d x).0 same)))))
  | inr apart ↦ apart
]
