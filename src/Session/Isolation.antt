-- ===== src/Session/Isolation.antt =====
-- An operation of session.rs on one session, and the entry of another session.
pub mod Loss
pub mod Starts
pub mod Ends
pub mod Creation
pub mod Requests
pub mod Peers
use kanai.Base.{
  List, [], ◌∷◌, ◌++◌, map, contains, ℕ, ◌==◌, Bool, true, false, Option, none, some, ◌≡◌, ◌≢◌,
  refl, sym, ap, ◌∙◌, lookup, lookup-insert, lookup-remove, remove, insert, ◌⊎◌, inl, inr,
  Bool-cases, arith, ==_iff,
}
use kanai.Session.State.{SessionBroker, SessionEntry, write, invalidate_all_sessions}
use kanai.Session.Create.{insert_entry}

-- The session `id` is live, at the address `x` with the entry `e`.
abbrev pub Holds : SessionEntry → ℕ → ℕ → SessionBroker → Type 0
Holds e x id b = (lookup id b.sessions ≡ some x) × (b.store x ≡ e)

-- All sessions are given up, and the session's id is tombstoned.
abbrev pub GivenUp : ℕ → SessionBroker → Type 0
GivenUp id b = (b.sessions ≡ []) × (contains id b.invalidated ≡ true)

-- The session is as it was, or there is a loss for which all are given up.
abbrev pub Spared : Type 0 → SessionEntry → ℕ → ℕ → SessionBroker → Type 0
Spared Loss e x id b = (Loss × GivenUp id b) ⊎ Holds e x id b

pub Spared-map :
    {Loss : Type 0} {Other : Type 0} {Gone : Type 0} {Held : Type 0}
    → (Loss → Other)
    → (Loss × Gone) ⊎ Held
    → (Other × Gone) ⊎ Held
Spared-map f (inl (loss, gone)) = inl (f loss, gone)
Spared-map f (inr held) = inr held

contains-live :
    (id a : ℕ) (sessions : List (ℕ × ℕ)) (ys : List ℕ)
    → lookup id sessions ≡ some a
    → contains id (map (λ s. s.0) sessions ++ ys) ≡ true
unfolding contains lookup
contains-live id a [] ys h = absurd (ground arith)
contains-live id a ((i, c) ∷ sessions) ys h = ground (arith, contains-live id a sessions ys)

pub invalidate_all_sessions-GivenUp :
    (b : SessionBroker) (id a : ℕ)
    → lookup id b.sessions ≡ some a
    → GivenUp id (invalidate_all_sessions b)
unfolding invalidate_all_sessions
invalidate_all_sessions-GivenUp b id a live =
    (refl, contains-live id a b.sessions b.invalidated live)

-- No session with the id `j` stands at the address `x`.
abbrev pub Apart : ℕ → ℕ → SessionBroker → Type 0
Apart j x b = (d : ℕ) → lookup j b.sessions ≡ some d → d == x ≡ false

module _ (e : SessionEntry) (x id : ℕ) where
  pub write-Holds :
      (b : SessionBroker) (a : ℕ) (new : SessionEntry)
      → a == x ≡ false
      → Holds e x id b
      → Holds e x id (write b a new)
  write-Holds b a new other (live, same) = (live, rw other same)

  pub remove-Holds :
      (b : SessionBroker) (j : ℕ)
      → j == id ≡ false
      → Holds e x id b
      → Holds e x id (record b { sessions = remove j b.sessions })
  remove-Holds b j other (live, same) = (rw (lookup-remove j id b.sessions, other) live, same)

  pub insert_entry-Holds :
      (b : SessionBroker) (j : ℕ) (new : SessionEntry)
      → j == id ≡ false
      → b.next_address == x ≡ false
      → Holds e x id b
      → Holds e x id (insert_entry b j new)
  insert_entry-Holds b j new other fresh (live, same) =
      (rw (lookup-insert j id b.next_address b.sessions, other) live, rw fresh same)
