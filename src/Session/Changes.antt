-- ===== src/Session/Changes.antt =====
-- The ways in which session.rs writes to its shared state.
pub mod Kept
pub mod Late
use kanai.Base.{
  ℕ, Bool, true, false, Option, none, some, List, ◌≡◌, ◌<◌, length, lookup, remove, contains,
}
use kanai.Protocol.Text.{Text}
use kanai.Protocol.Candidates.{CompositionState, validate_state}
use kanai.Session.State.{
  SessionBroker, SessionEntry, write, drain, deactivate_entries, tombstone, rollback_state_change,
}
use kanai.Session.Begin.{advance}
use kanai.Session.Create.{insert_entry}
use kanai.Session.Finish.{passes}

-- An id of `late` may be inserted although it is tombstoned: a request tests the tombstones before it
-- locks the sessions.
pub data Change (late : List ℕ) (b : SessionBroker) : SessionBroker → Type 0 where
  registers : (requests : List (ℕ × Bool)) → Change late b (record b { cancellations = requests })
  advances : (a next : ℕ) → Change late b (advance b a next)
  rolls_back :
      (a expected attempted : ℕ) → Change late b (rollback_state_change b a expected attempted)
  activates : (a : ℕ) (on : Bool) → Change late b (write b a (record (b.store a) { active = on }))
  remembers :
      (a : ℕ) (state : CompositionState)
      → passes (validate_state state) ≡ true
      → Change late b (write b a (record (b.store a) { last_valid = some state }))
  forgets : (a : ℕ) → Change late b (write b a (record (b.store a) { last_valid = none }))
  owns :
      (a : ℕ) (owner : Text)
      → (b.store a).owner ≡ none
      → Change late b (write b a (record (b.store a) { owner = some owner }))
  inserts :
      (id : ℕ) (e : SessionEntry)
      → (contains id late ≡ false → contains id b.invalidated ≡ false)
      → lookup id b.sessions ≡ none
      → length b.sessions < b.config.max_sessions
      → e.last_valid ≡ none
      → Change late b (insert_entry b id e)
  removes : (id : ℕ) → Change late b (record b { sessions = remove id b.sessions })
  drains : Change late b (drain b)
  deactivates : (entries : List (ℕ × ℕ)) → Change late b (deactivate_entries b entries)
  tombstones : (ids : List ℕ) → Change late b (tombstone b ids)

pub data Changes (late : List ℕ) (b : SessionBroker) : SessionBroker → Type 0 where
  done : Changes late b b
  more : {m c : SessionBroker} → Changes late b m → Change late m c → Changes late b c
