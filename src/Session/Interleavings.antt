-- ===== src/Session/Interleavings.antt =====
-- Requests of several clients to session.rs, in any order of their parts. A part is what an
-- operation does before the backend is awaited, or behind it. Where the code gives the tombstones and
-- the sessions up in between, its sections are steps of their own: the test of the tombstones, the
-- insertion and the registration, and the sections of `invalidate_all_sessions`. Every other part is
-- one step; since it takes several locks in turn, each single write of it may also come as a step.
use kanai.Base.{ℕ, true, false, List, [], ◌∷◌, ◌≡◌, ◌==◌, if◌then◌else◌, contains, arith}
use kanai.Protocol.Text.{Text}
use kanai.Protocol.Requests.{
  KeyRequest, EditRequest, ConvertRequest, CommitRequest, CancelRequest, FocusLostRequest,
  CreateSessionRequest, PrepareRerankSessionRequest,
}
use kanai.Session.State.{
  SessionBroker, BrokerConfig, with_config, drain, deactivate_entries, tombstone, register,
}
use kanai.Session.Tokens.{bind_session_owner}
use kanai.Session.Begin.{begin_operation, begin_cancel_operation, begin_focus_lost}
use kanai.Session.Create.{insert_created, register_created, insert_prepared, prepare_locked}
use kanai.Session.Finish.{
  BackendResult, finish_create, finish_key, finish_edit, finish_convert, finish_commit,
  finish_cancel, finish_focus_lost,
}
use kanai.Session.Changes.{Change, Changes, drains, deactivates, tombstones, done}
use kanai.Session.Operations.{
  one, register-Changes, begin_operation-Changes, begin_cancel_operation-Changes,
  begin_focus_lost-Changes, insert_created-Changes, register_created-Changes,
  insert_prepared-Changes, prepare_locked-Changes,
}
use kanai.Session.Replies.{
  finish_key-Changes, finish_edit-Changes, finish_convert-Changes, finish_commit-Changes,
  finish_cancel-Changes, finish_focus_lost-Changes, finish_create-Changes,
}
use kanai.Session.Handled.{bind_session_owner-Changes}
use kanai.Session.Changes.Late.{Changes-late}
use kanai.Session.Invariant.{IsValid, with_config-IsValid, Changes-IsValid}

-- The broker, and the session ids of the requests that have found their id not tombstoned and have
-- not come to the lock of the sessions yet.
pub record World : Type 0 where
  pub broker : SessionBroker
  pub tested : List ℕ

abbrev pub start : BrokerConfig → World
start config = record { broker = with_config config; tested = [] }

abbrev pub at : World → SessionBroker → World
at w b = record w { broker = b }

-- One request fewer.
unfoldable pub without_one : ℕ → List ℕ → List ℕ
without_one id [] = []
without_one id (x ∷ xs) = let rest = without_one id xs in if x == id then xs else x ∷ rest

abbrev pub inserted : World → ℕ → SessionBroker → World
inserted w id b = record { broker = b; tested = without_one id w.tested }

-- One part of some operation; the backend's results are any. Which entries are deactivated and which
-- ids are tombstoned is left open.
pub data Step (w : World) : World → Type 0 where
  begins : (r id a g : ℕ) → Step w (at w (begin_operation w.broker r id a g).0)
  begins_cancel :
      (r a : ℕ) (c : CancelRequest) → Step w (at w (begin_cancel_operation w.broker r a c).0)
  begins_focus_lost :
      (r a : ℕ) (c : FocusLostRequest) → Step w (at w (begin_focus_lost w.broker r a c).0)
  tests :
      (id : ℕ)
      → contains id w.broker.invalidated ≡ false
      → Step w (record w { tested = id ∷ w.tested })
  inserts_created :
      (r : ℕ) (c : CreateSessionRequest)
      → contains c.session_id w.tested ≡ true
      → Step w (inserted w c.session_id (insert_created w.broker r c).0)
  registers_created : (r id a : ℕ) → Step w (at w (register_created (register w.broker r) r id a).0)
  inserts_prepared :
      (r : ℕ) (c : PrepareRerankSessionRequest)
      → contains c.session_id w.tested ≡ true
      → Step w (inserted w c.session_id (insert_prepared w.broker r c).0)
  adopts :
      (r a : ℕ) (c : PrepareRerankSessionRequest) → Step w (at w (prepare_locked w.broker r a c).0)
  ends_key :
      (r a : ℕ) (c : KeyRequest) (n : ℕ) (result : BackendResult)
      → Step w (at w (finish_key w.broker r a c n result).0)
  ends_edit :
      (r a : ℕ) (c : EditRequest) (n : ℕ) (result : BackendResult)
      → Step w (at w (finish_edit w.broker r a c n result).0)
  ends_convert :
      (r a : ℕ) (c : ConvertRequest) (n : ℕ) (result : BackendResult)
      → Step w (at w (finish_convert w.broker r a c n result).0)
  ends_commit :
      (r a : ℕ) (c : CommitRequest) (n : ℕ) (result : BackendResult)
      → Step w (at w (finish_commit w.broker r a c n result).0)
  ends_cancel :
      (r a : ℕ) (c : CancelRequest) (g n : ℕ) (result : BackendResult)
      → Step w (at w (finish_cancel w.broker r a c g n result).0)
  ends_focus_lost :
      (r : ℕ) (c : FocusLostRequest) (n : ℕ) (result : BackendResult)
      → Step w (at w (finish_focus_lost w.broker r c n result).0)
  ends_create :
      (r : ℕ) (c : CreateSessionRequest) (result : BackendResult)
      → Step w (at w (finish_create w.broker r c result).0)
  binds : (id : ℕ) (owner : Text) → Step w (at w (bind_session_owner w.broker id owner).0)
  writes : (b : SessionBroker) → Change [] w.broker b → Step w (at w b)
  loses_sessions : Step w (at w (drain w.broker))
  loses_entries : (entries : List (ℕ × ℕ)) → Step w (at w (deactivate_entries w.broker entries))
  buries : (ids : List ℕ) → Step w (at w (tombstone w.broker ids))

pub data Steps (w : World) : World → Type 0 where
  stays : Steps w w
  moves : {m c : World} → Steps w m → Step m c → Steps w c

pub Step-Changes : (w c : World) → Step w c → Changes w.tested w.broker c.broker
unfolding register
Step-Changes w _ (inserts_created r c k) =
    insert_created-Changes w.tested w.broker r c (λ none. absurd (ground arith))
Step-Changes w _ (inserts_prepared r c k) =
    insert_prepared-Changes w.tested w.broker r c (λ none. absurd (ground arith))
Step-Changes w _ (tests id k) = done
Step-Changes w _ (loses_entries entries) = one (deactivates entries)
Step-Changes w _ loses_sessions = one drains
Step-Changes w _ (buries ids) = one (tombstones ids)
Step-Changes w _ (writes b s) = Changes-late w.tested w.broker b (one s)
Step-Changes w _ (begins r id a g) =
    Changes-late w.tested w.broker _ (begin_operation-Changes w.broker r id a g)
Step-Changes w _ (begins_cancel r a c) =
    Changes-late w.tested w.broker _ (begin_cancel_operation-Changes w.broker r a c)
Step-Changes w _ (begins_focus_lost r a c) =
    Changes-late w.tested w.broker _ (begin_focus_lost-Changes w.broker r a c)
Step-Changes w _ (registers_created r id a) =
    Changes-late w.tested w.broker _
      (register_created-Changes w.broker (register w.broker r) r id a (register-Changes w.broker r))
Step-Changes w _ (adopts r a c) =
    Changes-late w.tested w.broker _ (prepare_locked-Changes w.broker r a c)
Step-Changes w _ (ends_key r a c n result) =
    Changes-late w.tested w.broker _ (finish_key-Changes w.broker r a c n result)
Step-Changes w _ (ends_edit r a c n result) =
    Changes-late w.tested w.broker _ (finish_edit-Changes w.broker r a c n result)
Step-Changes w _ (ends_convert r a c n result) =
    Changes-late w.tested w.broker _ (finish_convert-Changes w.broker r a c n result)
Step-Changes w _ (ends_commit r a c n result) =
    Changes-late w.tested w.broker _ (finish_commit-Changes w.broker r a c n result)
Step-Changes w _ (ends_cancel r a c g n result) =
    Changes-late w.tested w.broker _ (finish_cancel-Changes w.broker r a c g n result)
Step-Changes w _ (ends_focus_lost r c n result) =
    Changes-late w.tested w.broker _ (finish_focus_lost-Changes w.broker r c n result)
Step-Changes w _ (ends_create r c result) =
    Changes-late w.tested w.broker _ (finish_create-Changes w.broker r c result)
Step-Changes w _ (binds id owner) =
    Changes-late w.tested w.broker _ (bind_session_owner-Changes w.broker id owner)

Steps-kept : (w c : World) → Steps w c → IsValid w.broker → IsValid c.broker
Steps-kept w _ stays v = v
Steps-kept w c (moves {m} p s) v =
    Changes-IsValid m.broker c.broker (Step-Changes m c s) (Steps-kept w m p v)

-- Whatever the parts of the requests that ran, in whatever order, and whatever the backend
-- answered: live sessions have distinct entries, there are at most `max_sessions` sessions, and
-- every state kept for a fallback passes the wire checks. (A request may test the tombstones before
-- they are extended and insert its session behind that, so that a tombstoned id can be live.)
pub Steps-IsValid : (config : BrokerConfig) (w : World) → Steps (start config) w → IsValid w.broker
Steps-IsValid config w steps = Steps-kept (start config) w steps (with_config-IsValid config)
