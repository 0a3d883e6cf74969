-- ===== src/Session/Examples.antt =====
-- A session that is opened, owned, typed into and lost, and the theorems about it.
use kanai.Base.{
  ◌≢◌, usize_mod, ◌<◌, ◌≡◌, refl, true, false, some, arith, ok, err, lookup, insert, remove,
  contains, list_eq, [], ◌∷◌,
}
use kanai.Protocol.Text.{Text, codes}
use kanai.Protocol.Requests.{
  FieldClass, RequestCommand, RequestEnvelope, CreateSessionRequest, KeyRequest, KeyEvent,
  session_id,
}
use kanai.Protocol.Responses.{ResponsePayload, no_fallback, ready}
use kanai.Session.State.{
  SessionBroker, BrokerConfig, to_last_valid_preedit, with_config, register, drain, tombstone,
  invalidate_all_sessions, rollback_state_change,
}
use kanai.Session.Tokens.{
  token, enhancement_token, GenerationToken, is_current, bind_session_owner, session_owned_by,
}
use kanai.Session.Begin.{begin_operation, begin_state_change, next_generation, ensure_entry}
use kanai.Session.Create.{insert_created, register_created}
use kanai.Session.Finish.{BackendResult, rejected, finish_create, finish_key}
use kanai.Session.Handle.{Backend, handle, handle_for_peer, makes_session}
use kanai.Session.Changes.{registers, rolls_back, done, more}
use kanai.Session.Invariant.{IsValid}
use kanai.Session.Interleavings.{
  World, start, without_one, Steps, stays, moves, tests, loses_sessions, buries, inserts_created,
  registers_created, ends_create, binds, Steps-IsValid,
}
use kanai.Session.Permanence.{IsLost, IsUntested, IsLost-Steps, session_owned_by-Steps}
use kanai.Session.Epochs.{is_current-Changes}
use kanai.Session.Coherence.{Coherent}
use kanai.Session.Coherence.Requests.{handle-Coherent}
use kanai.Session.Isolation.{Spared}
use kanai.Session.Isolation.Loss.{IsLoss}
use kanai.Session.Isolation.Peers.{handle-Spared, handle_for_peer-Spared}
use kanai.Session.Registry.{Alike}
use kanai.Session.Registry.Requests.{handle-Alike}
use kanai.Session.Wire.{Encodable}
use kanai.Session.Wire.Requests.{handle-Encodable}

abbrev config : BrokerConfig
config = record { fallback = to_last_valid_preedit; max_sessions = 2 }

abbrev opening : CreateSessionRequest
opening = record { session_id = 7; locale = codes "ja"; field_class = FieldClass.regular }

abbrev accepted : BackendResult
accepted =
    ok (ResponsePayload.created (record { session_id = 7; generation = 0; fallback = no_fallback }))

abbrev inserted_7 : SessionBroker
inserted_7 = (insert_created (with_config config) 1 opening).0

abbrev begun : SessionBroker
begun = (register_created (register inserted_7 1) 1 7 0).0

abbrev opened : SessionBroker
opened = (finish_create begun 1 opening accepted).0

abbrev only : SessionBroker → World
only b = record { broker = b; tested = [] }

opening-Steps : Steps (start config) (only opened)
unfolding contains with_config without_one
opening-Steps =
    moves
      (moves (moves (moves stays (tests 7 refl)) (inserts_created 1 opening refl))
        (registers_created 1 7 0))
      (ends_create 1 opening accepted)

Steps-IsValid_example : IsValid opened
Steps-IsValid_example = Steps-IsValid config (only opened) opening-Steps

opened-IsValid : IsValid opened
opened-IsValid = Steps-IsValid config (only opened) opening-Steps

opened_live : lookup 7 opened.sessions ≡ some 0
unfolding finish_create with_config contains lookup register insert remove
opened_live = refl

abbrev lost : SessionBroker
lost = invalidate_all_sessions opened

abbrev another : CreateSessionRequest
another = record opening { session_id = 8 }

abbrev replaced : SessionBroker
replaced = (insert_created lost 2 another).0

lost-Steps : Steps (only lost) (only replaced)
unfolding contains with_config without_one invalidate_all_sessions finish_create lookup register
    insert remove
lost-Steps = moves (moves stays (tests 8 refl)) (inserts_created 2 another refl)

IsLost-7 : IsLost 7 lost
unfolding contains with_config without_one invalidate_all_sessions finish_create lookup register
    insert remove
IsLost-7 = (refl, refl)

IsUntested-7 : IsUntested 7 (only lost)
unfolding contains
IsUntested-7 = refl

IsLost-Steps_example : IsLost 7 replaced × IsUntested 7 (only replaced)
IsLost-Steps_example = IsLost-Steps 7 (only lost) (only replaced) IsLost-7 IsUntested-7 lost-Steps

-- A second request for the id tests the tombstones, then the backend is lost, and the request inserts
-- its session before the id is tombstoned.
abbrev raced : SessionBroker
raced = tombstone (insert_created (drain opened) 2 opening).0 (7 ∷ [])

race-Steps : Steps (only opened) (only raced)
unfolding contains with_config without_one finish_create lookup register insert remove
race-Steps =
    moves
      (moves (moves (moves stays (tests 7 refl)) loses_sessions) (inserts_created 2 opening refl))
      (buries (7 ∷ []))

raced_live : (lookup 7 raced.sessions ≡ some 1) × (contains 7 raced.invalidated ≡ true)
unfolding contains with_config finish_create lookup register insert remove
raced_live = (refl, refl)

abbrev alice : Text
alice = codes "alice"

abbrev mallory : Text
mallory = codes "mallory"

abbrev owned : SessionBroker
owned = (bind_session_owner opened 7 alice).0

owned_live : lookup 7 owned.sessions ≡ some 0
unfolding finish_create with_config contains lookup register insert remove bind_session_owner
owned_live = refl

alice_owns : session_owned_by owned 7 alice ≡ true
unfolding finish_create with_config contains lookup register insert remove bind_session_owner
    session_owned_by list_eq
alice_owns = refl

abbrev taken_over : SessionBroker
taken_over = (bind_session_owner owned 7 mallory).0

still_live : lookup 7 taken_over.sessions ≡ some 0
unfolding finish_create with_config contains lookup register insert remove bind_session_owner
still_live = refl

session_owned_by-Steps_example : session_owned_by taken_over 7 alice ≡ true
session_owned_by-Steps_example =
    session_owned_by-Steps (only owned) (only taken_over) 7 0 alice
      (Steps-IsValid config (only owned) (moves opening-Steps (binds 7 alice))) owned_live
      alice_owns (moves stays (binds 7 mallory)) still_live

abbrev typed : SessionBroker
typed = (begin_operation opened 3 7 0 0).0

abbrev key_a : KeyRequest
key_a = record { session_id = 7; generation = 0; key = KeyEvent.character (codes "a") }

abbrev undone : SessionBroker
undone = (finish_key typed 3 0 key_a 1 (err rejected)).0

abbrev early : GenerationToken
early = token opened 7 0

early_taken : enhancement_token opened 7 ≡ some early
unfolding finish_create with_config contains lookup register insert remove enhancement_token
early_taken = refl

early_small : early.token_epoch < usize_mod
unfolding finish_create with_config contains lookup register insert remove token
early_small = omega arith

typed_begins : begin_operation opened 3 7 0 0 ≡ (typed, ok 1)
unfolding finish_create with_config contains lookup register insert remove begin_operation
    begin_state_change next_generation ensure_entry
typed_begins = refl

undone_clock : (undone.store 0).clock ≡ 0
unfolding finish_create with_config contains lookup register insert remove begin_operation
    begin_state_change next_generation ensure_entry finish_key rollback_state_change
undone_clock = refl

is_current-Changes_example : is_current undone early ≡ false
unfolding finish_key token
is_current-Changes_example =
    is_current-Changes [] opened typed undone 3 7 0 1 early opened-IsValid early_taken early_small
      typed_begins (more (more done (registers _)) (rolls_back 0 0 1)) (omega arith)

abbrev backend : Backend
backend = record {
  execute =
      λ command. elim command [ RequestCommand.create_session c ↦ accepted | _ ↦ err rejected ];
  report = record {
    status = ready;
    protocol_version = 1;
    max_frame_bytes = 1024;
    fallback = no_fallback;
    detail = codes "ready";
  };
}

abbrev typing : RequestEnvelope
typing = record { version = 1; request_id = 3; command = RequestCommand.key key_a }

handle-Coherent_example : Coherent 7 (handle backend opened typing)
unfolding session_id
handle-Coherent_example = handle-Coherent backend opened typing 7 refl

handle-Encodable_example : Encodable (handle backend opened typing).1
handle-Encodable_example =
    handle-Encodable backend opened typing opened-IsValid (λ e. absurd (ground arith))

owned-IsValid : IsValid owned
owned-IsValid = Steps-IsValid config (only owned) (moves opening-Steps (binds 7 alice))

alice_only : (owned.store 0).owner ≡ some alice
unfolding finish_create with_config contains lookup register insert remove bind_session_owner
alice_only = refl

alice-ne-mallory : alice ≢ mallory
alice-ne-mallory same = absurd (ground (arith, same))

abbrev elsewhere : RequestEnvelope
elsewhere = record {
  version = 1;
  request_id = 4;
  command = RequestCommand.create_session (record opening { session_id = 8 });
}

handle-Spared_example :
    Spared (IsLoss backend elsewhere.command) (owned.store 0) 0 7 (handle backend owned elsewhere).0
unfolding session_id
handle-Spared_example =
    handle-Spared backend owned elsewhere 7 0 owned-IsValid owned_live
      (λ same. ground (arith, same))

handle_for_peer-Spared_example :
    Spared
      (IsLoss backend typing.command)
      (owned.store 0)
      0
      7
      (handle_for_peer backend owned typing mallory).0
unfolding makes_session
handle_for_peer-Spared_example =
    handle_for_peer-Spared backend owned typing 7 0 alice mallory owned-IsValid owned_live
      alice_only alice-ne-mallory (λ about. refl)

handle-Alike_example : Alike opened (handle backend opened typing).0
handle-Alike_example = handle-Alike backend opened typing
