-- ===== src/Session/RerankExamples.antt =====
-- A session for reranking that one peer prepares and another moves on.
use kanai.Base.{
  ◌<◌, ◌≡◌, refl, true, false, none, some, arith, ok, lookup, insert, remove, contains, list_eq,
}
use kanai.Protocol.Text.{Text, codes, validate_id}
use kanai.Protocol.Requests.{
  FieldClass, PrepareRerankSessionRequest, validate_request, validate_command, validate_field_class,
}
use kanai.Protocol.Responses.{no_fallback, ready}
use kanai.Session.State.{SessionBroker, to_last_valid_preedit, with_config, register}
use kanai.Session.Tokens.{bind_session_owner, session_owned_by}
use kanai.Session.Create.{prepare_entry, prepare_locked, adopt_generation, adopted, field_class_eq}
use kanai.Session.Finish.{rejected}
use kanai.Base.{err}
use kanai.Session.Handle.{Backend, handle_for_peer, handle_prepare}
use kanai.Session.Takeover.{preparing, handle_for_peer-prepare}

abbrev backend : Backend
backend = record {
  execute = λ command. err rejected;
  report = record {
    status = ready;
    protocol_version = 1;
    max_frame_bytes = 1024;
    fallback = no_fallback;
    detail = codes "ready";
  };
}

abbrev owner : Text
owner = codes "alice"

abbrev stranger : Text
stranger = codes "mallory"

abbrev first : PrepareRerankSessionRequest
first = record { session_id = 7; generation = 0; field_class = FieldClass.regular }

abbrev later : PrepareRerankSessionRequest
later = record first { generation = 5 }

abbrev empty : SessionBroker
empty = with_config (record { fallback = to_last_valid_preedit; max_sessions = 2 })

abbrev prepared : SessionBroker
prepared = (bind_session_owner (handle_prepare backend empty 1 first).0 7 owner).0

owner_owns : session_owned_by prepared 7 owner ≡ true
unfolding with_config contains lookup register insert remove bind_session_owner session_owned_by
    list_eq handle_prepare prepare_entry prepare_locked adopt_generation adopted field_class_eq
owner_owns = refl

prepared_live : lookup 7 prepared.sessions ≡ some 0
unfolding with_config contains lookup register insert remove bind_session_owner handle_prepare
    prepare_entry prepare_locked adopt_generation adopted field_class_eq
prepared_live = refl

prepared_rerank : (prepared.store 0).rerank_only ≡ true
unfolding with_config contains lookup register insert remove bind_session_owner handle_prepare
    prepare_entry prepare_locked adopt_generation adopted field_class_eq
prepared_rerank = refl

prepared_class : field_class_eq (prepared.store 0).field_class later.field_class ≡ true
unfolding with_config contains lookup register insert remove bind_session_owner handle_prepare
    prepare_entry prepare_locked adopt_generation adopted field_class_eq
prepared_class = refl

prepared_valid : contains 7 prepared.invalidated ≡ false
unfolding with_config contains lookup register insert remove bind_session_owner handle_prepare
    prepare_entry prepare_locked adopt_generation adopted field_class_eq
prepared_valid = refl

prepared_free : lookup 2 prepared.cancellations ≡ none
unfolding with_config contains lookup register insert remove bind_session_owner handle_prepare
    prepare_entry prepare_locked adopt_generation adopted field_class_eq
prepared_free = refl

prepared_clock : (prepared.store 0).clock < 5
unfolding with_config contains lookup register insert remove bind_session_owner handle_prepare
    prepare_entry prepare_locked adopt_generation adopted field_class_eq
prepared_clock = omega arith

later_checked : validate_request (preparing 2 later) ≡ ok tt
unfolding validate_request validate_command validate_id validate_field_class
later_checked = refl

handle_for_peer-prepare_example :
    ((handle_for_peer backend prepared (preparing 2 later) stranger).0.store 0).clock ≡ 5
handle_for_peer-prepare_example =
    handle_for_peer-prepare backend prepared 2 0 later stranger later_checked prepared_valid
      prepared_live prepared_rerank prepared_class prepared_free prepared_clock
