-- ===== src/Session/Tokens.antt =====
-- The generation tokens of broker.rs and the owners of sessions of session.rs.
use kanai.Base.{
  ℕ, Bool, true, false, ◌&&◌, Option, none, some, [], ◌∷◌, ◌==◌, list_eq, if◌then◌else◌, lookup,
}
use kanai.Protocol.Text.{Text}
use kanai.Protocol.Requests.{
  FieldClass, is_secure, SecureFieldPolicy, prohibit, allow_local_only, EnhancementAdmission,
}
use kanai.Session.State.{SessionBroker, write}

-- `GenerationToken`, with the address for the shared clock, epoch and active flag.
pub record GenerationToken : Type 0 where
  pub session_id : ℕ
  pub generation : ℕ
  pub address : ℕ
  pub token_epoch : ℕ
  pub field_class : FieldClass
  pub secure_field_policy : SecureFieldPolicy

unfoldable pub token : SessionBroker → ℕ → ℕ → GenerationToken
token b session_id address =
    let e = b.store address in
    record {
      session_id = session_id;
      generation = e.clock;
      address = address;
      token_epoch = e.epoch;
      field_class = e.field_class;
      secure_field_policy = if is_secure e.field_class then prohibit else allow_local_only;
    }

unfoldable pub is_current : SessionBroker → GenerationToken → Bool
is_current b t =
    let e = b.store t.address in e.active && (e.clock == t.generation && e.epoch == t.token_epoch)

-- `GenerationToken::admission`
unfoldable pub admission : GenerationToken → EnhancementAdmission
admission t = record {
  session_id = t.session_id;
  generation = t.generation;
  field_class = t.field_class;
  secure_field_policy = t.secure_field_policy;
}

unfoldable pub enhancement_token : SessionBroker → ℕ → Option GenerationToken
unfolding token
enhancement_token b session_id = elim (lookup session_id b.sessions) [
  | none ↦ none
  | some a ↦ some (token b session_id a)
]

abbrev pub text_empty : Text → Bool
text_empty [] = true
text_empty (c ∷ cs) = false

unfoldable pub bind_session_owner : SessionBroker → ℕ → Text → SessionBroker × Bool
bind_session_owner b session_id owner =
    if text_empty owner then (b, false) else (elim (lookup session_id b.sessions) [
      | none ↦ (b, false)
      | some a ↦ (elim (b.store a).owner [
        | some o ↦ (b, false)
        | none ↦ (write b a (record (b.store a) { owner = some owner }), true)
      ])
    ])

abbrev pub owner_is : Option Text → Text → Bool
owner_is none owner = false
owner_is (some o) owner = list_eq o owner

unfoldable pub session_owned_by : SessionBroker → ℕ → Text → Bool
session_owned_by b session_id owner = elim (lookup session_id b.sessions) [
  | none ↦ false
  | some a ↦ owner_is (b.store a).owner owner
]
