-- ===== src/Session/Invariant.antt =====
-- The well-formedness of the session broker of session.rs.
use kanai.Base.{
  ℕ, ◌≤◌, ◌<◌, ◌==◌, true, false, none, some, List, [], ◌∷◌, ◌≡◌, lookup, insert, contains, length,
  length-remove-le, lookup-insert, lookup-remove, inl, inr, Bool-cases, arith, update,
}
use kanai.Protocol.Candidates.{CompositionState, validate_state}
use kanai.Session.State.{
  SessionBroker, SessionEntry, BrokerConfig, with_config, write, deactivate, rollback_state_change,
}
use kanai.Session.Create.{insert_entry}
use kanai.Session.Finish.{passes}
use kanai.Session.Changes.{
  Change, registers, advances, rolls_back, activates, remembers, forgets, owns, inserts, removes,
  drains, deactivates, tombstones, Changes, done, more,
}

abbrev Remembers : SessionEntry → Type 0
Remembers e =
    (state : CompositionState) → e.last_valid ≡ some state → passes (validate_state state) ≡ true

-- Live sessions have an entry of their own; the limit on sessions is kept; every state kept for a fallback passes the wire checks.
pub record IsValid (b : SessionBroker) : Type 0 where
  pub known : (id a : ℕ) → lookup id b.sessions ≡ some a → a < b.next_address
  pub alone : (i j a : ℕ) → lookup i b.sessions ≡ some a → lookup j b.sessions ≡ some a → i ≡ j
  pub bounded : length b.sessions ≤ b.config.max_sessions
  pub remembered : (a : ℕ) → Remembers (b.store a)

pub with_config-IsValid : (config : BrokerConfig) → IsValid (with_config config)
unfolding lookup contains with_config
with_config-IsValid config = record {
  known = λ id a h. absurd (ground arith);
  alone = λ i j a h k. absurd (ground arith);
  bounded = omega arith;
  remembered = λ a state h. absurd (ground arith);
}

write-IsValid :
    (b : SessionBroker) (a : ℕ) (e : SessionEntry) → IsValid b → Remembers e → IsValid (write b a e)
write-IsValid b a e v h = record {
  known = v.known;
  alone = v.alone;
  bounded = v.bounded;
  remembered = λ c. elim (Bool-cases (a == c)) [
    | inl same ↦ rw same h
    | inr other ↦ rw other (v.remembered c)
  ];
}

deactivate-Remembers :
    (sessions : List (ℕ × ℕ)) (store : ℕ → SessionEntry)
    → ((a : ℕ) → Remembers (store a))
    → (a : ℕ) → Remembers (deactivate sessions store a)
unfolding deactivate
deactivate-Remembers [] store h a = h a
deactivate-Remembers ((id, c) ∷ sessions) store h a =
    let e : SessionEntry = record (store c) { active = false; last_valid = none } in
    deactivate-Remembers sessions (update store c e)
      (λ d. elim (Bool-cases (c == d)) [
        | inl same ↦ rw same (λ state k. absurd (ground arith))
        | inr other ↦ rw other (h d)
      ])
      a

insert_entry-IsValid :
    (b : SessionBroker) (id : ℕ) (e : SessionEntry)
    → lookup id b.sessions ≡ none
    → length b.sessions < b.config.max_sessions
    → e.last_valid ≡ none
    → IsValid b
    → IsValid (insert_entry b id e)
unfolding insert
insert_entry-IsValid b id e new room empty v =
    let at = λ (i : ℕ). lookup-insert id i b.next_address b.sessions in
    record {
      known = λ i a h. ground (arith, at i, v.known i a);
      alone = λ i j a h k. ground (arith, at i, at j, v.alone i j a, v.known i a, v.known j a);
      bounded = omega (arith, length-remove-le id b.sessions, room);
      remembered = λ c. elim (Bool-cases (b.next_address == c)) [
        | inl same ↦ rw same (λ state k. absurd (ground (arith, empty)))
        | inr other ↦ rw other (v.remembered c)
      ];
    }

Change-IsValid : {late : List ℕ} (b c : SessionBroker) → Change late b c → IsValid b → IsValid c
unfolding rollback_state_change lookup
Change-IsValid b _ (registers requests) v = record {
  known = v.known;
  alone = v.alone;
  bounded = v.bounded;
  remembered = v.remembered;
}
Change-IsValid b _ (advances a next) v = write-IsValid b a _ v (v.remembered a)
Change-IsValid b _ (rolls_back a expected attempted) v =
    elim (Bool-cases ((b.store a).clock == attempted)) [
      | inl e ↦ rw e (write-IsValid b a _ v (v.remembered a))
      | inr e ↦ rw e v
    ]
Change-IsValid b _ (activates a on) v = write-IsValid b a _ v (v.remembered a)
Change-IsValid b _ (remembers a state h) v = write-IsValid b a _ v (λ s k. cc)
Change-IsValid b _ (forgets a) v = write-IsValid b a _ v (λ state k. absurd (ground arith))
Change-IsValid b _ (owns a owner h) v = write-IsValid b a _ v (v.remembered a)
Change-IsValid b _ (inserts id e fresh new room empty) v =
    insert_entry-IsValid b id e new room empty v
Change-IsValid b _ (removes id) v = record {
  known = λ i a h. v.known i a (ground (arith, lookup-remove id i b.sessions));
  alone = λ i j a h k.
      v.alone i j a (ground (arith, lookup-remove id i b.sessions))
        (ground (arith, lookup-remove id j b.sessions));
  bounded = omega (arith, length-remove-le id b.sessions, v.bounded);
  remembered = v.remembered;
}
Change-IsValid b _ drains v = record {
  known = λ i a h. absurd (ground arith);
  alone = λ i j a h k. absurd (ground arith);
  bounded = omega arith;
  remembered = v.remembered;
}
Change-IsValid b _ (deactivates entries) v = record {
  known = v.known;
  alone = v.alone;
  bounded = v.bounded;
  remembered = deactivate-Remembers entries b.store v.remembered;
}
Change-IsValid b _ (tombstones ids) v = record {
  known = v.known;
  alone = v.alone;
  bounded = v.bounded;
  remembered = v.remembered;
}

pub Changes-IsValid :
    {late : List ℕ} (b c : SessionBroker) → Changes late b c → IsValid b → IsValid c
Changes-IsValid b _ done v = v
Changes-IsValid b c (more {m} p s) v = Change-IsValid m c s (Changes-IsValid b m p v)
