-- ===== src/Session/Permanence.antt =====
-- The tombstones of lost sessions and the owners of sessions in session.rs, under every later
-- step.
use kanai.Base.{
  ℕ, ◌<◌, ◌==◌, true, false, none, some, List, [], ◌∷◌, ◌≡◌, refl, lookup, contains, contains-right,
  lookup-insert, lookup-remove, inl, inr, Bool-cases, Option-cases, arith, ap, ◌∙◌, ==_iff,
}
use kanai.Protocol.Text.{Text}
use kanai.Session.State.{SessionBroker, rollback_state_change}
use kanai.Session.Tokens.{session_owned_by}
use kanai.Session.Changes.{
  Change, registers, advances, rolls_back, activates, remembers, forgets, owns, inserts, removes,
  drains, deactivates, tombstones, Changes, done, more,
}
use kanai.Session.Invariant.{IsValid}
use kanai.Session.Changes.Kept.{kept, deactivate-keeps}
use kanai.Session.Interleavings.{
  World, Step, tests, inserts_created, inserts_prepared, Steps, stays, moves, Step-Changes,
  without_one,
}

-- The id is tombstoned and no session's.
abbrev pub IsLost : ℕ → SessionBroker → Type 0
IsLost id b = (contains id b.invalidated ≡ true) × (lookup id b.sessions ≡ none)

Change-IsLost :
    (late : List ℕ) (id : ℕ) (b c : SessionBroker)
    → contains id late ≡ false
    → Change late b c
    → IsLost id b
    → IsLost id c
unfolding rollback_state_change lookup
Change-IsLost late id b _ off (rolls_back a expected attempted) h =
    elim (Bool-cases ((b.store a).clock == attempted)) [ inl e ↦ rw e h | inr e ↦ rw e h ]
Change-IsLost late id b _ off (inserts j e may new room empty) (t, h) =
    elim (Bool-cases (j == id)) [
      | inl same ↦ absurd (
          ground (
            arith,
            may (ap (λ i. contains i late) ((==_iff j id).0 same) ∙ off),
            ap (λ i. contains i b.invalidated) ((==_iff j id).0 same),
            t,
          ))
      | inr other ↦ (t, rw (lookup-insert j id b.next_address b.sessions, other) h)
    ]
Change-IsLost late id b _ off (removes j) (t, h) =
    (t, ground (arith, lookup-remove j id b.sessions, h))
Change-IsLost late id b _ off drains (t, h) = (t, refl)
Change-IsLost late id b _ off (tombstones ids) (t, h) = (contains-right id ids b.invalidated t, h)
Change-IsLost late id b _ off _ h = h

Changes-IsLost :
    (late : List ℕ) (id : ℕ) (b c : SessionBroker)
    → contains id late ≡ false
    → Changes late b c
    → IsLost id b
    → IsLost id c
Changes-IsLost late id b _ off done h = h
Changes-IsLost late id b c off (more {m} p s) h =
    Change-IsLost late id m c off s (Changes-IsLost late id b m off p h)

without_one-contains :
    (j id : ℕ) (ids : List ℕ) → contains id ids ≡ false → contains id (without_one j ids) ≡ false
unfolding without_one contains
without_one-contains j id [] h = h
without_one-contains j id (x ∷ ids) h = ground (arith, without_one-contains j id ids)

-- No request is between its test of the tombstones and its insertion of the id.
abbrev pub IsUntested : ℕ → World → Type 0
IsUntested id w = contains id w.tested ≡ false

Step-IsUntested :
    (id : ℕ) (w c : World) → Step w c → IsLost id w.broker → IsUntested id w → IsUntested id c
unfolding contains
Step-IsUntested id w _ (tests j k) (t, h) off = elim (Bool-cases (j == id)) [
  | inl same ↦
      absurd
        (ground (arith, ap (λ i. contains i w.broker.invalidated) ((==_iff j id).0 same), k, t))
  | inr other ↦ ground (arith, other, off)
]
Step-IsUntested id w _ (inserts_created r c k) h off =
    without_one-contains c.session_id id w.tested off
Step-IsUntested id w _ (inserts_prepared r c k) h off =
    without_one-contains c.session_id id w.tested off
Step-IsUntested id w _ _ h off = off

-- A session id that is tombstoned and not live is lost for good, once no request is between its test
-- of the tombstones and its insertion of that id: whatever the parts of requests that run then, it
-- stays tombstoned and is no session's id, and no request passes the test with it.
pub IsLost-Steps :
    (id : ℕ) (w c : World)
    → IsLost id w.broker
    → IsUntested id w
    → Steps w c
    → IsLost id c.broker × IsUntested id c
IsLost-Steps id w _ h off stays = (h, off)
IsLost-Steps id w c h off (moves {m} p s) =
    let (lost, untested) = IsLost-Steps id w m h off p in
    (
      Changes-IsLost m.tested id m.broker c.broker untested (Step-Changes m c s) lost,
      Step-IsUntested id m c s lost untested,
    )

-- An entry keeps its owner, and stays below the next address.
abbrev Owned : Text → ℕ → SessionBroker → Type 0
Owned owner a b = (a < b.next_address) × ((b.store a).owner ≡ some owner)

Change-owner :
    {late : List ℕ} (owner : Text) (a : ℕ) (b c : SessionBroker)
    → Change late b c
    → Owned owner a b
    → Owned owner a c
unfolding rollback_state_change
Change-owner owner a b _ (registers requests) h = h
Change-owner owner a b _ (advances d next) (l, h) = (l, kept (λ e. e.owner) b.store d _ a refl ∙ h)
Change-owner owner a b _ (rolls_back d expected attempted) (l, h) =
    elim (Bool-cases ((b.store d).clock == attempted)) [
      | inl e ↦ rw e (l, kept (λ e. e.owner) b.store d _ a refl ∙ h)
      | inr e ↦ rw e (l, h)
    ]
Change-owner owner a b _ (activates d on) (l, h) = (l, kept (λ e. e.owner) b.store d _ a refl ∙ h)
Change-owner owner a b _ (remembers d state k) (l, h) =
    (l, kept (λ e. e.owner) b.store d _ a refl ∙ h)
Change-owner owner a b _ (forgets d) (l, h) = (l, kept (λ e. e.owner) b.store d _ a refl ∙ h)
Change-owner owner a b _ (owns d other k) (l, h) = elim (Bool-cases (d == a)) [
  | inl e ↦ absurd (ground (arith, ap (λ i. (b.store i).owner) ((==_iff d a).0 e), k, h))
  | inr e ↦ rw e (l, h)
]
Change-owner owner a b _ (inserts id e fresh new room empty) (l, h) = (omega arith, ground arith)
Change-owner owner a b _ (removes id) h = h
Change-owner owner a b _ drains h = h
Change-owner owner a b _ (deactivates entries) (l, h) =
    (l, deactivate-keeps (λ e. e.owner) (λ e. refl) entries b.store a ∙ h)
Change-owner owner a b _ (tombstones ids) h = h

Changes-owner :
    {late : List ℕ} (owner : Text) (a : ℕ) (b c : SessionBroker)
    → Changes late b c
    → Owned owner a b
    → Owned owner a c
Changes-owner owner a b _ done h = h
Changes-owner owner a b c (more {m} p s) h =
    Change-owner owner a m c s (Changes-owner owner a b m p h)

Steps-owner :
    (owner : Text) (a : ℕ) (w c : World)
    → Steps w c
    → Owned owner a w.broker
    → Owned owner a c.broker
Steps-owner owner a w _ stays h = h
Steps-owner owner a w c (moves {m} p s) h =
    Changes-owner owner a m.broker c.broker (Step-Changes m c s) (Steps-owner owner a w m p h)

-- From a valid state, a session that belongs to a peer belongs to it for as long as its entry is
-- live under its id, whatever the parts of requests that run: another peer cannot take it over.
pub session_owned_by-Steps :
    (w c : World) (id a : ℕ) (owner : Text)
    → IsValid w.broker
    → lookup id w.broker.sessions ≡ some a
    → session_owned_by w.broker id owner ≡ true
    → Steps w c
    → lookup id c.broker.sessions ≡ some a
    → session_owned_by c.broker id owner ≡ true
unfolding session_owned_by
session_owned_by-Steps w c id a owner v live owned steps still =
    elim (Option-cases (w.broker.store a).owner) [
      | inl e ↦ absurd (ground (arith, live, e))
      | inr (o, e) ↦
          let k = Steps-owner o a w c steps (v.known id a live, e) in
          rw (still, session_owned_by, k.1) (ground (arith, live, e, owned))
    ]
