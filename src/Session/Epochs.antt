-- ===== src/Session/Epochs.antt =====
-- The generation tokens of crates/kanai-broker/src/broker.rs and their epochs, under the writes of
-- session.rs.
use kanai.Base.{
  List, ℕ, suc, ◌+◌, ◌%◌, ◌<◌, ◌==◌, false, ◌≡◌, refl, sym, ap, subst, ◌∙◌, inl, inr, Bool-cases,
  arith, if◌then◌else◌, ◌≢◌, Option-cases, some, lookup, ok, ==_iff, usize_mod, lookup,
}
use kanai.Session.State.{SessionBroker, rollback_state_change}
use kanai.Session.Tokens.{GenerationToken, token, enhancement_token, is_current}
use kanai.Session.Begin.{begin_operation}
use kanai.Session.Changes.{
  registers, advances, rolls_back, activates, remembers, forgets, owns, inserts, removes, drains,
  deactivates, tombstones, Changes, done, more,
}
use kanai.Session.Changes.Kept.{kept, deactivate-keeps}
use kanai.Session.Invariant.{IsValid}
use kanai.Session.Beginnings.{began, refused, begin_operation-Begins}

-- How often the generation of the entry at an address was advanced.
abbrev pub advance_count : (a : ℕ) {late : List ℕ} (b c : SessionBroker) → Changes late b c → ℕ
advance_count a b _ done = 0
advance_count a b c (more {m} p (advances d next)) =
    let count = advance_count a b m p in if d == a then suc count else count
advance_count a b c (more {m} p _) = advance_count a b m p

-- The epoch of an entry is `n`, up to the wrap of the machine's counter.
abbrev HasEpoch : ℕ → ℕ → SessionBroker → Type 0
HasEpoch a n b = (a < b.next_address) × ((b.store a).epoch ≡ n % usize_mod)

epoch_step :
    (n count : ℕ) {x y : ℕ}
    → x ≡ y
    → y ≡ (n + count) % usize_mod
    → (x + 1) % usize_mod ≡ (n + suc count) % usize_mod
epoch_step n count e k = omega arith

Changes-HasEpoch :
    {late : List ℕ} (a n : ℕ) (b c : SessionBroker) (p : Changes late b c)
    → HasEpoch a n b
    → HasEpoch a (n + advance_count a b c p) c
unfolding rollback_state_change
Changes-HasEpoch a n b _ done h = (h.0, omega (arith, h.1))
Changes-HasEpoch a n b _ (more {m} p (registers requests)) h = Changes-HasEpoch a n b m p h
Changes-HasEpoch a n b _ (more {m} p (advances d next)) h =
    let (l, k) = Changes-HasEpoch a n b m p h in
    elim (Bool-cases (d == a)) [
      | inl e ↦ rw e (
        l,
        epoch_step n (advance_count a b m p) (ap (λ i. (m.store i).epoch) ((==_iff d a).0 e)) k,
      )
      | inr e ↦ rw e (l, k)
    ]
Changes-HasEpoch a n b _ (more {m} p (rolls_back d expected attempted)) h =
    let (l, k) = Changes-HasEpoch a n b m p h in
    elim (Bool-cases ((m.store d).clock == attempted)) [
      | inl e ↦ rw e (l, kept (λ e. e.epoch) m.store d _ a refl ∙ k)
      | inr e ↦ rw e (l, k)
    ]
Changes-HasEpoch a n b _ (more {m} p (activates d on)) h =
    let (l, k) = Changes-HasEpoch a n b m p h in (l, kept (λ e. e.epoch) m.store d _ a refl ∙ k)
Changes-HasEpoch a n b _ (more {m} p (remembers d state v)) h =
    let (l, k) = Changes-HasEpoch a n b m p h in (l, kept (λ e. e.epoch) m.store d _ a refl ∙ k)
Changes-HasEpoch a n b _ (more {m} p (forgets d)) h =
    let (l, k) = Changes-HasEpoch a n b m p h in (l, kept (λ e. e.epoch) m.store d _ a refl ∙ k)
Changes-HasEpoch a n b _ (more {m} p (owns d owner v)) h =
    let (l, k) = Changes-HasEpoch a n b m p h in (l, kept (λ e. e.epoch) m.store d _ a refl ∙ k)
Changes-HasEpoch a n b _ (more {m} p (inserts id e fresh new room empty)) h =
    let (l, k) = Changes-HasEpoch a n b m p h in (omega arith, ground (arith, l, k))
Changes-HasEpoch a n b _ (more {m} p (removes id)) h = Changes-HasEpoch a n b m p h
Changes-HasEpoch a n b _ (more {m} p drains) h = Changes-HasEpoch a n b m p h
Changes-HasEpoch a n b _ (more {m} p (deactivates entries)) h =
    let (l, k) = Changes-HasEpoch a n b m p h in
    (l, deactivate-keeps (λ e. e.epoch) (λ e. refl) entries m.store a ∙ k)
Changes-HasEpoch a n b _ (more {m} p (tombstones ids)) h = Changes-HasEpoch a n b m p h

some_injective {ℓ} : {A : Type ℓ} {x y : A} → some x ≡ some y → x ≡ y
some_injective h = cc

enhancement_token-some :
    (b : SessionBroker) (id : ℕ) (t : GenerationToken)
    → enhancement_token b id ≡ some t
    → (lookup id b.sessions ≡ some t.address) × (t.token_epoch ≡ (b.store t.address).epoch)
unfolding enhancement_token token
enhancement_token-some b id t h = elim (Option-cases (lookup id b.sessions)) [
  | inl e ↦ absurd (ground (arith, e, h))
  | inr (a, e) ↦
      let found : enhancement_token b id ≡ some (token b id a) = rw (e, enhancement_token) refl in
      let same : token b id a ≡ t = some_injective (sym found ∙ h) in
      subst
        (λ t'.
          (lookup id b.sessions ≡ some t'.address) × (t'.token_epoch ≡ (b.store t'.address).epoch))
        same (e, refl)
]

is_current_other :
    (b : SessionBroker) (t : GenerationToken)
    → (b.store t.address).epoch ≢ t.token_epoch
    → is_current b t ≡ false
unfolding is_current
is_current_other b t h = ground arith

begin_operation-HasEpoch :
    (b c : SessionBroker) (r id a g n k : ℕ)
    → a < b.next_address
    → k < usize_mod
    → (b.store a).epoch ≡ k
    → begin_operation b r id a g ≡ (c, ok n)
    → HasEpoch a (suc k) c
begin_operation-HasEpoch b c r id a g n k known small e starts =
    elim (begin_operation-Begins b r id a g) [
      | refused x h ↦ absurd (ground (arith, h, starts))
      | began free h begins ↦
          subst (HasEpoch a (suc k)) (ap (λ p. p.0) (sym begins ∙ starts))
            (known, ground (arith, e))
    ]

-- In a valid state, an operation that begins on a session makes every token that was taken of the
-- session before it stale for good: whatever is written to the broker's state then (a rollback to
-- the token's own generation, say), as long as the writes advance the session's generation fewer
-- than 2^64 - 1 times (the epoch wraps there; the token's epoch fits 64 bits).
pub is_current-Changes :
    (late : List ℕ) (b c d : SessionBroker) (r id g n : ℕ) (t : GenerationToken)
    → IsValid b
    → enhancement_token b id ≡ some t
    → t.token_epoch < usize_mod
    → begin_operation b r id t.address g ≡ (c, ok n)
    → (p : Changes late c d) → suc (advance_count t.address c d p) < usize_mod
    → is_current d t ≡ false
is_current-Changes late b c d r id g n t v taken small starts p few =
    let (live, same) = enhancement_token-some b id t taken in
    let start : HasEpoch t.address (suc t.token_epoch) c =
      begin_operation-HasEpoch b c r id t.address g n t.token_epoch (v.known id t.address live)
        small (sym same) starts in
    let (l, k) = Changes-HasEpoch t.address (suc t.token_epoch) c d p start in
    is_current_other d t (λ e. omega (arith, k, e, few, small))
