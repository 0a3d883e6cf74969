-- ===== src/Session/Changes/Kept.antt =====
-- Single fields of the entries of session.rs under writes to the store.
use kanai.Base.{
  ℕ, ◌==◌, false, none, List, [], ◌∷◌, ◌≡◌, refl, ap, ◌∙◌, inl, inr, Bool-cases, ==_iff, update,
}
use kanai.Session.State.{SessionEntry, deactivate}

pub kept {ℓ} :
    {X : Type ℓ} (f : SessionEntry → X) (store : ℕ → SessionEntry) (c : ℕ) (e : SessionEntry)
    (a : ℕ)
    → f e ≡ f (store c)
    → f (update store c e a) ≡ f (store a)
kept f store c e a h = elim (Bool-cases (c == a)) [
  | inl same ↦ rw same (h ∙ ap (λ i. f (store i)) ((==_iff c a).0 same))
  | inr other ↦ rw other refl
]

pub deactivate-keeps {ℓ} :
    {X : Type ℓ} (f : SessionEntry → X)
    → ((e : SessionEntry) → f (record e { active = false; last_valid = none }) ≡ f e)
    → (sessions : List (ℕ × ℕ)) (store : ℕ → SessionEntry) (a : ℕ)
    → f (deactivate sessions store a) ≡ f (store a)
unfolding deactivate
deactivate-keeps f h [] store a = refl
deactivate-keeps f h ((id, c) ∷ sessions) store a =
    let e : SessionEntry = record (store c) { active = false; last_valid = none } in
    deactivate-keeps f h sessions (update store c e) a ∙ kept f store c e a (h (store c))
