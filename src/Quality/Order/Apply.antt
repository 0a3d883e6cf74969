-- ===== src/Quality/Order/Apply.antt =====
-- `apply_index_order` of ai.rs: the slices that its walk leaves.
use mathlib.Core.List.{Perm}
use mathlib.Core.List.Perm
use kanai.Base.{
  ℕ, zero, suc, Bool, true, false, ◌||◌, some, List, ◌≡◌, subst, ◌==◌, get_or, set, arith,
  Bool-cases, Option-cases, inl, inr,
}
use kanai.Quality.Order.{swap, follow, follow_all}
use kanai.Quality.Order.Places.{swap-Perm}

module _ {ℓ} {A : Type ℓ} where
  follow-Perm :
      (fuel : ℕ) (old : List ℕ) (start here : ℕ) (values : List A) (marks : List Bool)
      → (state : List A × List Bool) → follow fuel old start here values marks ≡ some state
      → Perm state.0 values
  unfolding follow
  follow-Perm zero old start here values marks state e = absurd (ground (arith, e))
  follow-Perm (suc fuel) old start here values marks state e =
      let next = get_or old here 0 in
      let swapped = swap values here next in
      elim (Bool-cases (get_or old next 0 == start)) [
        | inl back ↦
            let same : swapped ≡ state.0 = ground (arith, e, back) in
            subst (λ l. Perm l values) same (swap-Perm values here next)
        | inr on ↦
            Perm.trans
              (follow-Perm fuel old start next swapped (set (set marks here true) next true) state
                (ground (arith, e, on)))
              (swap-Perm values here next)
      ]

  pub follow_all-Perm :
      (fuel : ℕ) (old : List ℕ) (start left : ℕ) (values : List A) (marks : List Bool)
      → (result : List A) → follow_all fuel old start left values marks ≡ some result
      → Perm result values
  unfolding follow_all
  follow_all-Perm fuel old start zero values marks result e =
      let same : values ≡ result = ground (arith, e) in
      subst (λ l. Perm l values) same (Perm.refl values)
  follow_all-Perm fuel old start (suc left) values marks result e =
      elim (Bool-cases (get_or marks start false || get_or old start 0 == start)) [
        | inl skip ↦
            follow_all-Perm fuel old (suc start) left values (set marks start true) result
              (ground (arith, e, skip))
        | inr on ↦ elim (Option-cases (follow fuel old start start values marks)) [
          | inl f ↦ absurd (ground (arith, e, on, f))
          | inr (state, f) ↦
              Perm.trans
                (follow_all-Perm fuel old (suc start) left state.0 state.1 result
                  (ground (arith, e, on, f)))
                (follow-Perm fuel old start start values marks state f)
        ]
      ]
