-- ===== src/Quality/Order/Outcome.antt =====
-- What `apply_index_order` of ai.rs leaves and returns.
use mathlib.Core.List.{Perm}
use mathlib.Core.List.Perm
use kanai.Base.{
  ℕ, ◌<◌, ◌≤◌, Bool, false, List, ◌≡◌, refl, ◌∙◌, ltb, length, get_elem?, get_or, take, replicate,
  length-take, arith, Bool-cases, Option-cases, inl, inr, Result, ok, err,
}
use kanai.Quality.Limits.{max_local_quality_candidates}
use kanai.Quality.Order.{
  IndexOrder, RerankRejection, incomplete_candidate_set, check_indices, any_unseen, follow_all,
  apply_index_order,
}
use kanai.Quality.Order.Places.{unmarked, unmarked-le}
use kanai.Quality.Order.Cycles.{IsPermutation, Walked}
use kanai.Quality.Order.Walk.{follow_all_ends}
use kanai.Quality.Order.Fresh.{
  IsSized, IsPermutation-IsFresh, check_indices-accepts, no_unseen, get_or-replicate,
}
use kanai.Quality.Order.Apply.{follow_all-Perm}

abbrev blank : List Bool
blank = replicate max_local_quality_candidates false

module _ {ℓ} {A : Type ℓ} where
  pub Walked-start :
      (old : List ℕ) (n : ℕ) (values : List A)
      → n ≤ max_local_quality_candidates
      → Walked old n values values blank
  Walked-start old n values h = record {
    size = refl;
    room = h;
    moved = λ i m. absurd (ground (arith, m, get_or-replicate 9 i));
    fixed = λ i m. refl;
    inside = λ i m. absurd (ground (arith, m, get_or-replicate 9 i));
    source = λ j m. absurd (ground (arith, m, get_or-replicate 9 j));
  }

  -- Whatever the order, `apply_index_order` leaves a permutation of the slice.
  pub apply_index_order-Perm :
      (values : List A) (order : IndexOrder) → Perm (apply_index_order values order).0 values
  unfolding apply_index_order
  apply_index_order-Perm values order = elim (Bool-cases (ltb (length values) order.len)) [
    | inl short ↦ rw (short, apply_index_order) (Perm.refl values)
    | inr fits ↦
        elim (Option-cases (check_indices order.len blank (take order.len order.old_indices))) [
          | inl e ↦ rw (fits, e, apply_index_order) (Perm.refl values)
          | inr (seen, e) ↦ elim (Bool-cases (any_unseen (take order.len seen))) [
            | inl u ↦ rw (fits, e, u, apply_index_order) (Perm.refl values)
            | inr u ↦
                elim (Option-cases
                  (follow_all order.len order.old_indices 0 order.len values blank)) [
                    | inl f ↦ rw (fits, e, u, f, apply_index_order) (Perm.refl values)
                    | inr (result, f) ↦
                        rw (fits, e, u, f, apply_index_order)
                          (follow_all-Perm order.len order.old_indices 0 order.len values blank
                            result f)
                  ]
          ]
        ]
  ]

  -- On a slice that is long enough, with an order that is a permutation of the places below its
  -- length, `apply_index_order` returns the number of changed positions, and the slice then holds at
  -- each of those places what the order wants there, and elsewhere what it held: the walk in place
  -- implements a gather.
  pub apply_index_order-gathers :
      (values : List A) (order : IndexOrder)
      → IsSized order
      → IsPermutation order.old_indices order.len
      → order.len ≤ length values
      → ((apply_index_order values order).1 ≡ ok order.changed_positions)
        × (length (apply_index_order values order).0 ≡ length values)
        × ((i : ℕ)
            → i < order.len
            → get_elem? (apply_index_order values order).0 i
              ≡ get_elem? values (get_or order.old_indices i 0))
        × ((i : ℕ)
            → order.len ≤ i
            → get_elem? (apply_index_order values order).0 i ≡ get_elem? values i)
  unfolding apply_index_order unmarked
  apply_index_order-gathers values order s p fits =
      let indices = take order.len order.old_indices in
      let (marks, e, count) =
        check_indices-accepts order.len blank indices s.few (IsPermutation-IsFresh order s p) in
      let all : length indices ≡ order.len =
        length-take order.len order.old_indices ∙ omega (arith, s.few, s.places) in
      let none_left : unmarked (take order.len marks) ≡ 0 =
        omega
          (arith, count, all, unmarked-le (take order.len blank), length-take order.len blank) in
      let (result, f, size, moved, fixed) =
        follow_all_ends order.old_indices order.len p values fits order.len 0 order.len values blank
          (omega arith) (omega arith) (Walked-start order.old_indices order.len values s.few)
          (λ i h. absurd (omega (arith, h))) in
      let short : ltb (length values) order.len ≡ false = ground arith in
      let seen = no_unseen (take order.len marks) none_left in
      rw (short, e, seen, f, apply_index_order) (refl, size, moved, fixed)

  -- Where an answer is an error, it is the one of an incomplete set and the slice is as before.
  abbrev Unchanged : List A → List A × Result RerankRejection ℕ → Type ℓ
  Unchanged values outcome =
      (r : RerankRejection)
      → outcome.1 ≡ err r
      → (r ≡ incomplete_candidate_set) × (outcome.0 ≡ values)

  Unchanged-apply_index_order :
      (values : List A) (order : IndexOrder) → Unchanged values (apply_index_order values order)
  unfolding apply_index_order
  Unchanged-apply_index_order values order =
      let refused : Unchanged values (values, err incomplete_candidate_set) =
        λ r e. (ground (arith, e), refl) in
      elim (Bool-cases (ltb (length values) order.len)) [
        | inl short ↦ rw (short, apply_index_order) refused
        | inr fits ↦
            elim (Option-cases (check_indices order.len blank (take order.len order.old_indices))) [
              | inl e ↦ rw (fits, e, apply_index_order) refused
              | inr (seen, e) ↦ elim (Bool-cases (any_unseen (take order.len seen))) [
                | inl u ↦ rw (fits, e, u, apply_index_order) refused
                | inr u ↦
                    elim (Option-cases
                      (follow_all order.len order.old_indices 0 order.len values blank)) [
                        | inl f ↦ rw (fits, e, u, f, apply_index_order) refused
                        | inr (result, f) ↦
                            rw (fits, e, u, f, apply_index_order)
                              (λ r p. absurd (ground (arith, p)))
                      ]
              ]
            ]
      ]

  -- Where `apply_index_order` returns an error, the error is the one of an incomplete candidate
  -- set, not one place of the slice is changed, and the order is no permutation of the places
  -- below its length or the slice is too short.
  pub apply_index_order-rejects :
      (values : List A) (order : IndexOrder) (r : RerankRejection)
      → IsSized order
      → (apply_index_order values order).1 ≡ err r
      → (r ≡ incomplete_candidate_set)
        × ((apply_index_order values order).0 ≡ values)
        × ¬ (IsPermutation order.old_indices order.len × (order.len ≤ length values))
  apply_index_order-rejects values order r s e =
      let (same, kept) = Unchanged-apply_index_order values order r e in
      (
        same,
        kept,
        λ h.
            let (done, size, moved, fixed) = apply_index_order-gathers values order s h.0 h.1 in
            ground (arith, e, done),
      )
