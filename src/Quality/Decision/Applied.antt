-- ===== src/Quality/Decision/Applied.antt =====
-- What `SemanticRerankPlan::apply` of ai.rs does to the candidates.
use kanai.Base.{
  ℕ, suc, ◌<◌, ◌≤◌, List, [], ◌∷◌, ◌≡◌, refl, ap, ◌∙◌, length, get_elem?, get_or, arith, inl, inr,
  lt_or_ge,
}
use kanai.Quality.Order.{IndexOrder, apply_index_order}
use kanai.Quality.Order.Cycles.{IsPermutation}
use kanai.Quality.Order.Fresh.{IsSized}
use kanai.Quality.Order.Outcome.{apply_index_order-gathers}

module _ {ℓ} {A : Type ℓ} where
  -- Lists that hold the same at each place are the same.
  pub same_places :
      (xs ys : List A)
      → length xs ≡ length ys
      → ((i : ℕ) → get_elem? xs i ≡ get_elem? ys i)
      → xs ≡ ys
  same_places [] [] l h = refl
  same_places [] (y ∷ ys) l h = absurd (omega (arith, l))
  same_places (x ∷ xs) [] l h = absurd (omega (arith, l))
  same_places (x ∷ xs) (y ∷ ys) l h =
      let e : x ≡ y = ground (arith, h 0) in
      rw (e, same_places xs ys (omega (arith, l)) (λ i. h (suc i))) refl

  -- An order that leaves every place where it is leaves the slice as it is.
  pub apply_index_order_still :
      (values : List A) (order : IndexOrder)
      → IsSized order
      → IsPermutation order.old_indices order.len
      → order.len ≤ length values
      → ((i : ℕ) → i < order.len → get_or order.old_indices i 0 ≡ i)
      → (apply_index_order values order).0 ≡ values
  apply_index_order_still values order s p fits still =
      let (done, size, moved, fixed) = apply_index_order-gathers values order s p fits in
      same_places (apply_index_order values order).0 values size (λ i. elim (lt_or_ge i order.len) [
        | inl h ↦ moved i h ∙ ap (get_elem? values) (still i h)
        | inr h ↦ fixed i h
      ])
