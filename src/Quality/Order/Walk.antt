-- ===== src/Quality/Order/Walk.antt =====
-- The in-place walk of `apply_index_order` of ai.rs over all cycles of an order.
use kanai.Base.{
  ℕ, zero, suc, ◌+◌, ◌<◌, ◌≤◌, Bool, true, false, ◌||◌, Option, some, List, ◌≡◌, refl, sym, subst,
  ◌==◌, ==_iff, length, get_elem?, get_or, set, take, length-take, arith, if-cases, Bool-cases, inl,
  inr,
}
use kanai.Quality.Order.{follow_all}
use kanai.Quality.Order.Places.{get_or-set, unmarked-le, set_same}
use kanai.Quality.Order.Cycles.{
  IsPermutation, Walked, same_or, Walking-ends, Walked-begins, follow-Ends,
}

module _ {ℓ} {A : Type ℓ} (old : List ℕ) (n : ℕ) (once : IsPermutation old n) (before : List A)
    (large : n ≤ length before) where
  -- A place that has its mark, or stays where it is, is passed over.
  Walked-skips :
      (start : ℕ) (after : List A) (marks : List Bool)
      → start < n
      → Walked old n before after marks
      → get_or marks start false || get_or old start 0 == start ≡ true
      → Walked old n before after (set marks start true)
  Walked-skips start after marks hs w skip = elim (Bool-cases (get_or marks start false)) [
    | inl e ↦
        subst (Walked old n before after)
          (sym (set_same marks start true false (omega (arith, w.room)) e)) w
    | inr e ↦
        Walking-ends old n once before large start start after (set marks start true)
          (Walked-begins old n once before large start after marks hs w e)
          ((==_iff (get_or old start 0) start).0 (ground (arith, e, skip)))
  ]

  -- The outcome of the whole walk: the places below `n` hold what the order wants, the others
  -- what they held.
  abbrev pub Gathered : Option (List A) → Type ℓ
  Gathered found =
      (result : List A) × (found ≡ some result)
      × (length result ≡ length before)
      × ((i : ℕ) → i < n → get_elem? result i ≡ get_elem? before (get_or old i 0))
      × ((i : ℕ) → n ≤ i → get_elem? result i ≡ get_elem? before i)

  Walked-Gathered :
      (after : List A) (marks : List Bool)
      → Walked old n before after marks
      → ((i : ℕ) → i < n → get_or marks i false ≡ true)
      → Gathered (some after)
  Walked-Gathered after marks w done = (
    after,
    refl,
    w.size,
    λ i h. w.moved i (done i h),
    λ i h. elim (Bool-cases (get_or marks i false)) [
      | inl e ↦ absurd (omega (arith, h, w.inside i e))
      | inr e ↦ w.fixed i e
    ],
  )

  -- With fuel for `n` steps the walk over every cycle of a permutation of the places below `n` comes
  -- to its end, from any place that it has reached; the places below `n` then hold what the order
  -- wants there, and the others what they held.
  pub follow_all_ends :
      (fuel start left : ℕ) (after : List A) (marks : List Bool)
      → n ≤ fuel
      → start + left ≡ n
      → Walked old n before after marks
      → ((i : ℕ) → i < start → get_or marks i false ≡ true)
      → Gathered (follow_all fuel old start left after marks)
  unfolding follow_all
  follow_all_ends fuel start zero after marks enough total w done =
      Walked-Gathered after marks w (λ i h. done i (omega (arith, h, total)))
  follow_all_ends fuel start (suc left) after marks enough total w done =
      let marks1 = set marks start true in
      let hs : start < n = omega (arith, total) in
      let marked = λ (i : ℕ). get_or-set marks start i true false (omega (arith, w.room, hs)) in
      let upto : (i : ℕ) → i < suc start → get_or marks1 i false ≡ true = λ i h.
        elim (same_or i start) [
          | inl e ↦ ground (arith, marked i, e)
          | inr e ↦ ground (arith, marked i, done i (omega (arith, h, e)))
        ] in
      if-cases Gathered (get_or marks start false || get_or old start 0 == start) _ _
        (λ e.
          follow_all_ends fuel (suc start) left after marks1 enough (omega (arith, total))
            (Walked-skips start after marks hs w e) upto)
        (λ e.
          let (state, found, walked, kept) =
            follow-Ends old n once before large fuel start start after marks
              (Walked-begins old n once before large start after marks hs w (ground (arith, e)))
              (λ h. ground (arith, e, (==_iff (get_or old start 0) start).1 h))
              (omega (arith, enough, unmarked-le (take n marks1), length-take n marks1)) in
          let rest =
            follow_all_ends fuel (suc start) left state.0 state.1 enough (omega (arith, total))
              walked (λ i h. kept i (upto i h)) in
          rw found rest)
