-- ===== src/Quality/Order/Places.antt =====
-- Places of lists after writes and swaps, for the orders of ai.rs.
use mathlib.Core.List.{Perm, perm-cons}
use mathlib.Core.List.Perm
use kanai.Base.{
  ℕ, zero, suc, ◌<◌, ◌≤◌, Bool, true, false, some, List, [], ◌∷◌, ◌≡◌, refl, sym, ap, ◌∙◌, ◌==◌,
  length, get_elem?, get_or, set, take, length-take, if◌then◌else◌, arith, Option-cases, inl, inr,
}
use kanai.Quality.Order.{swap}

module _ {ℓ} {A : Type ℓ} where
  pub length-set : (xs : List A) (i : ℕ) (v : A) → length (set xs i v) ≡ length xs
  length-set [] i v = refl
  length-set (x ∷ xs) zero v = refl
  length-set (x ∷ xs) (suc i) v = ap suc (length-set xs i v)

  pub get_elem?-set :
      (xs : List A) (i j : ℕ) (v : A)
      → i < length xs
      → get_elem? (set xs i v) j ≡ (if i == j then some v else get_elem? xs j)
  get_elem?-set [] i j v h = absurd (omega arith)
  get_elem?-set (x ∷ xs) zero zero v h = refl
  get_elem?-set (x ∷ xs) zero (suc j) v h = ground arith
  get_elem?-set (x ∷ xs) (suc i) zero v h = ground arith
  get_elem?-set (x ∷ xs) (suc i) (suc j) v h = ground (arith, get_elem?-set xs i j v)

  pub get_or-set :
      (xs : List A) (i j : ℕ) (v d : A)
      → i < length xs
      → get_or (set xs i v) j d ≡ (if i == j then v else get_or xs j d)
  get_or-set [] i j v d h = absurd (omega arith)
  get_or-set (x ∷ xs) zero zero v d h = refl
  get_or-set (x ∷ xs) zero (suc j) v d h = ground arith
  get_or-set (x ∷ xs) (suc i) zero v d h = ground arith
  get_or-set (x ∷ xs) (suc i) (suc j) v d h = ground (arith, get_or-set xs i j v d)

  pub get_elem?-some : (xs : List A) (i : ℕ) → i < length xs → (x : A) × (get_elem? xs i ≡ some x)
  get_elem?-some [] i h = absurd (omega arith)
  get_elem?-some (x ∷ xs) zero h = (x, refl)
  get_elem?-some (x ∷ xs) (suc i) h = get_elem?-some xs i (omega arith)

  pub get_elem?_lt : (xs : List A) (i : ℕ) (x : A) → get_elem? xs i ≡ some x → i < length xs
  get_elem?_lt [] i x h = absurd (ground arith)
  get_elem?_lt (y ∷ xs) zero x h = omega arith
  get_elem?_lt (y ∷ xs) (suc i) x h = omega (arith, get_elem?_lt xs i x h)

  swap-some :
      (xs : List A) (a b : ℕ) (x y : A)
      → get_elem? xs a ≡ some x
      → get_elem? xs b ≡ some y
      → swap xs a b ≡ set (set xs a y) b x
  unfolding swap
  swap-some xs a b x y e f = rw (e, f, swap) refl

  -- What a swap leaves at each place.
  pub get_elem?-swap :
      (xs : List A) (a b c : ℕ)
      → a < length xs
      → b < length xs
      → get_elem? (swap xs a b) c
        ≡ (if b == c then get_elem? xs a else if a == c then get_elem? xs b else get_elem? xs c)
  unfolding swap
  get_elem?-swap xs a b c ha hb =
      let (x, ex) = get_elem?-some xs a ha in
      let (y, ey) = get_elem?-some xs b hb in
      ap (λ l. get_elem? l c) (swap-some xs a b x y ex ey)
      ∙ (get_elem?-set (set xs a y) b c x (rw (length-set xs a y) hb)
          ∙ ground (arith, ex, ey, get_elem?-set xs a c y ha))

  pub length-swap : (xs : List A) (a b : ℕ) → length (swap xs a b) ≡ length xs
  unfolding swap
  length-swap xs a b = elim (Option-cases (get_elem? xs a)) [
    | inl e ↦ rw (e, swap) refl
    | inr (x, e) ↦ elim (Option-cases (get_elem? xs b)) [
      | inl f ↦ rw (e, f, swap) refl
      | inr (y, f) ↦ rw (e, f, swap) (length-set (set xs a y) b x ∙ length-set xs a y)
    ]
  ]

  -- What is written and what was there change places.
  set-Perm :
      (xs : List A) (i : ℕ) (x v : A) → get_elem? xs i ≡ some x → Perm (x ∷ set xs i v) (v ∷ xs)
  set-Perm [] i x v h = absurd (ground arith)
  set-Perm (w ∷ xs) zero x v h = let e : w ≡ x = ground arith in rw e (Perm.swap v x xs)
  set-Perm (w ∷ xs) (suc i) x v h =
      Perm.trans (Perm.swap w x (set xs i v))
        (Perm.trans (Perm.cons w (set-Perm xs i x v h)) (Perm.swap v w xs))

  pub swap-Perm : (xs : List A) (a b : ℕ) → Perm (swap xs a b) xs
  unfolding swap
  swap-Perm xs a b = elim (Option-cases (get_elem? xs a)) [
    | inl e ↦ rw (e, swap) (Perm.refl xs)
    | inr (x, e) ↦ elim (Option-cases (get_elem? xs b)) [
      | inl f ↦ rw (e, f, swap) (Perm.refl xs)
      | inr (y, f) ↦
          let there : get_elem? (set xs a y) b ≡ some y =
            get_elem?-set xs a b y (get_elem?_lt xs a x e) ∙ ground (arith, f) in
          rw (e, f, swap)
            ((perm-cons y).0 (Perm.trans (set-Perm (set xs a y) b y x there) (set-Perm xs a x y e)))
    ]
  ]

-- How many places are still unmarked.
unfoldable pub unmarked : List Bool → ℕ
unmarked [] = 0
unmarked (true ∷ marks) = unmarked marks
unmarked (false ∷ marks) = suc (unmarked marks)

pub unmarked-set :
    (marks : List Bool) (i : ℕ)
    → i < length marks
    → get_or marks i false ≡ false
    → unmarked marks ≡ suc (unmarked (set marks i true))
unfolding unmarked
unmarked-set [] i h e = absurd (omega arith)
unmarked-set (true ∷ marks) zero h e = absurd (ground arith)
unmarked-set (false ∷ marks) zero h e = refl
unmarked-set (true ∷ marks) (suc i) h e = unmarked-set marks i (omega arith) e
unmarked-set (false ∷ marks) (suc i) h e = ap suc (unmarked-set marks i (omega arith) e)

pub unmarked-le : (marks : List Bool) → unmarked marks ≤ length marks
unfolding unmarked
unmarked-le [] = omega arith
unmarked-le (true ∷ marks) = omega (arith, unmarked-le marks)
unmarked-le (false ∷ marks) = omega (arith, unmarked-le marks)

module _ {ℓ} {A : Type ℓ} where
  pub take-set : (n : ℕ) (xs : List A) (i : ℕ) (v : A) → take n (set xs i v) ≡ set (take n xs) i v
  take-set zero xs i v = refl
  take-set (suc n) [] i v = refl
  take-set (suc n) (x ∷ xs) zero v = refl
  take-set (suc n) (x ∷ xs) (suc i) v = ap (◌∷◌ x) (take-set n xs i v)

  pub get_or-take :
      (n : ℕ) (xs : List A) (i : ℕ) (d : A) → i < n → get_or (take n xs) i d ≡ get_or xs i d
  get_or-take zero xs i d h = absurd (omega arith)
  get_or-take (suc n) [] i d h = refl
  get_or-take (suc n) (x ∷ xs) zero d h = refl
  get_or-take (suc n) (x ∷ xs) (suc i) d h = get_or-take n xs i d (omega arith)

  pub set-set : (xs : List A) (i : ℕ) (v : A) → set (set xs i v) i v ≡ set xs i v
  set-set [] i v = refl
  set-set (x ∷ xs) zero v = refl
  set-set (x ∷ xs) (suc i) v = ap (◌∷◌ x) (set-set xs i v)

pub set_same :
    {A : Type 0} (xs : List A) (i : ℕ) (v d : A)
    → i < length xs
    → get_or xs i d ≡ v
    → set xs i v ≡ xs
set_same [] i v d h e = refl
set_same (x ∷ xs) zero v d h e = ap (λ z. z ∷ xs) (sym e)
set_same (x ∷ xs) (suc i) v d h e = ap (◌∷◌ x) (set_same xs i v d (omega arith) e)

-- A fresh mark among the first `n` places leaves one unmarked place less there.
pub unmarked-mark :
    (n : ℕ) (marks : List Bool) (i : ℕ)
    → i < n
    → n ≤ length marks
    → get_or marks i false ≡ false
    → unmarked (take n marks) ≡ suc (unmarked (take n (set marks i true)))
unmarked-mark n marks i h r e =
    unmarked-set (take n marks) i (rw (length-take n marks) (omega arith))
      (get_or-take n marks i false h ∙ e)
    ∙ ap (λ l. suc (unmarked l)) (sym (take-set n marks i true))
