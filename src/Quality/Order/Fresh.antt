-- ===== src/Quality/Order/Fresh.antt =====
-- The validation of an order in `apply_index_order` of ai.rs.
use kanai.Base.{
  ℕ, zero, suc, ◌+◌, ◌<◌, ◌≤◌, Bool, true, false, some, List, [], ◌∷◌, ◌≡◌, ◌≢◌, refl, sym, ap, ◌∙◌,
  ◌==◌, ==_iff, length, get_or, set, take, replicate, length-take, if◌then◌else◌, arith, Bool-cases,
  inl, inr,
}
use kanai.Quality.Limits.{max_local_quality_candidates}
use kanai.Quality.Order.{IndexOrder, check_indices, any_unseen}
use kanai.Quality.Order.Places.{length-set, get_or-set, get_or-take, unmarked, unmarked-mark}
use kanai.Quality.Order.Cycles.{IsPermutation}

-- Indices that are in range, differ from each other, and have no mark.
pub record IsFresh (len : ℕ) (seen : List Bool) (indices : List ℕ) : Type 0 where
  bounded : (i : ℕ) → i < length indices → get_or indices i 0 < len
  distinct :
      (i j : ℕ)
      → i < length indices
      → j < length indices
      → get_or indices i 0 ≡ get_or indices j 0
      → i ≡ j
  unseen : (i : ℕ) → i < length indices → get_or seen (get_or indices i 0) false ≡ false

IsFresh-rest :
    (len : ℕ) (seen : List Bool) (x : ℕ) (rest : List ℕ)
    → len ≤ length seen
    → IsFresh len seen (x ∷ rest)
    → IsFresh len (set seen x true) rest
IsFresh-rest len seen x rest room f = record {
  bounded = λ i h. f.bounded (suc i) (omega (arith, h));
  distinct = λ i j hi hj e.
      omega (arith, f.distinct (suc i) (suc j) (omega (arith, hi)) (omega (arith, hj)) e);
  unseen = λ i h.
      let there : x < length seen = omega (arith, room, f.bounded 0 (omega arith)) in
      elim (Bool-cases (x == get_or rest i 0)) [
        | inl e ↦ absurd (
            omega (arith, f.distinct 0 (suc i) (omega arith) (omega (arith, h)) ((==_iff x _).0 e)))
        | inr e ↦
            get_or-set seen x (get_or rest i 0) true false there
            ∙ rw e (f.unseen (suc i) (omega (arith, h)))
      ];
}

-- Fresh indices are accepted, and each leaves one place less without a mark.
pub check_indices-accepts :
    (len : ℕ) (seen : List Bool) (indices : List ℕ)
    → len ≤ length seen
    → IsFresh len seen indices
    → (marks : List Bool) × (check_indices len seen indices ≡ some marks)
      × (unmarked (take len marks) + length indices ≡ unmarked (take len seen))
unfolding check_indices
check_indices-accepts len seen [] room f = (seen, refl, omega arith)
check_indices-accepts len seen (x ∷ rest) room f =
    let hx : x < len = f.bounded 0 (omega arith) in
    let fresh : get_or seen x false ≡ false = f.unseen 0 (omega arith) in
    let (marks, e, count) =
      check_indices-accepts len (set seen x true) rest (rw (length-set seen x true) room)
        (IsFresh-rest len seen x rest room f) in
    (
      marks,
      ground (arith, fresh, e, hx),
      omega (arith, count, unmarked-mark len seen x hx room fresh),
    )

-- An index in range that has no mark, in front of indices that are fresh once it is marked.
module _ (len : ℕ) (seen : List Bool) (x : ℕ) (rest : List ℕ) (room : len ≤ length seen)
    (hx : x < len) (fresh : get_or seen x false ≡ false)
    (f : IsFresh len (set seen x true) rest) where
  marked :
      (i : ℕ) → get_or (set seen x true) i false ≡ (if x == i then true else get_or seen i false)
  marked i = get_or-set seen x i true false (omega (arith, room, hx))

  apart : (i : ℕ) → i < length rest → x ≢ get_or rest i 0
  apart i h e =
      ground (arith, marked (get_or rest i 0), f.unseen i h, (==_iff x (get_or rest i 0)).1 e)

  cons_bounded : (i : ℕ) → i < suc (length rest) → get_or (x ∷ rest) i 0 < len
  cons_bounded zero h = hx
  cons_bounded (suc i) h = f.bounded i (omega (arith, h))

  cons_distinct :
      (i j : ℕ)
      → i < suc (length rest)
      → j < suc (length rest)
      → get_or (x ∷ rest) i 0 ≡ get_or (x ∷ rest) j 0
      → i ≡ j
  cons_distinct zero zero hi hj e = refl
  cons_distinct zero (suc j) hi hj e = absurd (apart j (omega (arith, hj)) e)
  cons_distinct (suc i) zero hi hj e = absurd (apart i (omega (arith, hi)) (sym e))
  cons_distinct (suc i) (suc j) hi hj e =
      ap suc (f.distinct i j (omega (arith, hi)) (omega (arith, hj)) e)

  cons_unseen : (i : ℕ) → i < suc (length rest) → get_or seen (get_or (x ∷ rest) i 0) false ≡ false
  cons_unseen zero h = fresh
  cons_unseen (suc i) h = ground (arith, marked (get_or rest i 0), f.unseen i (omega (arith, h)))

  IsFresh-cons : IsFresh len seen (x ∷ rest)
  IsFresh-cons = record { bounded = cons_bounded; distinct = cons_distinct; unseen = cons_unseen }

pub check_indices-IsFresh :
    (len : ℕ) (seen : List Bool) (indices : List ℕ) (marks : List Bool)
    → len ≤ length seen
    → check_indices len seen indices ≡ some marks
    → IsFresh len seen indices
unfolding check_indices
check_indices-IsFresh len seen [] marks room e = record {
  bounded = λ i h. absurd (omega (arith, h));
  distinct = λ i j hi hj p. absurd (omega (arith, hi));
  unseen = λ i h. absurd (omega (arith, h));
}
check_indices-IsFresh len seen (x ∷ rest) marks room e =
    let hx : x < len = ground arith in
    let fresh : get_or seen x false ≡ false = ground arith in
    IsFresh-cons len seen x rest room hx fresh (
      check_indices-IsFresh len (set seen x true) rest marks (rw (length-set seen x true) room)
        (ground arith))

pub no_unseen : (marks : List Bool) → unmarked marks ≡ 0 → any_unseen marks ≡ false
unfolding any_unseen unmarked
no_unseen [] h = refl
no_unseen (true ∷ marks) h = no_unseen marks h
no_unseen (false ∷ marks) h = absurd (omega (arith, h))

-- An order as the engine makes it: at most nine old indices count, of nine places.
pub record IsSized (order : IndexOrder) : Type 0 where
  pub few : order.len ≤ max_local_quality_candidates
  pub places : length order.old_indices ≡ max_local_quality_candidates

pub IsFresh-IsPermutation :
    (order : IndexOrder) (seen : List Bool)
    → IsSized order
    → IsFresh order.len seen (take order.len order.old_indices)
    → IsPermutation order.old_indices order.len
IsFresh-IsPermutation order seen s f =
    let all : length (take order.len order.old_indices) ≡ order.len =
      length-take order.len order.old_indices ∙ omega (arith, s.few, s.places) in
    let same = λ (i : ℕ) (h : i < order.len). get_or-take order.len order.old_indices i 0 h in
    record {
      bounded = λ i h. rw (same i h) at (f.bounded i (omega (arith, h, all)));
      injective = λ i j hi hj e.
          f.distinct i j (omega (arith, hi, all)) (omega (arith, hj, all))
            (same i hi ∙ (e ∙ sym (same j hj)));
    }

pub get_or-replicate : (n i : ℕ) → get_or (replicate n false) i false ≡ false
get_or-replicate zero i = refl
get_or-replicate (suc n) zero = refl
get_or-replicate (suc n) (suc i) = get_or-replicate n i

pub IsPermutation-IsFresh :
    (order : IndexOrder)
    → IsSized order
    → IsPermutation order.old_indices order.len
    → IsFresh order.len
        (replicate max_local_quality_candidates false)
        (take order.len order.old_indices)
IsPermutation-IsFresh order s p =
    let all : length (take order.len order.old_indices) ≡ order.len =
      length-take order.len order.old_indices ∙ omega (arith, s.few, s.places) in
    let same = λ (i : ℕ) (h : i < order.len). get_or-take order.len order.old_indices i 0 h in
    record {
      bounded =
          λ i h. let hi : i < order.len = omega (arith, h, all) in rw (same i hi) (p.bounded i hi);
      distinct = λ i j hi hj e.
          let hi' : i < order.len = omega (arith, hi, all) in
          let hj' : j < order.len = omega (arith, hj, all) in
          p.injective i j hi' hj' (sym (same i hi') ∙ (e ∙ same j hj'));
      unseen = λ i h. get_or-replicate 9 _;
    }
