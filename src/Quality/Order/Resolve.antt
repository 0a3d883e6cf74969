-- ===== src/Quality/Order/Resolve.antt =====
-- `CandidateIdOrder::resolve` of ai.rs: where an accepted order sends each candidate.
use kanai.Base.{
  ℕ, zero, suc, ◌+◌, ◌-◌, ◌<◌, ◌≤◌, Bool, true, false, some, List, [], ◌∷◌, ◌≡◌, ◌≢◌, ◌⊎◌, sym, ap,
  ◌∙◌, ◌==◌, ==_iff, length, get_elem?, get_or, set, if◌then◌else◌, arith, Bool-cases, Option-cases,
  inl, inr, ok,
}
use kanai.Quality.Order.{id_position, bump, place_ids, check_moves, abs_diff}
use kanai.Quality.Order.Places.{get_or-set, get_elem?_lt, length-set}

pub id_position_sound :
    (id : ℕ) (xs : List ℕ) (i : ℕ) → id_position id xs ≡ some i → get_elem? xs i ≡ some id
unfolding id_position
id_position_sound id [] i h = absurd (ground (arith, h))
id_position_sound id (x ∷ xs) zero h = ground (arith, h, ==_iff x id)
id_position_sound id (x ∷ xs) (suc i) h = id_position_sound id xs i (ground (arith, h))

-- What the first loop of `resolve` has done at its end, from place `from` on.
pub record Placed (expected : List ℕ) (from : ℕ) (ids old : List ℕ) (seen : List Bool) (changed : ℕ)
    (old' : List ℕ) (changed' : ℕ) : Type 0 where
  pub size : length old' ≡ length old
  pub kept : (i : ℕ) → i < from → get_or old' i 0 ≡ get_or old i 0
  pub found :
      (i : ℕ)
      → from ≤ i
      → i < from + length ids
      → get_elem? expected (get_or old' i 0) ≡ get_elem? ids (i - from)
  pub fresh :
      (i : ℕ) → from ≤ i → i < from + length ids → get_or seen (get_or old' i 0) false ≡ false
  pub distinct :
      (i j : ℕ)
      → from ≤ i
      → i < from + length ids
      → from ≤ j
      → j < from + length ids
      → get_or old' i 0 ≡ get_or old' j 0
      → i ≡ j
  pub grows : changed ≤ changed'
  pub still : changed' ≡ changed → (i : ℕ) → from ≤ i → i < from + length ids → get_or old' i 0 ≡ i

-- One more id in front, at place `from` and old place `x`.
module _ (expected : List ℕ) (from id x : ℕ) (ids old : List ℕ) (seen : List Bool) (changed : ℕ)
    (old' : List ℕ) (changed' : ℕ) (there : get_elem? expected x ≡ some id) (hx : x < length seen)
    (unseen : get_or seen x false ≡ false) (hf : from < length old)
    (p : Placed expected
      (suc from)
      ids
      (set old from x)
      (set seen x true)
      (bump x from changed)
      old'
      changed') where
  here : get_or old' from 0 ≡ x
  here = p.kept from (omega arith) ∙ (get_or-set old from from x 0 hf ∙ ground arith)

  split_at : (i : ℕ) → from ≤ i → (i ≡ from) ⊎ (suc from ≤ i)
  split_at i h = elim (Bool-cases (i == from)) [
    | inl e ↦ inl ((==_iff i from).0 e)
    | inr e ↦ inr (ground (arith, e, h))
  ]

  marked :
      (i : ℕ) → get_or (set seen x true) i false ≡ (if x == i then true else get_or seen i false)
  marked i = get_or-set seen x i true false hx

  later_apart : (i : ℕ) → suc from ≤ i → i < suc from + length ids → get_or old' i 0 ≢ x
  later_apart i h k e = ground (arith, p.fresh i h k, marked (get_or old' i 0), e)

  same_place : changed' ≡ changed → x ≡ from
  same_place h = ground (arith, p.grows, h)

  bumped : changed' ≡ changed → changed' ≡ bump x from changed
  bumped h = ground (arith, same_place h, h)

  Placed-cons : Placed expected from (id ∷ ids) old seen changed old' changed'
  Placed-cons = record {
    size = p.size ∙ length-set old from x;
    kept = λ i h. p.kept i (omega (arith, h)) ∙ (get_or-set old from i x 0 hf ∙ ground arith);
    found = λ i h k. elim (split_at i h) [
      | inl e ↦ let z : i - from ≡ 0 = omega (arith, e) in rw (z, e, here) there
      | inr g ↦
          let z : i - from ≡ suc (i - suc from) = omega (arith, g) in
          rw z (p.found i g (omega (arith, k)))
    ];
    fresh = λ i h k. elim (split_at i h) [
      | inl e ↦ rw (e, here) unseen
      | inr g ↦ ground (arith, p.fresh i g (omega (arith, k)), marked (get_or old' i 0))
    ];
    distinct = λ i j hi ki hj kj e. elim (split_at i hi) [
      | inl a ↦ elim (split_at j hj) [
        | inl b ↦ a ∙ sym b
        | inr b ↦
            absurd
              (later_apart j b (omega (arith, kj)) (sym e ∙ (ap (λ n. get_or old' n 0) a ∙ here)))
      ]
      | inr a ↦ elim (split_at j hj) [
        | inl b ↦
            absurd (later_apart i a (omega (arith, ki)) (e ∙ (ap (λ n. get_or old' n 0) b ∙ here)))
        | inr b ↦ p.distinct i j a (omega (arith, ki)) b (omega (arith, kj)) e
      ]
    ];
    grows = ground (arith, p.grows);
    still = λ same i h k. elim (split_at i h) [
      | inl e ↦ rw e (here ∙ same_place same)
      | inr g ↦ p.still (bumped same) i g (omega (arith, k))
    ];
  }

pub place_ids-Placed :
    (expected : List ℕ) (from : ℕ) (ids old : List ℕ) (seen : List Bool) (changed : ℕ)
    → (placed : List ℕ × ℕ) → from + length ids ≤ length old
    → length expected ≤ length seen
    → place_ids expected from ids old seen changed ≡ ok placed
    → Placed expected from ids old seen changed placed.0 placed.1
unfolding place_ids
place_ids-Placed expected from [] old seen changed placed room wide e =
    let same : old ≡ placed.0 = ground (arith, e) in
    record {
      size = ap length (sym same);
      kept = λ i h. ap (λ l. get_or l i 0) (sym same);
      found = λ i h k. absurd (omega (arith, h, k));
      fresh = λ i h k. absurd (omega (arith, h, k));
      distinct = λ i j hi ki hj kj p. absurd (omega (arith, hi, ki));
      grows = ground (arith, e);
      still = λ s i h k. absurd (omega (arith, h, k));
    }
place_ids-Placed expected from (id ∷ ids) old seen changed placed room wide e =
    elim (Option-cases (id_position id expected)) [
      | inl missing ↦ absurd (ground (arith, e, missing))
      | inr (x, at) ↦ elim (Bool-cases (get_or seen x false)) [
        | inl taken ↦ absurd (ground (arith, e, at, taken))
        | inr free ↦
            let there = id_position_sound id expected x at in
            let hx : x < length seen = omega (arith, wide, get_elem?_lt expected x id there) in
            Placed-cons expected from id x ids old seen changed placed.0 placed.1 there hx free
              (omega (arith, room))
              (place_ids-Placed expected (suc from) ids (set old from x) (set seen x true)
                (bump x from changed) placed (rw (length-set old from x) (omega (arith, room)))
                (rw (length-set seen x true) wide) (ground (arith, e, at, free)))
      ]
    ]

pub check_moves_near :
    (shift from : ℕ) (olds : List ℕ) (i : ℕ)
    → check_moves shift from olds ≡ ok tt
    → i < length olds
    → abs_diff (get_or olds i 0) (from + i) ≤ shift
unfolding check_moves
check_moves_near shift from [] i e h = absurd (omega (arith, h))
check_moves_near shift from (x ∷ olds) zero e h = ground (arith, e)
check_moves_near shift from (x ∷ olds) (suc i) e h =
    let near = check_moves_near shift (suc from) olds i (ground (arith, e)) (omega (arith, h)) in
    omega (arith, near)
