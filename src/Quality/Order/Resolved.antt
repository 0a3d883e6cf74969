-- ===== src/Quality/Order/Resolved.antt =====
-- What `CandidateIdOrder::resolve` of ai.rs accepts, as a whole.
use kanai.Base.{
  ℕ, ◌+◌, ◌<◌, ◌≤◌, false, List, ◌≡◌, ap, subst, ◌∙◌, ◌==◌, ==_iff, length, get_elem?, get_or, take,
  replicate, length-take, length-replicate, arith, Bool-cases, Result-cases, inl, inr, ok,
}
use kanai.Quality.Limits.{max_local_quality_candidates}
use kanai.Quality.Order.{
  CandidateIdOrder, IndexOrder, as_slice, place_ids, check_moves, abs_diff, usize_max, resolve,
}
use kanai.Quality.Order.Places.{get_or-take, get_elem?_lt, get_elem?-some}
use kanai.Quality.Order.Cycles.{IsPermutation}
use kanai.Quality.Order.Fresh.{IsSized}
use kanai.Quality.Order.Resolve.{Placed, place_ids-Placed, check_moves_near}

-- An id order as its constructors make it.
pub record IsIdOrder (self : CandidateIdOrder) : Type 0 where
  pub few : self.len ≤ max_local_quality_candidates
  pub places : length self.ids ≡ max_local_quality_candidates

-- The order takes each expected id to one place, at most `shift` places away.
pub record Resolved (self : CandidateIdOrder) (expected : List ℕ) (shift : ℕ) (order : IndexOrder)
    : Type 0 where
  pub sized : IsSized order
  pub covers : order.len ≡ length expected
  pub once : IsPermutation order.old_indices order.len
  pub names :
      (i : ℕ)
      → i < order.len
      → get_elem? expected (get_or order.old_indices i 0) ≡ get_elem? (as_slice self) i
  pub near : (i : ℕ) → i < order.len → abs_diff (get_or order.old_indices i 0) i ≤ shift
  pub still :
      order.changed_positions ≡ 0 → (i : ℕ) → i < order.len → get_or order.old_indices i 0 ≡ i

Placed-Resolved :
    (self : CandidateIdOrder) (expected : List ℕ) (shift : ℕ) (placed : List ℕ × ℕ)
    → IsIdOrder self
    → self.len ≡ length expected
    → Placed expected 0
        (as_slice self)
        (replicate max_local_quality_candidates usize_max)
        (replicate max_local_quality_candidates false)
        0
        placed.0
        placed.1
    → check_moves shift 0 (take (length expected) placed.0) ≡ ok tt
    → Resolved self expected shift
        (record { old_indices = placed.0; len = self.len; changed_positions = placed.1 })
Placed-Resolved self expected shift placed s covers p moves =
    let all : length (as_slice self) ≡ self.len =
      length-take self.len self.ids ∙ omega (arith, s.few, s.places) in
    let size : length placed.0 ≡ 9 = p.size ∙ length-replicate 9 usize_max in
    let upto : (i : ℕ) → i < self.len → i < 0 + length (as_slice self) =
      λ i h. omega (arith, h, all) in
    let names : (i : ℕ)
        → i < self.len
        → get_elem? expected (get_or placed.0 i 0) ≡ get_elem? (as_slice self) i =
      λ i h. p.found i (omega arith) (upto i h) ∙ ap (get_elem? (as_slice self)) (omega arith) in
    record {
      sized = record { few = s.few; places = size };
      covers = covers;
      once = record {
        bounded = λ i h.
            let (id, e) = get_elem?-some (as_slice self) i (omega (arith, h, all)) in
            let lt = get_elem?_lt expected (get_or placed.0 i 0) id (names i h ∙ e) in
            omega (arith, lt, covers);
        injective =
            λ i j hi hj e. p.distinct i j (omega arith) (upto i hi) (omega arith) (upto j hj) e;
      };
      names = names;
      near = λ i h.
          let hl : i < length (take (length expected) placed.0) =
            rw (length-take (length expected) placed.0) (omega (arith, h, covers, size, s.few)) in
          let near = check_moves_near shift 0 (take (length expected) placed.0) i moves hl in
          let same = get_or-take (length expected) placed.0 i 0 (omega (arith, h, covers)) in
          omega (arith, near, same);
      still = λ e i h. p.still e i (omega arith) (upto i h);
    }

-- An id order that `resolve` accepts takes every expected id to exactly one place, and no other id;
-- each candidate moves by at most `max_rank_shift` places; and where no position is counted as
-- changed, every candidate stays where it is.
pub resolve-Resolved :
    (self : CandidateIdOrder) (expected : List ℕ) (max_rank_shift : ℕ) (order : IndexOrder)
    → IsIdOrder self
    → resolve self expected max_rank_shift ≡ ok order
    → Resolved self expected max_rank_shift order
unfolding resolve
resolve-Resolved self expected max_rank_shift order s e =
    let blank = replicate max_local_quality_candidates false in
    let olds = replicate max_local_quality_candidates usize_max in
    elim (Bool-cases (self.len == length expected)) [
      | inr differ ↦ absurd (ground (arith, e, differ))
      | inl same ↦
          let covers : self.len ≡ length expected = (==_iff self.len (length expected)).0 same in
          elim (Result-cases (place_ids expected 0 (as_slice self) olds blank 0)) [
            | inr (r, f) ↦ absurd (ground (arith, e, same, f))
            | inl (placed, f) ↦
                elim (Result-cases
                  (check_moves max_rank_shift 0 (take (length expected) placed.0))) [
                    | inr (r, g) ↦ absurd (ground (arith, e, same, f, g))
                    | inl (tt, g) ↦
                        let p =
                          place_ids-Placed expected 0 (as_slice self) olds blank 0 placed
                            (rw (length-take self.len self.ids) (omega (arith, s.few, s.places)))
                            (omega (arith, covers, s.few)) f in
                        subst (Resolved self expected max_rank_shift)
                          (ground (arith, e, same, f, g))
                          (Placed-Resolved self expected max_rank_shift placed s covers p g)
                  ]
          ]
    ]
