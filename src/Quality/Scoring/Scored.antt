-- ===== src/Quality/Scoring/Scored.antt =====
-- `IndexOrder::from_scored` of ai.rs on sorted scores.
use mathlib.Core.List.{Perm}
use mathlib.Core.List.Perm
use kanai.Base.{
  ℕ, zero, suc, ◌+◌, ◌<◌, ◌≤◌, List, [], ◌∷◌, ◌≡◌, refl, sym, ap, subst, ◌∙◌, length, length-perm,
  get_or, replicate, arith,
}
use kanai.Quality.Limits.{max_local_quality_candidates}
use kanai.Quality.Order.{IndexOrder, overwrite}
use kanai.Quality.Order.Cycles.{IsPermutation}
use kanai.Quality.Order.Fresh.{IsSized}
use kanai.Quality.Scoring.{ScoredCandidate, sort_scored, count_changed, from_scored}
use kanai.Quality.Scoring.Sorted.{
  indices, sort_scored-Perm, upto, mem-upto, upto-Nodup, length-upto, mem-get_or, one_place,
}

pub length-overwrite {ℓ} : {A : Type ℓ} (xs ys : List A) → length (overwrite xs ys) ≡ length ys
length-overwrite [] ys = refl
length-overwrite (x ∷ xs) [] = refl
length-overwrite (x ∷ xs) (y ∷ ys) = ap suc (length-overwrite xs ys)

get_or-overwrite {ℓ} :
    {A : Type ℓ} (xs ys : List A) (i : ℕ) (d : A)
    → i < length xs
    → length xs ≤ length ys
    → get_or (overwrite xs ys) i d ≡ get_or xs i d
get_or-overwrite [] ys i d h k = absurd (omega (arith, h))
get_or-overwrite (x ∷ xs) [] i d h k = absurd (omega (arith, k))
get_or-overwrite (x ∷ xs) (y ∷ ys) zero d h k = refl
get_or-overwrite (x ∷ xs) (y ∷ ys) (suc i) d h k =
    get_or-overwrite xs ys i d (omega (arith, h)) (omega (arith, k))

length-indices : (l : List ScoredCandidate) → length (indices l) ≡ length l
length-indices [] = refl
length-indices (a ∷ l) = ap suc (length-indices l)

still_places :
    (from : ℕ) (l : List ScoredCandidate) (i : ℕ)
    → count_changed from l ≡ 0
    → i < length l
    → get_or (indices l) i 0 ≡ from + i
unfolding count_changed
still_places from [] i e h = absurd (omega (arith, h))
still_places from (a ∷ l) zero e h = ground (arith, e)
still_places from (a ∷ l) (suc i) e h =
    let rest : count_changed (suc from) l ≡ 0 = ground (arith, e) in
    omega (arith, still_places (suc from) l i rest (omega (arith, h)))

-- At most nine scores, whose old indices are those from zero on.
pub record IsWindow (scored : List ScoredCandidate) : Type 0 where
  pub few : length scored ≤ max_local_quality_candidates
  pub numbered : indices scored ≡ upto 0 (length scored)

-- What `rank_fast` uses of an order that it makes.
pub record IsMade (order : IndexOrder) (len : ℕ) : Type 0 where
  pub covers : order.len ≡ len
  pub sized : IsSized order
  pub once : IsPermutation order.old_indices order.len
  pub still :
      order.changed_positions ≡ 0 → (i : ℕ) → i < order.len → get_or order.old_indices i 0 ≡ i

module _ (scored : List ScoredCandidate) (w : IsWindow scored) where
  sorted : List ScoredCandidate
  sorted = sort_scored scored

  sorted_perm : Perm (indices sorted) (upto 0 (length scored))
  unfolding sorted
  sorted_perm = subst (Perm (indices (sort_scored scored))) w.numbered (sort_scored-Perm scored)

  length-sorted : length sorted ≡ length scored
  unfolding sorted
  length-sorted =
      sym (length-indices sorted) ∙ (length-perm sorted_perm ∙ length-upto 0 (length scored))

  place :
      (i : ℕ)
      → i < length sorted
      → get_or (from_scored sorted).old_indices i 0 ≡ get_or (indices sorted) i 0
  unfolding from_scored
  place i h =
      get_or-overwrite (indices sorted) (replicate max_local_quality_candidates 0) i 0
        (rw (length-indices sorted) h) (rw (length-indices sorted, length-sorted) w.few)

  pub from_scored-IsMade : IsMade (from_scored (sort_scored scored)) (length scored)
  unfolding from_scored sorted
  from_scored-IsMade =
      let all = length-indices sorted in
      record {
        covers = length-sorted;
        sized = record {
          few = omega (arith, length-sorted, w.few);
          places = length-overwrite (indices sorted) (replicate max_local_quality_candidates 0);
        };
        once = record {
          bounded = λ i h.
              let member =
                (Perm.mem_iff sorted_perm).0
                  (mem-get_or (indices sorted) i (omega (arith, all, h))) in
              let (low, high) = mem-upto (get_or (indices sorted) i 0) 0 (length scored) member in
              omega (arith, high, place i h, length-sorted);
          injective = λ i j hi hj e.
              one_place (indices sorted) i j
                ((Perm.Nodup-iff sorted_perm).1 (upto-Nodup 0 (length scored)))
                (omega (arith, all, hi)) (omega (arith, all, hj))
                (sym (place i hi) ∙ (e ∙ place j hj));
        };
        still = λ e i h. place i h ∙ still_places 0 sorted i e h ∙ omega arith;
      }
