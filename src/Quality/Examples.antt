-- ===== src/Quality/Examples.antt =====
-- Tests and examples of the orders, limits and contexts of ai.rs.
use mathlib.Core.List.{Nodup, Nodup-cons, Nodup-nil, mem-cons, not-mem-nil}
use mathlib.Core.List.Perm
use mathlib.Core.Logic.Or
use kanai.Quality.Order.Places.{get_elem?_lt}
use kanai.Quality.Order.Accepted.{resolve-accepts}
use kanai.Base.{
  map, ◌++◌, ℕ, zero, suc, ◌<◌, ◌≤◌, min, false, List, [], ◌∷◌, ◌≡◌, refl, length, get_elem?,
  get_or, replicate, arith, ok, err,
}
use kanai.Protocol.Text.{codes}
use kanai.Quality.Limits.{
  bounded_context, LocalQualityConfig, new_config, with_limits, with_fast_deadline, IsBounded,
  created, limited, timed, Built-IsBounded, weight, recommend_tier_for_memory,
  recommend_tier_for_memory_mono,
}
use kanai.Quality.Order.{
  check_moves, id_position, place_ids, swap, follow, any_unseen, check_indices, CandidateIdOrder,
  IndexOrder, incomplete_candidate_set, follow_all, apply_index_order, resolve, deserialize,
  malformed_element, invalid_length,
}
use kanai.Quality.Order.Cycles.{IsPermutation}
use kanai.Quality.Order.Walk.{Gathered, follow_all_ends}
use kanai.Quality.Order.Fresh.{IsSized}
use kanai.Quality.Order.Outcome.{Walked-start, apply_index_order-gathers, apply_index_order-rejects}
use kanai.Quality.Order.Resolved.{IsIdOrder, Resolved, resolve-Resolved}
use kanai.Quality.Order.Serialized.{Reads, deserialize-Reads, deserialize_refuses}
use kanai.Quality.Context.{is_whitespace, scan_before, scan_after, bounded, bound_context}
use kanai.Quality.Context.Bounds.{Fits, bound_context-Fits}

abbrev letters : List ℕ
letters = 0x61 ∷ 0x62 ∷ 0x63 ∷ 0x64 ∷ []

-- The cycle 0 → 2 → 1 → 0, and a fixed place.
abbrev turned : IndexOrder
turned = record {
  old_indices = 2 ∷ 0 ∷ 1 ∷ 0 ∷ 0 ∷ 0 ∷ 0 ∷ 0 ∷ 0 ∷ [];
  len = 3;
  changed_positions = 3;
}

apply_turned : apply_index_order letters turned ≡ (0x63 ∷ 0x61 ∷ 0x62 ∷ 0x64 ∷ [], ok 3)
unfolding apply_index_order check_indices any_unseen follow_all follow swap
apply_turned = refl

turned-IsSized : IsSized turned
turned-IsSized = record { few = omega arith; places = refl }

turned_bounded : (i : ℕ) → i < 3 → get_or turned.old_indices i 0 < 3
turned_bounded zero h = omega arith
turned_bounded (suc zero) h = omega arith
turned_bounded (suc (suc zero)) h = omega arith
turned_bounded (suc (suc (suc i))) h = absurd (omega (arith, h))

turned_injective :
    (i j : ℕ)
    → i < 3
    → j < 3
    → get_or turned.old_indices i 0 ≡ get_or turned.old_indices j 0
    → i ≡ j
turned_injective zero zero hi hj e = refl
turned_injective zero (suc zero) hi hj e = absurd (ground (arith, e))
turned_injective zero (suc (suc zero)) hi hj e = absurd (ground (arith, e))
turned_injective (suc zero) zero hi hj e = absurd (ground (arith, e))
turned_injective (suc zero) (suc zero) hi hj e = refl
turned_injective (suc zero) (suc (suc zero)) hi hj e = absurd (ground (arith, e))
turned_injective (suc (suc zero)) zero hi hj e = absurd (ground (arith, e))
turned_injective (suc (suc zero)) (suc zero) hi hj e = absurd (ground (arith, e))
turned_injective (suc (suc zero)) (suc (suc zero)) hi hj e = refl
turned_injective (suc (suc (suc i))) j hi hj e = absurd (omega (arith, hi))
turned_injective i (suc (suc (suc j))) hi hj e = absurd (omega (arith, hj))

turned-IsPermutation : IsPermutation turned.old_indices 3
turned-IsPermutation = record { bounded = turned_bounded; injective = turned_injective }

apply_index_order-gathers_example :
    ((apply_index_order letters turned).1 ≡ ok 3)
    × (length (apply_index_order letters turned).0 ≡ 4)
    × ((i : ℕ)
        → i < 3
        → get_elem? (apply_index_order letters turned).0 i
          ≡ get_elem? letters (get_or turned.old_indices i 0))
    × ((i : ℕ) → 3 ≤ i → get_elem? (apply_index_order letters turned).0 i ≡ get_elem? letters i)
apply_index_order-gathers_example =
    apply_index_order-gathers letters turned turned-IsSized turned-IsPermutation (omega arith)

follow_all_ends_example :
    Gathered turned.old_indices 3 turned-IsPermutation letters
      (omega arith)
      (follow_all 3 turned.old_indices 0 3 letters (replicate 9 false))
follow_all_ends_example =
    follow_all_ends turned.old_indices 3 turned-IsPermutation letters (omega arith) 3 0 3 letters
      (replicate 9 false) (omega arith) refl
      (Walked-start turned.old_indices 3 letters (omega arith)) (λ i h. absurd (omega (arith, h)))

-- A repeated old index.
abbrev repeated : IndexOrder
repeated = record {
  old_indices = 1 ∷ 1 ∷ 2 ∷ 0 ∷ 0 ∷ 0 ∷ 0 ∷ 0 ∷ 0 ∷ [];
  len = 3;
  changed_positions = 1;
}

repeated_refused : (apply_index_order letters repeated).1 ≡ err incomplete_candidate_set
unfolding apply_index_order check_indices
repeated_refused = refl

apply_index_order-rejects_example :
    (incomplete_candidate_set ≡ incomplete_candidate_set)
    × ((apply_index_order letters repeated).0 ≡ letters)
    × ¬ (IsPermutation repeated.old_indices 3 × (3 ≤ 4))
apply_index_order-rejects_example =
    apply_index_order-rejects letters repeated incomplete_candidate_set
      (record { few = omega arith; places = refl }) repeated_refused

abbrev asked : CandidateIdOrder
asked = record { ids = 30 ∷ 10 ∷ 20 ∷ 0 ∷ 0 ∷ 0 ∷ 0 ∷ 0 ∷ 0 ∷ []; len = 3 }

abbrev placed : IndexOrder
placed = record {
  old_indices =
      2 ∷ 0 ∷ 1 ∷ 18446744073709551615 ∷ 18446744073709551615 ∷ 18446744073709551615
      ∷ 18446744073709551615 ∷ 18446744073709551615 ∷ 18446744073709551615 ∷ [];
  len = 3;
  changed_positions = 3;
}

asked-IsIdOrder : IsIdOrder asked
asked-IsIdOrder = record { few = omega arith; places = refl }

resolve-asked : resolve asked (10 ∷ 20 ∷ 30 ∷ []) 3 ≡ ok placed
unfolding resolve place_ids id_position check_moves
resolve-asked = refl

resolve-Resolved_example : Resolved asked (10 ∷ 20 ∷ 30 ∷ []) 3 placed
resolve-Resolved_example =
    resolve-Resolved asked (10 ∷ 20 ∷ 30 ∷ []) 3 placed asked-IsIdOrder resolve-asked

deserialize-Reads_example : Reads (7 ∷ 5 ∷ []) (deserialize (ok 7 ∷ ok 5 ∷ []))
deserialize-Reads_example = deserialize-Reads (7 ∷ 5 ∷ []) (omega arith)

abbrev ten_ids : List ℕ
ten_ids = 1 ∷ 2 ∷ 3 ∷ 4 ∷ 5 ∷ 6 ∷ 7 ∷ 8 ∷ 9 ∷ 10 ∷ []

deserialize_refuses_example :
    (deserialize (map ok ten_ids ++ (err 3 ∷ [])) ≡ err (invalid_length 10))
    × (deserialize (ok 7 ∷ err 4 ∷ err 3 ∷ []) ≡ err (malformed_element 4))
deserialize_refuses_example = deserialize_refuses ten_ids (err 3 ∷ []) (7 ∷ []) 4 refl (omega arith)

abbrev wide : LocalQualityConfig
wide = with_fast_deadline (with_limits (new_config bounded_context) 100 100 100 1000) 500000000

Built-IsBounded_example : IsBounded wide
Built-IsBounded_example =
    Built-IsBounded (timed 500000000 (limited 100 100 100 1000 (created bounded_context)))

recommend_tier_for_memory_mono_example :
    weight (recommend_tier_for_memory 8 4 2) ≤ weight (recommend_tier_for_memory 16 8 8)
recommend_tier_for_memory_mono_example =
    recommend_tier_for_memory_mono 8 4 2 16 8 8 (omega arith) (omega arith) (omega arith)

-- A tab, a line feed and spaces around the words.
bound_context-Fits_example :
    Fits
      (min wide.max_context_chars 32)
      (bound_context wide (codes "\ta  b ") (codes "\n c")).values
bound_context-Fits_example = bound_context-Fits wide (codes "\ta  b ") (codes "\n c")

separated :
    bound_context wide (codes " a") (codes "b")
    ≡ record { values = 0x61 ∷ 0x20 ∷ 0x62 ∷ []; before_len = 1 }
unfolding bound_context new_config with_limits with_fast_deadline bounded scan_after scan_before
    is_whitespace
separated = refl

abbrev two_ids : List ℕ
two_ids = 10 ∷ 20 ∷ []

abbrev two_back : List ℕ
two_back = 20 ∷ 10 ∷ []

abbrev pair : CandidateIdOrder
pair = record { ids = 20 ∷ 10 ∷ 0 ∷ 0 ∷ 0 ∷ 0 ∷ 0 ∷ 0 ∷ 0 ∷ []; len = 2 }

pair_distinct : Nodup two_ids
pair_distinct = Nodup-cons.1 (
  λ m. Or.elim (λ x y. absurd x) (mem-cons.0 m) (λ e. absurd (omega (arith, e))) not-mem-nil,
  Nodup-cons.1 (not-mem-nil, Nodup-nil),
)

resolve-accepts_example : (order : IndexOrder) × (resolve pair two_ids 1 ≡ ok order)
resolve-accepts_example =
    resolve-accepts pair two_ids 1 (record { few = omega arith; places = refl }) pair_distinct
      (Perm.swap 20 10 [])
      (λ i k x e f. omega (arith, get_elem?_lt two_back i x e, get_elem?_lt two_ids k x f))
