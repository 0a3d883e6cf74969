-- ===== src/Quality/Order.antt =====
-- Candidate id orders of ai.rs, their resolution to positions, and the in-place application of a
-- resolved order.
pub mod Places
pub mod Cycles
pub mod Walk
pub mod Fresh
pub mod Apply
pub mod Outcome
pub mod Resolve
pub mod Resolved
pub mod Accepted
pub mod Serialized
use kanai.Base.{
  ℕ, zero, suc, ◌+◌, ◌-◌, Bool, true, false, ◌||◌, not, Option, none, some, List, [], ◌∷◌, ltb, leb,
  ◌==◌, length, get_elem?, get_or, set, take, replicate, if◌then◌else◌, Result, ok, err, ◌>>=◌,
  ◌>>◌, fail_if, ok_or,
}
use kanai.Quality.Limits.{max_local_quality_candidates}

pub data RerankRejection : Type 0 where
  mozc_only policy_disabled stale_generation wrong_model_revision : RerankRejection
  wrong_learning_version wrong_model_tier wrong_input_revision : RerankRejection
  invalid_confidence low_confidence invalid_reason candidate_patch : RerankRejection
  unexpected_candidates incomplete_candidate_set duplicate_candidate : RerankRejection
  unknown_candidate : ℕ → RerankRejection
  movement_too_large candidate_set_changed invalid_input : RerankRejection
  duplicate_input_candidate insufficient_candidates : RerankRejection

-- An `i32` id is its bit pattern. `ids` has nine places, of which the first `len` count.
pub record CandidateIdOrder : Type 0 where
  pub ids : List ℕ
  pub len : ℕ

pub data CandidateOrderError : Type 0 where
  too_many_candidates : ℕ → ℕ → CandidateOrderError

-- `values[..ids.len()].copy_from_slice(ids)`
abbrev pub overwrite {ℓ} : {A : Type ℓ} → List A → List A → List A
overwrite [] ys = ys
overwrite (x ∷ xs) [] = []
overwrite (x ∷ xs) (y ∷ ys) = x ∷ overwrite xs ys

unfoldable pub from_slice : List ℕ → Result CandidateOrderError CandidateIdOrder
from_slice ids =
    if ltb max_local_quality_candidates (length ids)
    then err (too_many_candidates (length ids) max_local_quality_candidates)
    else ok (record {
      ids = overwrite ids (replicate max_local_quality_candidates 0);
      len = length ids;
    })

abbrev pub as_slice : CandidateIdOrder → List ℕ
as_slice self = take self.len self.ids

-- An element of the sequence is an id or an error of the deserializer, which stands for itself.
pub data SequenceError : Type 0 where
  malformed_element invalid_length : ℕ → SequenceError

-- The loop of `visit_seq`: the ids read so far, and the elements still in the sequence. It stops
-- with the error of an element, or with the length that is refused.
unfoldable pub visit_seq : List ℕ → ℕ → List (Result ℕ ℕ) → Result SequenceError CandidateIdOrder
visit_seq ids len [] = ok (record { ids = ids; len = len })
visit_seq ids len (err error ∷ rest) = err (malformed_element error)
visit_seq ids len (ok id ∷ rest) =
    let more = visit_seq (set ids len id) (suc len) rest in
    if len == max_local_quality_candidates then err (invalid_length (len + 1)) else more

unfoldable pub deserialize : List (Result ℕ ℕ) → Result SequenceError CandidateIdOrder
deserialize sequence = visit_seq (replicate max_local_quality_candidates 0) 0 sequence

pub record IndexOrder : Type 0 where
  pub old_indices : List ℕ
  pub len : ℕ
  pub changed_positions : ℕ

-- `iter().position(|expected| *expected == id)`
unfoldable pub id_position : ℕ → List ℕ → Option ℕ
id_position id [] = none
id_position id (x ∷ xs) =
    if x == id then some 0 else (elim (id_position id xs) [ none ↦ none | some i ↦ some (suc i) ])

abbrev pub bump : ℕ → ℕ → ℕ → ℕ
bump old_index new_index changed = if old_index == new_index then changed else changed + 1

-- The first loop of `resolve`: `new_index`, the ids from there on, and the three locals.
unfoldable pub place_ids :
    List ℕ → ℕ → List ℕ → List ℕ → List Bool → ℕ → Result RerankRejection (List ℕ × ℕ)
place_ids expected new_index [] old_indices seen changed = ok (old_indices, changed)
place_ids expected new_index (id ∷ ids) old_indices seen changed = do
  old_index ← ok_or (id_position id expected) (unknown_candidate id)
  fail_if (get_or seen old_index false) duplicate_candidate
  place_ids expected (suc new_index) ids (set old_indices new_index old_index)
      (set seen old_index true) (bump old_index new_index changed)

abbrev pub usize_max : ℕ
usize_max = 18446744073709551615

-- `usize::abs_diff`
abbrev pub abs_diff : ℕ → ℕ → ℕ
abs_diff a b = (a - b) + (b - a)

-- The second loop of `resolve`.
unfoldable pub check_moves : ℕ → ℕ → List ℕ → Result RerankRejection (Unit {0})
check_moves max_rank_shift new_index [] = ok tt
check_moves max_rank_shift new_index (old_index ∷ rest) = do
  fail_if (old_index == usize_max) incomplete_candidate_set
  fail_if (ltb max_rank_shift (abs_diff old_index new_index)) movement_too_large
  check_moves max_rank_shift (suc new_index) rest

unfoldable pub resolve : CandidateIdOrder → List ℕ → ℕ → Result RerankRejection IndexOrder
resolve self expected max_rank_shift = do
  fail_if (not (self.len == length expected)) incomplete_candidate_set
  placed ←
      place_ids expected 0 (as_slice self) (replicate max_local_quality_candidates usize_max)
        (replicate max_local_quality_candidates false) 0
  check_moves max_rank_shift 0 (take (length expected) placed.0)
  ok (record { old_indices = placed.0; len = self.len; changed_positions = placed.1 })

-- `values.swap(a, b)`. It panics out of bounds, where this changes nothing.
unfoldable pub swap {ℓ} : {A : Type ℓ} → List A → ℕ → ℕ → List A
swap values a b = elim (get_elem? values a) [
  | none ↦ values
  | some x ↦ elim (get_elem? values b) [ none ↦ values | some y ↦ set (set values a y) b x ]
]

-- The loop that validates the indices: it gives `seen`, or nothing where an index is refused.
unfoldable pub check_indices : ℕ → List Bool → List ℕ → Option (List Bool)
check_indices len seen [] = some seen
check_indices len seen (old_index ∷ rest) =
    let more = check_indices len (set seen old_index true) rest in
    if leb len old_index || get_or seen old_index false then none else more

unfoldable pub any_unseen : List Bool → Bool
any_unseen [] = false
any_unseen (visited ∷ rest) = not visited || any_unseen rest

-- The inner `loop`, on fuel: it swaps along the cycle of `start`.
unfoldable pub follow {ℓ} :
    {A : Type ℓ} → ℕ → List ℕ → ℕ → ℕ → List A → List Bool → Option (List A × List Bool)
follow zero old_indices start destination values visited = none
follow (suc fuel) old_indices start destination values visited =
    let source = get_or old_indices destination 0 in
    let values' = swap values destination source in
    let visited' = set (set visited destination true) source true in
    let more = follow fuel old_indices start source values' visited' in
    if get_or old_indices source 0 == start then some (values', visited') else more

-- `for start in 0..len`, from `start` with `left` rounds to go.
unfoldable pub follow_all {ℓ} :
    {A : Type ℓ} → ℕ → List ℕ → ℕ → ℕ → List A → List Bool → Option (List A)
follow_all fuel old_indices start zero values visited = some values
follow_all fuel old_indices start (suc left) values visited =
    let skipped = follow_all fuel old_indices (suc start) left values (set visited start true) in
    if get_or visited start false || get_or old_indices start 0 == start
    then skipped
    else (elim (follow fuel old_indices start start values visited) [
      | none ↦ none
      | some state ↦ follow_all fuel old_indices (suc start) left state.0 state.1
    ])

-- The slice afterwards, and what is returned. A cycle has at most `len` places, so that is the
-- fuel; the branch without fuel stands for no branch of the source.
unfoldable pub apply_index_order {ℓ} :
    {A : Type ℓ} → List A → IndexOrder → List A × Result RerankRejection ℕ
apply_index_order values order =
    if ltb (length values) order.len
    then (values, err incomplete_candidate_set)
    else (elim (check_indices order.len (replicate max_local_quality_candidates false)
        (take order.len order.old_indices)) [
          | none ↦ (values, err incomplete_candidate_set)
          | some seen ↦
              if any_unseen (take order.len seen)
              then (values, err incomplete_candidate_set)
              else (elim (follow_all order.len order.old_indices 0 order.len values
                  (replicate max_local_quality_candidates false)) [
                    | none ↦ (values, err incomplete_candidate_set)
                    | some values' ↦ (values', ok order.changed_positions)
                  ])
        ])
