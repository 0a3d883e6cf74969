-- ===== src/Quality/EngineExamples.antt =====
-- Tests and examples of the engine of ai.rs, with a small hasher and a small addition.
use kanai.Quality.Scoring.{
  any_far, ids_of, from_scored, count_changed, sort_scored, insert_scored, ranks_before,
  contains_text, occurs, ends_with, starts_with, drop_spaces,
}
use kanai.Quality.Floats.{total_key, is_finite, in_unit, float_lt}
use kanai.Quality.Context.{
  scan_before, scan_after, empty_context, bounded, bound_context, is_whitespace,
}
use kanai.Quality.Cache.{pop_excess, key_eq, insert_cache, take_entry, lookup_cache}
use mathlib.Core.List.{Perm}
use kanai.Base.{
  list_eq, ℕ, ◌+◌, ◌/◌, ◌^◌, ◌≤◌, true, false, some, none, List, [], ◌∷◌, ◌≡◌, refl, length, arith,
  Result, ok, err,
}
use kanai.Protocol.Text.{any_control, byte_len, Text, codes}
use kanai.Quality.Limits.{
  compact, bounded_context, LocalQualityConfig, new_config, created, Built-IsBounded,
}
use kanai.Quality.Order.{
  resolve, place_ids, id_position, check_moves, swap, follow_all, follow, check_indices,
  apply_index_order, any_unseen, CandidateIdOrder,
}
use kanai.Quality.Order.Resolved.{IsIdOrder}
use kanai.Quality.Window.{
  hash_cache_header, input_cache_key, candidate_writes, candidate_fingerprint, candidate_ids,
  repeats_id, valid_candidate_text, validate_window_from, validate_candidate_window, trim_start,
  trim_end, valid_reading, PersonalizedCandidate, CandidateAdjustments, conversion,
  LocalQualityRequest, Write,
}
use kanai.Quality.Decision.{
  validate_action, is_abstain, apply, all_match, matches_candidates, validate_semantic_rerank,
  SemanticRerankDecision, SemanticProviderError, SemanticRerankSnapshot, SemanticRerankPlan,
  SemanticRerankAdmission, rerank, semantic_context, timed_out, check_admission,
}
use kanai.Quality.Decision.Reordered.{IsAdmitted, Reordered}
use kanai.Quality.Engine.{
  resolve_decision, cached_semantic_rerank, LocalQualityEngine, new_engine, cache_entries,
  SemanticRerankResolution, resolution_applied, preserved_baseline, snapshot_of,
  capture_semantic_rerank, resolve_semantic_rerank,
}
use kanai.Quality.Engine.Semantic.{Origin}
use kanai.Quality.Engine.Sound.{new_engine-IsSound}
use kanai.Quality.Engine.Baseline.{
  resolve_semantic_rerank-Perm, resolve_semantic_rerank-preserves,
  resolve_semantic_rerank-Reordered,
}
use kanai.Quality.Engine.Reached.{made, Reached-cache_entries}
use kanai.Quality.Engine.Captured.{capture_semantic_rerank-check_admission}
use kanai.Quality.Engine.Fast.{
  fast_outcome, fast_score, score_from, cached_order, scored_order, fast_guards, rank_scored,
  rank_admitted, rank_fast,
}
use kanai.Quality.Engine.Fast.Ranked.{Ranked}
use kanai.Quality.Engine.Fast.Total.{rank_fast-Ranked}

abbrev small_digest : List Write → ℕ
small_digest writes = length writes

-- It grows with the bonus and stays finite.
abbrev small_add : ℕ → ℕ → ℕ
small_add score bonus = score + bonus / 2 ^ 8

abbrev no_adjustments : CandidateAdjustments
no_adjustments = record { mozc = 0; learning = 0; domain = 0; user_word = 0; context = 0 }

-- The scores are 100.0 and 99.0.
abbrev candidate : ℕ → Text → ℕ → PersonalizedCandidate
candidate id text score = record {
  candidate = record {
    id = id;
    text = text;
    reading = none;
    provider_rank = id;
    description = none;
    origin = conversion;
    attributes = [];
    log = none;
  };
  score = score;
  adjustments = no_adjustments;
  explanation = codes "test";
}

abbrev two : List PersonalizedCandidate
two =
    candidate 10 (codes "default") 0x4059_0000_0000_0000
    ∷ candidate 20 (codes "tokyo") 0x4058_c000_0000_0000
    ∷ []

abbrev swapped : List PersonalizedCandidate
swapped =
    candidate 20 (codes "tokyo") 0x4058_c000_0000_0000
    ∷ candidate 10 (codes "default") 0x4059_0000_0000_0000
    ∷ []

abbrev ask : LocalQualityRequest
ask = record {
  session_id = 7;
  generation = 42;
  current_generation = some 42;
  tier = compact;
  reading = codes "toukyou";
  context_before = codes "in tokyo";
  context_after = [];
  model_revision = 0x1234;
  learning_version = 9;
}

abbrev config : LocalQualityConfig
config = new_config bounded_context

abbrev engine : LocalQualityEngine
engine = new_engine config

abbrev snapshot : SemanticRerankSnapshot
snapshot = snapshot_of small_digest engine ask two

abbrev admission : SemanticRerankAdmission
admission = record {
  current_generation = some 42;
  current_model_revision = 0x1234;
  current_learning_version = 9;
  candidates = two;
}

abbrev order : CandidateIdOrder
order = record { ids = 20 ∷ 10 ∷ 0 ∷ 0 ∷ 0 ∷ 0 ∷ 0 ∷ 0 ∷ 0 ∷ []; len = 2 }

-- A confidence of 0.75.
abbrev decision : SemanticRerankDecision
decision = record {
  action = rerank;
  candidate_ids = order;
  patch = false;
  confidence = 0x3fe8_0000_0000_0000;
  reason = semantic_context;
  model_tier = compact;
  expires_at_generation = 42;
  input_revision = snapshot.input_revision;
  model_revision = 0x1234;
  learning_version = 9;
}

abbrev Answer : Type 0
Answer = LocalQualityEngine × List PersonalizedCandidate × SemanticRerankResolution

abbrev answer : Result SemanticProviderError SemanticRerankDecision → Answer
answer provider = resolve_semantic_rerank small_digest engine snapshot admission provider

answer_reorders : (answer (ok decision)).1 ≡ swapped
unfolding new_engine snapshot_of lookup_cache take_entry candidate_ids candidate_fingerprint
    candidate_writes input_cache_key hash_cache_header bound_context insert_cache key_eq pop_excess
    bounded empty_context is_whitespace scan_after scan_before trim_end trim_start any_unseen
    apply_index_order check_indices follow follow_all swap new_config resolve_semantic_rerank
    cached_semantic_rerank resolve_decision validate_semantic_rerank check_admission
    matches_candidates all_match apply is_abstain validate_action float_lt in_unit is_finite
    total_key check_moves id_position place_ids resolve
answer_reorders = refl

answer_applied : (answer (ok decision)).2 ≡ resolution_applied 2
unfolding new_engine snapshot_of lookup_cache take_entry candidate_ids candidate_fingerprint
    candidate_writes input_cache_key hash_cache_header bound_context insert_cache key_eq pop_excess
    bounded empty_context is_whitespace scan_after scan_before trim_end trim_start any_unseen
    apply_index_order check_indices follow follow_all swap new_config resolve_semantic_rerank
    cached_semantic_rerank resolve_decision validate_semantic_rerank check_admission
    matches_candidates all_match apply is_abstain validate_action float_lt in_unit is_finite
    total_key check_moves id_position place_ids resolve
answer_applied = refl

order-IsIdOrder : IsIdOrder order
order-IsIdOrder = record { few = omega arith; places = refl }

resolve_semantic_rerank-Perm_example : Perm (answer (ok decision)).1 two
unfolding new_engine
resolve_semantic_rerank-Perm_example =
    resolve_semantic_rerank-Perm small_digest admission engine snapshot (ok decision) tt
      order-IsIdOrder

answer_late : preserved_baseline (answer (err timed_out)).2 ≡ true
unfolding resolve_semantic_rerank cached_semantic_rerank lookup_cache take_entry new_engine
    resolve_decision
answer_late = refl

resolve_semantic_rerank-preserves_example : (answer (err timed_out)).1 ≡ two
unfolding new_engine
resolve_semantic_rerank-preserves_example =
    resolve_semantic_rerank-preserves small_digest admission engine snapshot (err timed_out) tt tt
      answer_late

resolve_semantic_rerank-Reordered_example :
    (plan : SemanticRerankPlan) × Origin small_digest engine snapshot admission (ok decision) plan
    × IsAdmitted small_digest plan.snapshot admission
    × Reordered small_digest plan two (answer (ok decision)).1 2
unfolding new_engine
resolve_semantic_rerank-Reordered_example =
    resolve_semantic_rerank-Reordered small_digest admission engine snapshot (ok decision) tt
      order-IsIdOrder 2 answer_applied

Reached-cache_entries_example :
    (cache_entries engine ≤ 128)
    × (length engine.fast_cache ≤ engine.fast_cache_limit)
    × (length engine.semantic_cache ≤ engine.semantic_cache_limit)
Reached-cache_entries_example =
    Reached-cache_entries small_add small_digest (made config (created bounded_context))

captured_ok : capture_semantic_rerank small_digest engine ask two ≡ ok snapshot
unfolding capture_semantic_rerank new_engine new_config valid_reading trim_end trim_start
    is_whitespace byte_len any_control validate_candidate_window validate_window_from
    valid_candidate_text repeats_id
captured_ok = refl

capture_semantic_rerank-check_admission_example :
    check_admission small_digest snapshot admission ≡ ok tt
unfolding new_engine new_config
capture_semantic_rerank-check_admission_example =
    capture_semantic_rerank-check_admission small_digest engine ask two snapshot
      (Built-IsBounded (created bounded_context)) captured_ok

ranks_tokyo :
    (elim (rank_fast small_add small_digest (λ n. false) 5 engine two ask) [
      | none ↦ two
      | some run ↦ run.1
    ])
    ≡ swapped
unfolding new_engine snapshot_of lookup_cache take_entry candidate_ids candidate_fingerprint
    candidate_writes input_cache_key hash_cache_header bound_context insert_cache key_eq pop_excess
    bounded empty_context is_whitespace scan_after scan_before trim_end trim_start any_unseen
    apply_index_order check_indices follow follow_all swap new_config rank_fast rank_admitted
    rank_scored fast_guards scored_order cached_order score_from fast_score fast_outcome
    cache_entries is_finite total_key drop_spaces starts_with ends_with occurs contains_text
    ranks_before insert_scored sort_scored count_changed from_scored ids_of any_far valid_reading
    validate_candidate_window validate_window_from valid_candidate_text repeats_id byte_len
    any_control list_eq
ranks_tokyo = refl

rank_fast-Ranked_example :
    Ranked two (rank_fast small_add small_digest (λ n. false) 5 engine two ask)
rank_fast-Ranked_example =
    rank_fast-Ranked small_add small_digest (λ n. false) 5 two ask engine
      (new_engine-IsSound config (Built-IsBounded (created bounded_context)))
