-- ===== src/Quality/Limits.antt =====
-- Model tiers, hardware advice, and the limits of the local-quality stage of ai.rs.
use kanai.Base.{ℕ, ◌*◌, ◌≤◌, min, ◌||◌, ltb, leb, if◌then◌else◌, arith}

pub data ModelTier : Type 0 where
  mozc_only tiny compact balanced : ModelTier

unfoldable pub recommend_tier_for_memory : ℕ → ℕ → ℕ → ModelTier
recommend_tier_for_memory total available cpus =
    if ltb total 4 || ltb available 2
    then mozc_only
    else if ltb available 4 || leb cpus 3
    then tiny
    else if ltb available 6 || ltb total 8
    then compact
    else balanced

unfoldable pub recommend_tier : ℕ → ℕ → ModelTier
recommend_tier total cpus = recommend_tier_for_memory total total cpus

abbrev pub max_local_quality_candidates : ℕ
max_local_quality_candidates = 9

abbrev pub max_local_quality_context_chars : ℕ
max_local_quality_context_chars = 32

abbrev pub max_local_quality_cache_entries : ℕ
max_local_quality_cache_entries = 128

abbrev pub max_local_quality_rank_shift : ℕ
max_local_quality_rank_shift = 3

-- Durations in nanoseconds.
abbrev pub default_fast_rank_deadline : ℕ
default_fast_rank_deadline = 2 * 1000000

abbrev pub max_fast_rank_deadline : ℕ
max_fast_rank_deadline = 20 * 1000000

pub data LocalDataPolicy : Type 0 where
  mozc_baseline candidate_features bounded_context : LocalDataPolicy

pub record LocalQualityConfig : Type 0 where
  pub data_policy : LocalDataPolicy
  pub max_candidates : ℕ
  pub max_rank_shift : ℕ
  pub max_context_chars : ℕ
  pub cache_capacity : ℕ
  pub fast_deadline : ℕ
  pub policy_revision : ℕ

unfoldable pub new_config : LocalDataPolicy → LocalQualityConfig
new_config data_policy = record {
  data_policy = data_policy;
  max_candidates = max_local_quality_candidates;
  max_rank_shift = max_local_quality_rank_shift;
  max_context_chars = max_local_quality_context_chars;
  cache_capacity = 64;
  fast_deadline = default_fast_rank_deadline;
  policy_revision = 1;
}

-- `usize::clamp`
abbrev pub clamp : ℕ → ℕ → ℕ → ℕ
clamp n lo hi = if ltb n lo then lo else if ltb hi n then hi else n

unfoldable pub with_limits : LocalQualityConfig → ℕ → ℕ → ℕ → ℕ → LocalQualityConfig
with_limits self candidates rank_shift context_chars capacity = record self {
  max_candidates = clamp candidates 2 max_local_quality_candidates;
  max_rank_shift = min rank_shift max_local_quality_rank_shift;
  max_context_chars = min context_chars max_local_quality_context_chars;
  cache_capacity = min capacity max_local_quality_cache_entries;
}

unfoldable pub with_fast_deadline : LocalQualityConfig → ℕ → LocalQualityConfig
with_fast_deadline self deadline = record self {
  fast_deadline = if ltb max_fast_rank_deadline deadline then max_fast_rank_deadline else deadline;
}

unfoldable pub with_policy_revision : LocalQualityConfig → ℕ → LocalQualityConfig
with_policy_revision self revision = record self { policy_revision = revision }

-- A configuration that the public constructor and setters can build.
pub data Built : LocalQualityConfig → Type 0 where
  created : (policy : LocalDataPolicy) → Built (new_config policy)
  limited :
      {c : LocalQualityConfig} (candidates rank_shift context_chars capacity : ℕ)
      → Built c
      → Built (with_limits c candidates rank_shift context_chars capacity)
  timed : {c : LocalQualityConfig} (deadline : ℕ) → Built c → Built (with_fast_deadline c deadline)
  revised : {c : LocalQualityConfig} (n : ℕ) → Built c → Built (with_policy_revision c n)

pub record IsBounded (c : LocalQualityConfig) : Type 0 where
  pub enough : 2 ≤ c.max_candidates
  pub candidates : c.max_candidates ≤ max_local_quality_candidates
  pub shift : c.max_rank_shift ≤ max_local_quality_rank_shift
  pub chars : c.max_context_chars ≤ max_local_quality_context_chars
  pub entries : c.cache_capacity ≤ max_local_quality_cache_entries
  pub deadline : c.fast_deadline ≤ max_fast_rank_deadline

-- Whatever values are passed to the setters of `LocalQualityConfig`, in whatever order: the window
-- holds 2 to 9 candidates, a candidate moves 3 places at most, the context has 32 characters at
-- most, the caches 128 entries, and the deadline is 20 ms at most.
pub Built-IsBounded : {c : LocalQualityConfig} → Built c → IsBounded c
unfolding new_config with_limits with_fast_deadline with_policy_revision
Built-IsBounded (created policy) = record {
  enough = omega arith;
  candidates = omega arith;
  shift = omega arith;
  chars = omega arith;
  entries = omega arith;
  deadline = omega arith;
}
Built-IsBounded (limited candidates rank_shift context_chars capacity b) = record {
  enough = ground arith;
  candidates = ground arith;
  shift = omega arith;
  chars = omega arith;
  entries = omega arith;
  deadline = (Built-IsBounded b).deadline;
}
Built-IsBounded (timed deadline b) =
    let h = Built-IsBounded b in
    record {
      enough = h.enough;
      candidates = h.candidates;
      shift = h.shift;
      chars = h.chars;
      entries = h.entries;
      deadline = ground arith;
    }
Built-IsBounded (revised n b) =
    let h = Built-IsBounded b in
    record {
      enough = h.enough;
      candidates = h.candidates;
      shift = h.shift;
      chars = h.chars;
      entries = h.entries;
      deadline = h.deadline;
    }

-- How much a tier asks of the machine.
abbrev pub weight : ModelTier → ℕ
weight mozc_only = 0
weight tiny = 1
weight compact = 2
weight balanced = 3

-- A machine with no less memory, free memory and processors is not advised a smaller tier.
pub recommend_tier_for_memory_mono :
    (total available cpus total' available' cpus' : ℕ)
    → total ≤ total'
    → available ≤ available'
    → cpus ≤ cpus'
    → weight (recommend_tier_for_memory total available cpus)
      ≤ weight (recommend_tier_for_memory total' available' cpus')
unfolding recommend_tier_for_memory
recommend_tier_for_memory_mono total available cpus total' available' cpus' ht ha hc = ground arith
