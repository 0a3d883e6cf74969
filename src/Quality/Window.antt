-- ===== src/Quality/Window.antt =====
-- Candidates of types.rs, and their windows, fingerprints and cache keys in ai.rs.
use kanai.Base.{
  ℕ, ◌*◌, ◌%◌, ◌^◌, Bool, false, ◌&&◌, ◌||◌, not, Option, none, some, List, [], ◌∷◌, ◌++◌, map, leb,
  ◌==◌, length, replicate, if◌then◌else◌, Result, ok, ◌>>◌, fail_if,
}
use kanai.Protocol.Text.{Text, byte_len, any_control, is_empty}
use kanai.Quality.Limits.{
  ModelTier, LocalDataPolicy, mozc_baseline, candidate_features, bounded_context,
  LocalQualityConfig, max_local_quality_candidates,
}
use kanai.Quality.Order.{
  CandidateIdOrder, as_slice, overwrite, RerankRejection, invalid_input, duplicate_input_candidate,
}
use kanai.Quality.Context.{is_whitespace, BoundedLocalContext}

pub data CandidateOrigin : Type 0 where
  conversion prediction suggestion user_dictionary : CandidateOrigin
  user_history typing_correction spelling_correction : CandidateOrigin
  unknown : Text → CandidateOrigin

-- An `i32` id and an `f64` are their bit patterns.
pub record ConversionCandidate : Type 0 where
  pub id : ℕ
  pub text : Text
  pub reading : Option Text
  pub provider_rank : ℕ
  pub description : Option Text
  pub origin : CandidateOrigin
  pub attributes : List Text
  pub log : Option Text

pub record CandidateAdjustments : Type 0 where
  pub mozc : ℕ
  pub learning : ℕ
  pub domain : ℕ
  pub user_word : ℕ
  pub context : ℕ

pub record PersonalizedCandidate : Type 0 where
  pub candidate : ConversionCandidate
  pub score : ℕ
  pub adjustments : CandidateAdjustments
  pub explanation : Text

pub record LocalQualityRequest : Type 0 where
  pub session_id : ℕ
  pub generation : ℕ
  pub current_generation : Option ℕ
  pub tier : ModelTier
  pub reading : Text
  pub context_before : Text
  pub context_after : Text
  pub model_revision : ℕ
  pub learning_version : ℕ

-- `str::trim`
unfoldable pub trim_start : Text → Text
trim_start [] = []
trim_start (c ∷ cs) = let rest = trim_start cs in if is_whitespace c then rest else c ∷ cs

unfoldable pub trim_end : Text → Text
trim_end [] = []
trim_end (c ∷ cs) =
    let rest = trim_end cs in if is_whitespace c && is_empty rest then [] else c ∷ rest

abbrev pub trim : Text → Text
trim text = trim_end (trim_start text)

abbrev pub max_reading_chars : ℕ
max_reading_chars = 64

abbrev pub max_candidate_text_chars : ℕ
max_candidate_text_chars = 96

unfoldable pub valid_reading : Text → Bool
valid_reading reading =
    not (is_empty (trim reading))
    && (leb (byte_len (trim reading)) (max_reading_chars * 4)
        && (leb (length (trim reading)) max_reading_chars && not (any_control (trim reading))))

unfoldable pub valid_candidate_text : Text → Bool
valid_candidate_text value =
    not (is_empty value)
    && (leb (byte_len value) (max_candidate_text_chars * 4)
        && (leb (length value) max_candidate_text_chars && not (any_control value)))

abbrev pub invalid_reading : Option Text → Bool
invalid_reading none = false
invalid_reading (some reading) = not (valid_reading reading)

unfoldable pub repeats_id : ℕ → List PersonalizedCandidate → Bool
repeats_id id [] = false
repeats_id id (previous ∷ rest) = previous.candidate.id == id || repeats_id id rest

-- The loop, after the candidates `previous`.
unfoldable pub validate_window_from :
    List PersonalizedCandidate → List PersonalizedCandidate → Result RerankRejection (Unit {0})
validate_window_from previous [] = ok tt
validate_window_from previous (c ∷ cs) = do
  fail_if (not (valid_candidate_text c.candidate.text)) invalid_input
  fail_if (invalid_reading c.candidate.reading) invalid_input
  fail_if (repeats_id c.candidate.id previous) duplicate_input_candidate
  validate_window_from (previous ++ (c ∷ [])) cs

unfoldable pub validate_candidate_window :
    List PersonalizedCandidate → Result RerankRejection (Unit {0})
validate_candidate_window candidates = validate_window_from [] candidates

abbrev pub id_of : PersonalizedCandidate → ℕ
id_of c = c.candidate.id

-- The callers pass a window of at most nine; `len as u8` keeps its length.
unfoldable pub candidate_ids : List PersonalizedCandidate → CandidateIdOrder
candidate_ids candidates = record {
  ids = overwrite (map id_of candidates) (replicate max_local_quality_candidates 0);
  len = length candidates % 2 ^ 8;
}

abbrev pub model_tier_code : ModelTier → ℕ
model_tier_code ModelTier.mozc_only = 0
model_tier_code ModelTier.tiny = 1
model_tier_code ModelTier.compact = 2
model_tier_code ModelTier.balanced = 3

abbrev pub local_data_policy_code : LocalDataPolicy → ℕ
local_data_policy_code mozc_baseline = 0
local_data_policy_code candidate_features = 1
local_data_policy_code bounded_context = 2

abbrev pub candidate_origin_code : CandidateOrigin → ℕ
candidate_origin_code conversion = 0
candidate_origin_code prediction = 1
candidate_origin_code suggestion = 2
candidate_origin_code user_dictionary = 3
candidate_origin_code user_history = 4
candidate_origin_code typing_correction = 5
candidate_origin_code spelling_correction = 6
candidate_origin_code (unknown name) = 7

-- What is fed to a hasher, in order.
pub data Write : Type 0 where
  u8 u32 u64 i32 character : ℕ → Write
  text : Text → Write
  optional_text : Option Text → Write

pub data CacheOperation : Type 0 where
  fast_rank semantic_rerank : CacheOperation

abbrev pub operation_code : CacheOperation → ℕ
operation_code fast_rank = 1
operation_code semantic_rerank = 2

pub record CacheKey : Type 0 where
  pub primary : ℕ
  pub secondary : ℕ

pub record CandidateFingerprint : Type 0 where
  pub primary_print : ℕ
  pub secondary_print : ℕ

-- The header that both hashers are fed.
unfoldable pub hash_cache_header :
    CacheOperation → LocalQualityRequest → LocalQualityConfig → BoundedLocalContext → List Write
hash_cache_header operation request config context =
    u8 (operation_code operation)
    ∷ u64 request.session_id
    ∷ u64 request.generation
    ∷ u64 request.model_revision
    ∷ u64 request.learning_version
    ∷ u8 (model_tier_code request.tier)
    ∷ u8 (local_data_policy_code config.data_policy)
    ∷ u64 config.max_candidates
    ∷ u64 config.max_rank_shift
    ∷ u64 config.max_context_chars
    ∷ u32 config.policy_revision
    ∷ text (trim request.reading)
    ∷ u8 (length context.values)
    ∷ u8 context.before_len
    ∷ map character context.values

-- What is fed to both hashers of a fingerprint.
unfoldable pub candidate_writes : PersonalizedCandidate → List Write
candidate_writes c =
    i32 c.candidate.id
    ∷ text c.candidate.text
    ∷ optional_text c.candidate.reading
    ∷ u64 c.candidate.provider_rank
    ∷ u64 c.score
    ∷ u8 (candidate_origin_code c.candidate.origin)
    ∷ []

-- `digest` stands for a new `DefaultHasher` that is fed what is listed, and finished.
module _ (digest : List Write → ℕ) where
  unfoldable pub candidate_fingerprint : PersonalizedCandidate → CandidateFingerprint
  candidate_fingerprint c = record {
    primary_print = digest (candidate_writes c);
    secondary_print = digest (candidate_writes c);
  }

  unfoldable pub input_cache_key :
      CacheOperation
      → LocalQualityRequest
      → LocalQualityConfig
      → BoundedLocalContext
      → CandidateIdOrder
      → List PersonalizedCandidate
      → CacheKey
  input_cache_key operation request config context ids candidates =
      let start =
        hash_cache_header operation request config context
        ++ (u64 ids.len ∷ map i32 (as_slice ids)) in
      record {
        primary =
            digest (start ++ map (λ c. u64 ((candidate_fingerprint c).primary_print)) candidates);
        secondary =
            digest (start ++ map (λ c. u64 ((candidate_fingerprint c).secondary_print)) candidates);
      }
