-- ===== src/Quality/Engine/Sound.antt =====
-- The invariant of `LocalQualityEngine` of ai.rs, and its small operations.
use kanai.Base.{◌+◌, ◌≤◌, List, All, length, arith}
use kanai.Quality.Limits.{LocalQualityConfig, IsBounded, max_local_quality_cache_entries}
use kanai.Quality.Order.{CandidateIdOrder}
use kanai.Quality.Order.Resolved.{IsIdOrder}
use kanai.Quality.Window.{CacheKey}
use kanai.Quality.Decision.{SemanticRerankPlan}
use kanai.Quality.Cache.{lookup_cache, insert_cache}
use kanai.Quality.Cache.Size.{
  length-lookup_cache, length-insert_cache, All-lookup_cache, All-insert_cache,
}
use kanai.Quality.Engine.{LocalQualityEngine, new_engine, clear_cache}

-- A cached order of either kind is an id order.
abbrev pub EntryOrder : CacheKey × CandidateIdOrder → Type 0
EntryOrder entry = IsIdOrder entry.1

abbrev pub PlanOrder : CacheKey × SemanticRerankPlan → Type 0
PlanOrder entry = IsIdOrder entry.1.candidate_ids

pub record IsSound (self : LocalQualityEngine) : Type 0 where
  pub limits : IsBounded self.config
  pub total : self.fast_cache_limit + self.semantic_cache_limit ≤ max_local_quality_cache_entries
  pub fast : length self.fast_cache ≤ self.fast_cache_limit
  pub semantic : length self.semantic_cache ≤ self.semantic_cache_limit
  pub orders : All EntryOrder self.fast_cache
  pub plans : All PlanOrder self.semantic_cache

pub new_engine-IsSound :
    (config : LocalQualityConfig) → IsBounded config → IsSound (new_engine config)
unfolding new_engine
new_engine-IsSound config b = record {
  limits = b;
  total = omega (arith, b.entries);
  fast = omega arith;
  semantic = omega arith;
  orders = tt;
  plans = tt;
}

module _ (self : LocalQualityEngine) (s : IsSound self) where
  pub clear_cache-IsSound : IsSound (clear_cache self)
  unfolding clear_cache
  clear_cache-IsSound = record {
    limits = s.limits;
    total = s.total;
    fast = omega arith;
    semantic = omega arith;
    orders = tt;
    plans = tt;
  }

  -- A fast cache that keeps to its limit and to id orders.
  with_fast :
      (cache : List (CacheKey × CandidateIdOrder))
      → length cache ≤ self.fast_cache_limit
      → All EntryOrder cache
      → IsSound (record self { fast_cache = cache })
  with_fast cache l h = record {
    limits = s.limits;
    total = s.total;
    fast = l;
    semantic = s.semantic;
    orders = h;
    plans = s.plans;
  }

  with_semantic :
      (cache : List (CacheKey × SemanticRerankPlan))
      → length cache ≤ self.semantic_cache_limit
      → All PlanOrder cache
      → IsSound (record self { semantic_cache = cache })
  with_semantic cache l h = record {
    limits = s.limits;
    total = s.total;
    fast = s.fast;
    semantic = l;
    orders = s.orders;
    plans = h;
  }

  pub fast_lookup-IsSound :
      (key : CacheKey) → IsSound (record self { fast_cache = (lookup_cache self.fast_cache key).0 })
  fast_lookup-IsSound key =
      with_fast (lookup_cache self.fast_cache key).0
        (omega (arith, s.fast, length-lookup_cache self.fast_cache key))
        (All-lookup_cache EntryOrder self.fast_cache key s.orders).0

  pub fast_insert-IsSound :
      (key : CacheKey) (order : CandidateIdOrder)
      → IsIdOrder order
      → IsSound (record self {
        fast_cache = insert_cache self.fast_cache self.fast_cache_limit key order;
      })
  fast_insert-IsSound key order h =
      with_fast (insert_cache self.fast_cache self.fast_cache_limit key order)
        (length-insert_cache self.fast_cache self.fast_cache_limit key order s.fast)
        (All-insert_cache EntryOrder self.fast_cache self.fast_cache_limit key order s.orders h)

  pub semantic_lookup-IsSound :
      (key : CacheKey)
      → IsSound (record self { semantic_cache = (lookup_cache self.semantic_cache key).0 })
  semantic_lookup-IsSound key =
      with_semantic (lookup_cache self.semantic_cache key).0
        (omega (arith, s.semantic, length-lookup_cache self.semantic_cache key))
        (All-lookup_cache PlanOrder self.semantic_cache key s.plans).0

  pub semantic_insert-IsSound :
      (key : CacheKey) (plan : SemanticRerankPlan)
      → IsIdOrder plan.candidate_ids
      → IsSound (record self {
        semantic_cache = insert_cache self.semantic_cache self.semantic_cache_limit key plan;
      })
  semantic_insert-IsSound key plan h =
      with_semantic (insert_cache self.semantic_cache self.semantic_cache_limit key plan)
        (length-insert_cache self.semantic_cache self.semantic_cache_limit key plan s.semantic)
        (All-insert_cache PlanOrder self.semantic_cache self.semantic_cache_limit key plan s.plans
          h)
