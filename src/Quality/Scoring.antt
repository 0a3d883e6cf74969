-- ===== src/Quality/Scoring.antt =====
-- The scores of `rank_fast` of ai.rs, and the order that they make.
pub mod Sorted
pub mod Scored
use mathlib.Core.List.{reverse}
use kanai.Base.{
  ℕ, zero, suc, ◌+◌, ◌-◌, min, Bool, true, false, ◌&&◌, ◌||◌, not, Option, none, some, List, [],
  ◌∷◌, ◌++◌, ltb, leb, ◌==◌, length, map, take, drop, replicate, get_or, list_eq, if◌then◌else◌,
}
use kanai.Protocol.Text.{Text, is_empty}
use kanai.Quality.Limits.{max_local_quality_candidates}
use kanai.Quality.Order.{CandidateIdOrder, IndexOrder, overwrite, bump, abs_diff}
use kanai.Quality.Floats.{total_key}
use kanai.Quality.Context.{BoundedLocalContext}
use kanai.Quality.Window.{
  PersonalizedCandidate, CandidateOrigin, conversion, prediction, suggestion, user_dictionary,
  user_history, typing_correction, spelling_correction, unknown, trim, id_of,
}

pub record ScoredCandidate : Type 0 where
  pub old_index : ℕ
  pub score : ℕ

-- `self.values[..self.before_len]` without the spaces at its end, from its last character on.
unfoldable pub drop_spaces : List ℕ → List ℕ
drop_spaces [] = []
drop_spaces (c ∷ cs) = let rest = drop_spaces cs in if c == 0x20 then rest else c ∷ cs

-- `text` starts with `prefix`.
unfoldable pub starts_with : List ℕ → List ℕ → Bool
starts_with text [] = true
starts_with [] (p ∷ ps) = false
starts_with (c ∷ cs) (p ∷ ps) = c == p && starts_with cs ps

unfoldable pub ends_with : BoundedLocalContext → Text → Bool
ends_with self suffix =
    not (is_empty suffix)
    && starts_with (drop_spaces (reverse (take self.before_len self.values))) (reverse suffix)

unfoldable pub occurs : List ℕ → Text → Bool
occurs [] needle = false
occurs (c ∷ cs) needle = starts_with (c ∷ cs) needle || occurs cs needle

unfoldable pub contains_text : BoundedLocalContext → Text → Bool
contains_text self needle = not (is_empty needle) && occurs self.values needle

abbrev pub affinity : BoundedLocalContext → Text → ℕ
affinity context text =
    if ends_with context text
    then 0x4030_0000_0000_0000
    else if contains_text context text
    then 0x4020_0000_0000_0000
    else 0

abbrev pub matches_reading : Text → Option Text → Bool
matches_reading reading none = false
matches_reading reading (some own) = list_eq (trim own) reading

abbrev pub source_prior : CandidateOrigin → ℕ
source_prior typing_correction = 0x4020_0000_0000_0000
source_prior spelling_correction = 0x4020_0000_0000_0000
source_prior user_history = 0x4010_0000_0000_0000
source_prior user_dictionary = 0x4008_0000_0000_0000
source_prior suggestion = 0xc010_0000_0000_0000
source_prior conversion = 0
source_prior prediction = 0
source_prior (unknown name) = 0

-- The order of `sort_unstable_by`: the higher score first, then the lower old index.
unfoldable pub ranks_before : ScoredCandidate → ScoredCandidate → Bool
ranks_before a b =
    ltb (total_key b.score) (total_key a.score)
    || (total_key a.score == total_key b.score && ltb a.old_index b.old_index)

unfoldable pub insert_scored : ScoredCandidate → List ScoredCandidate → List ScoredCandidate
insert_scored a [] = a ∷ []
insert_scored a (b ∷ bs) =
    let rest = insert_scored a bs in if ranks_before b a then b ∷ rest else a ∷ b ∷ bs

-- The old indices differ, so that sorting has one result.
unfoldable pub sort_scored : List ScoredCandidate → List ScoredCandidate
sort_scored [] = []
sort_scored (a ∷ more) = insert_scored a (sort_scored more)

unfoldable pub count_changed : ℕ → List ScoredCandidate → ℕ
count_changed new_index [] = 0
count_changed new_index (a ∷ more) = bump a.old_index new_index (count_changed (suc new_index) more)

-- `IndexOrder::from_scored`
unfoldable pub from_scored : List ScoredCandidate → IndexOrder
from_scored scored = record {
  old_indices =
      overwrite (map (λ a. a.old_index) scored) (replicate max_local_quality_candidates 0);
  len = length scored;
  changed_positions = count_changed 0 scored;
}

-- `IndexOrder::ids`
unfoldable pub ids_of : IndexOrder → List PersonalizedCandidate → CandidateIdOrder
ids_of self candidates = record {
  ids =
      overwrite (map (λ i. get_or (map id_of candidates) i 0) (take self.len self.old_indices))
        (replicate max_local_quality_candidates 0);
  len = self.len;
}

unfoldable pub any_far : ℕ → ℕ → List ℕ → Bool
any_far max_rank_shift new_index [] = false
any_far max_rank_shift new_index (old_index ∷ rest) =
    ltb max_rank_shift (abs_diff old_index new_index) || any_far max_rank_shift (suc new_index) rest
