-- ===== src/Protocol/Candidates.antt =====
-- Candidates, their lists, and the composition state of protocol.rs.
pub mod Permutation
mod Examples
use kanai.Base.{
  ℕ, zero, suc, ◌+◌, ◌*◌, Bool, true, false, ◌&&◌, ◌||◌, not, Option, none, some, List, [], ◌∷◌,
  ◌++◌, ltb, leb, ◌==◌, list_eq, length, set, get_or, replicate, if◌then◌else◌, Result, ok, err,
  ◌>>=◌, ◌>>◌, fail_if, ok_or, checked_add,
}
use kanai.Protocol.Text.{
  Text, byte_len, Check, validate_id, validate_text, validate_text_allow_empty, too_many_candidates,
  invalid_focused_index, rerank_candidate_bytes_too_large, duplicate_candidate_id,
  unknown_enhancement_candidate, rerank_candidate_mutated, rerank_must_be_permutation,
}

abbrev pub max_edit_text_bytes : ℕ
max_edit_text_bytes = 16 * 1024

abbrev pub max_candidates : ℕ
max_candidates = 128

abbrev pub max_rerank_candidate_bytes : ℕ
max_rerank_candidate_bytes = 64 * 1024

abbrev pub usize_max : ℕ
usize_max = 18446744073709551615

pub record Candidate : Type 0 where
  pub id : ℕ
  pub text : Text
  pub reading : Option Text
  pub rank : ℕ

pub reading_eq : Option Text → Option Text → Bool
reading_eq none none = true
reading_eq none (some s) = false
reading_eq (some r) none = false
reading_eq (some r) (some s) = list_eq r s

-- The derived `PartialEq`.
pub candidate_eq : Candidate → Candidate → Bool
candidate_eq a b =
    a.id == b.id && (list_eq a.text b.text && (reading_eq a.reading b.reading && a.rank == b.rank))

unfoldable pub validate_reading : Option Text → Check
validate_reading none = ok tt
validate_reading (some reading) = validate_text "candidate.reading" reading max_edit_text_bytes

unfoldable pub validate_candidate : Candidate → Check
validate_candidate self = do
  validate_id "candidate.id" self.id
  validate_text "candidate.text" self.text max_edit_text_bytes
  validate_reading self.reading

-- `for candidate in candidates { candidate.validate()?; }`
unfoldable pub validate_each : List Candidate → Check
validate_each [] = ok tt
validate_each (c ∷ cs) = do validate_candidate c; validate_each cs

pub any_id : ℕ → List Candidate → Bool
any_id id [] = false
any_id id (c ∷ cs) = c.id == id || any_id id cs

abbrev pub reading_len : Option Text → ℕ
reading_len none = 0
reading_len (some reading) = byte_len reading

-- `total.checked_add(text.len()).and_then(|size| size.checked_add(reading.len()))`
pub add_bytes : ℕ → Candidate → Option ℕ
add_bytes total c = elim (checked_add total (byte_len c.text)) [
  | none ↦ none
  | some size ↦ checked_add size (reading_len c.reading)
]

-- The loop of `validate_candidate_list`: the candidates before this one, and their bytes.
unfoldable pub validate_candidates_from : List Candidate → ℕ → List Candidate → Check
validate_candidates_from prior total [] = ok tt
validate_candidates_from prior total (c ∷ cs) = do
  validate_candidate c
  total' ←
      ok_or (add_bytes total c)
        (rerank_candidate_bytes_too_large usize_max max_rerank_candidate_bytes)
  fail_if (ltb max_rerank_candidate_bytes total')
      (rerank_candidate_bytes_too_large total' max_rerank_candidate_bytes)
  fail_if (any_id c.id prior) (duplicate_candidate_id c.id)
  validate_candidates_from (prior ++ (c ∷ [])) total' cs

unfoldable pub validate_candidate_list : List Candidate → Check
validate_candidate_list candidates = do
  fail_if (ltb max_candidates (length candidates))
      (too_many_candidates (length candidates) max_candidates)
  validate_candidates_from [] 0 candidates

-- `baseline.iter().position(|prior| prior == candidate)`
pub position : Candidate → List Candidate → Option ℕ
position c [] = none
position c (b ∷ bs) =
    if candidate_eq b c
    then some 0
    else (elim (position c bs) [ none ↦ none | some i ↦ some (suc i) ])

-- The loop of `validate_ai_candidates`, with the places of the baseline that are taken.
unfoldable pub validate_ai_from : List Candidate → List Bool → List Candidate → Check
validate_ai_from baseline seen [] = ok tt
validate_ai_from baseline seen (c ∷ cs) = elim (position c baseline) [
  | none ↦
      if any_id c.id baseline
      then err (rerank_candidate_mutated c.id)
      else err (unknown_enhancement_candidate c.id)
  | some index ↦
      if get_or seen index false
      then err (duplicate_candidate_id c.id)
      else validate_ai_from baseline (set seen index true) cs
]

unfoldable pub validate_ai_candidates : List Candidate → List Candidate → Check
validate_ai_candidates baseline ai = do
  fail_if (not (length baseline == length ai))
      (rerank_must_be_permutation (length baseline) (length ai))
  validate_ai_from baseline (replicate (length baseline) false) ai

pub record CompositionState : Type 0 where
  pub preedit : Text
  pub consumed : Bool
  pub candidates : List Candidate
  pub focused_index : Option ℕ

abbrev pub outside : Option ℕ → ℕ → Bool
outside none count = false
outside (some index) count = leb count index

abbrev pub unwrap_or_default : Option ℕ → ℕ
unwrap_or_default none = 0
unwrap_or_default (some n) = n

-- `CompositionState::validate` has the same body.
unfoldable pub validate_composition_response : Text → List Candidate → Option ℕ → Check
validate_composition_response preedit candidates focused_index = do
  validate_text_allow_empty "preedit" preedit max_edit_text_bytes
  fail_if (ltb max_candidates (length candidates))
      (too_many_candidates (length candidates) max_candidates)
  validate_each candidates
  fail_if (outside focused_index (length candidates))
      (invalid_focused_index (unwrap_or_default focused_index) (length candidates))

unfoldable pub validate_state : CompositionState → Check
validate_state self = validate_composition_response self.preedit self.candidates self.focused_index
