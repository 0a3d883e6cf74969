-- ===== src/Protocol/Text.antt =====
-- Bounded text, ids, and the errors of validation, of protocol.rs.
use Prim.Native.Char.{code}
use Prim.Native.String.{String}
use kanai.Base.{
  ℕ, ◌+◌, ◌-◌, Bool, true, false, ◌&&◌, ◌||◌, List, [], ◌∷◌, ltb, leb, ◌==◌, if◌then◌else◌, Result,
  ◌>>◌, fail_if,
}

-- A Rust `str` as the list of its scalar values.
abbrev pub Text : Type 0
Text = List ℕ

-- A literal as a text.
abbrev pub codes : String → Text
codes String.[] = []
codes (String.◌∷◌ c s) = code c ∷ codes s

-- The number of bytes that UTF-8 takes for a scalar value.
abbrev pub utf8_len : ℕ → ℕ
utf8_len c = if ltb c 0x80 then 1 else if ltb c 0x800 then 2 else if ltb c 0x10000 then 3 else 4

-- `str::len`
unfoldable pub byte_len : Text → ℕ
byte_len [] = 0
byte_len (c ∷ cs) = utf8_len c + byte_len cs

-- `char::is_control`: the general category Cc.
abbrev pub is_control : ℕ → Bool
is_control c = ltb c 0x20 || (leb 0x7f c && ltb c 0xa0)

-- `text.truncate` at the last character boundary within the first `max` bytes.
unfoldable pub truncate : ℕ → Text → Text
truncate max [] = []
truncate max (c ∷ cs) =
    let rest = truncate (max - utf8_len c) cs in if ltb max (utf8_len c) then [] else c ∷ rest

unfoldable pub any_control : Text → Bool
any_control [] = false
any_control (c ∷ cs) = is_control c || any_control cs

abbrev pub is_empty : Text → Bool
is_empty [] = true
is_empty (c ∷ cs) = false

pub data ValidationError : Type 0 where
  unsupported_version : ℕ → ℕ → ValidationError
  invalid_id : String → ValidationError
  empty_text : String → ValidationError
  text_too_long : String → ℕ → ℕ → ValidationError
  control_character : String → ValidationError
  invalid_range : ℕ → ℕ → ValidationError
  page_out_of_range : ℕ → ℕ → ValidationError
  page_size_out_of_range : ℕ → ℕ → ValidationError
  too_many_candidates : ℕ → ℕ → ValidationError
  invalid_focused_index : ℕ → ℕ → ValidationError
  invalid_frame_limit : ℕ → ValidationError
  generation_mismatch : ℕ → ℕ → ValidationError
  duplicate_candidate_id : ℕ → ValidationError
  unknown_enhancement_candidate : ℕ → ValidationError
  rerank_candidate_mutated : ℕ → ValidationError
  rerank_must_be_permutation : ℕ → ℕ → ValidationError
  rerank_candidate_bytes_too_large : ℕ → ℕ → ValidationError
  invalid_deadline : ℕ → ℕ → ValidationError
  invalid_enhancement_metrics : ValidationError
  invalid_secure_field_policy : ValidationError
  missing_assist_text : ValidationError

abbrev pub Check : Type 0
Check = Result ValidationError (Unit {0})

unfoldable pub validate_id : String → ℕ → Check
validate_id field value = fail_if (value == 0) (invalid_id field)

unfoldable pub validate_text_allow_empty : String → Text → ℕ → Check
validate_text_allow_empty field value max_bytes = do
  fail_if (ltb max_bytes (byte_len value)) (text_too_long field (byte_len value) max_bytes)
  fail_if (any_control value) (control_character field)

unfoldable pub validate_text : String → Text → ℕ → Check
validate_text field value max_bytes = do
  fail_if (is_empty value) (empty_text field)
  validate_text_allow_empty field value max_bytes
