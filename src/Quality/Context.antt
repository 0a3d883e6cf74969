-- ===== src/Quality/Context.antt =====
-- `BoundedLocalContext` of ai.rs. The array `values` is the list of its first `len` places.
pub mod Bounds
use mathlib.Core.List.{reverse}
use kanai.Base.{
  ℕ, zero, suc, ◌+◌, ◌-◌, ◌*◌, ◌≤◌, min, max, Bool, true, false, ◌&&◌, ◌||◌, not, ltb, leb, ◌==◌,
  ==_iff, List, [], ◌∷◌, ◌++◌, length, length-append, All, All-append, take, list_eq, if◌then◌else◌,
  ◌≡◌, refl, arith, if-cases, Bool-cases, inl, inr,
}
use kanai.Protocol.Text.{Text, is_control, is_empty}
use kanai.Quality.Limits.{
  LocalDataPolicy, bounded_context, candidate_features, mozc_baseline, LocalQualityConfig,
  max_local_quality_context_chars,
}

-- `char::is_whitespace`: the property White_Space.
unfoldable pub is_whitespace : ℕ → Bool
is_whitespace c =
    (leb 0x9 c && leb c 0xd)
    || (c == 0x20
        || (c == 0x85
            || (c == 0xa0
                || (c == 0x1680
                    || ((leb 0x2000 c && leb c 0x200a)
                        || (c == 0x2028
                            || (c == 0x2029 || (c == 0x202f || (c == 0x205f || c == 0x3000)))))))))

abbrev pub is_separator : ℕ → Bool
is_separator c = is_control c || is_whitespace c

pub record BoundedLocalContext : Type 0 where
  pub values : List ℕ
  pub before_len : ℕ

unfoldable pub empty_context : BoundedLocalContext
empty_context = record { values = []; before_len = 0 }

-- The loop over `before`, from its last character on: `found` is the array `reversed` from its last
-- place down to its first. The two results are `reversed` copied to `values`, and `pending_space`.
unfoldable pub scan_before : ℕ → Bool → List ℕ → List ℕ → List ℕ × Bool
scan_before limit pending found [] = (found, pending)
scan_before limit pending found (c ∷ cs) =
    let skipped = scan_before limit (pending || not (is_empty found)) found cs in
    let spaced = scan_before limit false (c ∷ 0x20 ∷ found) cs in
    let plain = scan_before limit pending (c ∷ found) cs in
    if is_separator c
    then skipped
    else if pending && not (is_empty found)
    then (if suc (length found) == limit
        then (0x20 ∷ found, false)
        else if suc (suc (length found)) == limit
        then (c ∷ 0x20 ∷ found, false)
        else spaced)
    else if suc (length found) == limit
    then (c ∷ found, pending)
    else plain

-- The loop over `after`.
unfoldable pub scan_after : ℕ → Bool → List ℕ → List ℕ → List ℕ
scan_after limit pending values [] = values
scan_after limit pending values (c ∷ cs) =
    let skipped = scan_after limit (pending || not (is_empty values)) values cs in
    let spaced = scan_after limit false (values ++ (0x20 ∷ c ∷ [])) cs in
    let plain = scan_after limit pending (values ++ (c ∷ [])) cs in
    if length values == limit
    then values
    else if is_separator c
    then skipped
    else if pending
    then (if suc (length values) == limit then values ++ (0x20 ∷ []) else spaced)
    else plain

-- `limit.saturating_mul(4).max(limit)`, for a limit of at most 32.
abbrev pub scan_limit : ℕ → ℕ
scan_limit limit = max (limit * 4) limit

unfoldable pub bounded : Text → Text → ℕ → BoundedLocalContext
bounded before after requested =
    let limit = min requested max_local_quality_context_chars in
    let (values, pending) = scan_before limit false [] (take (scan_limit limit) (reverse before)) in
    if requested == 0 then empty_context else record {
      values = scan_after limit pending values (take (scan_limit limit) after);
      before_len = length values;
    }

abbrev pub is_bounded_context : LocalDataPolicy → Bool
is_bounded_context bounded_context = true
is_bounded_context candidate_features = false
is_bounded_context mozc_baseline = false

unfoldable pub bound_context : LocalQualityConfig → Text → Text → BoundedLocalContext
bound_context self before after =
    if not (is_bounded_context self.data_policy)
    then empty_context
    else bounded before after self.max_context_chars
