-- ===== src/Quality/Context/Bounds.antt =====
-- How long a bounded context of ai.rs is, and which characters it has.
use mathlib.Core.List.{reverse}
use kanai.Base.{
  ℕ, suc, ◌≤◌, min, Bool, false, ◌&&◌, ◌||◌, not, ◌==◌, List, [], ◌∷◌, ◌++◌, length, length-append,
  All, All-append, take, ◌≡◌, ◌⊎◌, refl, arith, if-cases, Bool-cases, inl, inr,
}
use kanai.Protocol.Text.{Text, is_empty}
use kanai.Quality.Limits.{LocalQualityConfig, max_local_quality_context_chars}
use kanai.Quality.Context.{
  is_separator, empty_context, scan_before, scan_after, scan_limit, bounded, is_bounded_context,
  bound_context,
}

-- A character of a context: a space, or neither a control nor a white-space character.
abbrev pub IsPlain : ℕ → Type 0
IsPlain c = (c ≡ 0x20) ⊎ (is_separator c ≡ false)

-- At most `limit` characters, all of them plain.
abbrev pub Fits : ℕ → List ℕ → Type 0
Fits limit values = (length values ≤ limit) × All IsPlain values

grown : (n limit : ℕ) → n ≤ limit → (n == limit) ≡ false → suc n ≤ limit
grown n limit h e = ground arith

scan_before-Fits :
    (limit : ℕ) (pending : Bool) (found cs : List ℕ)
    → suc (length found) ≤ limit
    → All IsPlain found
    → Fits limit (scan_before limit pending found cs).0
unfolding scan_before
scan_before-Fits limit pending found [] h p = (omega (arith, h), p)
scan_before-Fits limit pending found (c ∷ cs) h p =
    let FitsFirst : List ℕ × Bool → Type 0 = λ r. Fits limit r.0 in
    let space : IsPlain 0x20 = inl refl in
    if-cases FitsFirst (is_separator c) _ _
      (λ e. scan_before-Fits limit (pending || not (is_empty found)) found cs h p)
      (λ plain.
        if-cases FitsFirst (pending && not (is_empty found)) _ _
          (λ e.
            if-cases FitsFirst (suc (length found) == limit) _ _ (λ full. (h, (space, p)))
              (λ room.
                let h2 = grown (suc (length found)) limit h room in
                if-cases FitsFirst (suc (suc (length found)) == limit) _ _
                  (λ full. (h2, (inr plain, (space, p))))
                  (λ more.
                    scan_before-Fits limit false (c ∷ 0x20 ∷ found) cs
                      (grown (suc (suc (length found))) limit h2 more) (inr plain, (space, p)))))
          (λ e.
            if-cases FitsFirst (suc (length found) == limit) _ _ (λ full. (h, (inr plain, p)))
              (λ room.
                scan_before-Fits limit pending (c ∷ found) cs
                  (grown (suc (length found)) limit h room) (inr plain, p))))

scan_after-Fits :
    (limit : ℕ) (pending : Bool) (values cs : List ℕ)
    → Fits limit values
    → Fits limit (scan_after limit pending values cs)
unfolding scan_after
scan_after-Fits limit pending values [] f = f
scan_after-Fits limit pending values (c ∷ cs) f =
    let space : IsPlain 0x20 = inl refl in
    if-cases (Fits limit) (length values == limit) _ _ (λ full. f)
      (λ room.
        let h1 = grown (length values) limit f.0 room in
        if-cases (Fits limit) (is_separator c) _ _
          (λ e. scan_after-Fits limit (pending || not (is_empty values)) values cs f)
          (λ plain.
            if-cases (Fits limit) pending _ _
              (λ e.
                if-cases (Fits limit) (suc (length values) == limit) _ _
                  (λ full. (
                    omega (arith, h1, length-append values (0x20 ∷ [])),
                    All-append IsPlain values (0x20 ∷ []) f.1 (space, tt),
                  ))
                  (λ more.
                    let h2 = grown (suc (length values)) limit h1 more in
                    scan_after-Fits limit false (values ++ (0x20 ∷ c ∷ [])) cs (
                      omega (arith, h2, length-append values (0x20 ∷ c ∷ [])),
                      All-append IsPlain values (0x20 ∷ c ∷ []) f.1 (space, (inr plain, tt)),
                    )))
              (λ e. scan_after-Fits limit pending (values ++ (c ∷ [])) cs (
                omega (arith, h1, length-append values (c ∷ [])),
                All-append IsPlain values (c ∷ []) f.1 (inr plain, tt),
              ))))

bounded-Fits :
    (before after : Text) (requested : ℕ)
    → Fits (min requested max_local_quality_context_chars) (bounded before after requested).values
unfolding bounded empty_context
bounded-Fits before after requested =
    let limit = min requested max_local_quality_context_chars in
    let tail = take (scan_limit limit) (reverse before) in
    elim (Bool-cases (requested == 0)) [
      | inl e ↦ rw (e, bounded) (omega arith, tt)
      | inr e ↦
          rw (e, bounded)
            (scan_after-Fits limit (scan_before limit false [] tail).1
              (scan_before limit false [] tail).0 (take (scan_limit limit) after)
              (scan_before-Fits limit false [] tail (ground (arith, e)) tt))
    ]

-- Whatever text stands around the cursor, the context that `bound_context` keeps of it has at most
-- the configured number of characters and at most 32, and no control or white-space character
-- other than the space.
pub bound_context-Fits :
    (self : LocalQualityConfig) (before after : Text)
    → Fits
        (min self.max_context_chars max_local_quality_context_chars)
        (bound_context self before after).values
unfolding bound_context empty_context
bound_context-Fits self before after = elim (Bool-cases (is_bounded_context self.data_policy)) [
  | inl e ↦ rw (e, bound_context) (bounded-Fits before after self.max_context_chars)
  | inr e ↦ rw (e, bound_context) (omega arith, tt)
]
