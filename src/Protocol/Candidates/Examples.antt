-- ===== src/Protocol/Candidates/Examples.antt =====
-- Two candidates, and the theorems of protocol.rs at them.
use mathlib.Core.List.{Perm, Nodup, Nodup-cons, Nodup-nil, mem-cons, not-mem-nil}
use mathlib.Core.Logic.Or
use mathlib.Core.List.Perm
use kanai.Base.{◌≡◌, refl, ap, list_eq, none, some, List, [], ◌∷◌, ok, err, arith}
use kanai.Protocol.Text.{codes, duplicate_candidate_id}
use kanai.Protocol.Candidates.{
  Candidate, reading_eq, candidate_eq, position, validate_ai_from, validate_ai_candidates,
}
use kanai.Protocol.Candidates.Permutation.{
  validate_ai_candidates-Perm, validate_ai_candidates-accepts,
}

abbrev kana : Candidate
kana = record { id = 1; text = codes "かな"; reading = none; rank = 0 }

abbrev kanji : Candidate
kanji = record { id = 2; text = codes "仮名"; reading = some (codes "かな"); rank = 1 }

abbrev both : List Candidate
both = kana ∷ kanji ∷ []

swapped : validate_ai_candidates both (kanji ∷ kana ∷ []) ≡ ok tt
unfolding validate_ai_candidates validate_ai_from position candidate_eq reading_eq list_eq
swapped = refl

repeated : validate_ai_candidates both (kana ∷ kana ∷ []) ≡ err (duplicate_candidate_id 1)
unfolding validate_ai_candidates validate_ai_from position candidate_eq reading_eq list_eq
repeated = refl

both_distinct : Nodup both
both_distinct = Nodup-cons.1 (
  λ m.
      Or.elim (λ x y. absurd x) (mem-cons.0 m) (λ e. absurd (ground (arith, ap (λ c. c.id) e)))
        not-mem-nil,
  Nodup-cons.1 (not-mem-nil, Nodup-nil),
)

validate_ai_candidates-Perm_example : Perm both (kanji ∷ kana ∷ [])
validate_ai_candidates-Perm_example = validate_ai_candidates-Perm both (kanji ∷ kana ∷ []) swapped

validate_ai_candidates-accepts_example : validate_ai_candidates both (kanji ∷ kana ∷ []) ≡ ok tt
validate_ai_candidates-accepts_example =
    validate_ai_candidates-accepts both (kanji ∷ kana ∷ []) both_distinct (Perm.swap kanji kana [])
