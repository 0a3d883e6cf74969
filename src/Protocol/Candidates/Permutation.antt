-- ===== src/Protocol/Candidates/Permutation.antt =====
-- `validate_ai_candidates` of protocol.rs and permutations of the baseline.
use mathlib.Core.List.{
  Perm, Mem, Mem-prop, Nodup, Nodup-cons, mem-cons, mem-cons_self, mem-cons_of_mem, not-mem-nil,
  perm-cons,
}
use mathlib.Core.Logic.Or
use mathlib.Core.List.Perm
use kanai.Base.{
  ℕ, zero, suc, ◌+◌, ◌≡◌, refl, sym, ap, subst, ◌∙◌, Bool, true, false, Option, none, some, List,
  [], ◌∷◌, ◌++◌, append-nil, arith, length, set, get_or, replicate, length-replicate, length-perm,
  list_eq_iff, ok, inl, inr, Option-cases, Bool-cases,
}
use kanai.Protocol.Text.{Text}
use kanai.Protocol.Candidates.{
  Candidate, reading_eq, candidate_eq, position, validate_ai_from, validate_ai_candidates,
}

reading_eq_sound : (r s : Option Text) → reading_eq r s ≡ true → r ≡ s
unfolding reading_eq
reading_eq_sound none none h = refl
reading_eq_sound none (some s) h = cc
reading_eq_sound (some r) none h = cc
reading_eq_sound (some r) (some s) h = ap some ((list_eq_iff r s).0 h)

candidate_eq_sound : (a b : Candidate) → candidate_eq a b ≡ true → a ≡ b
unfolding candidate_eq
candidate_eq_sound a b h =
    ground (arith, list_eq_iff a.text b.text, reading_eq_sound a.reading b.reading)

-- The baseline without the places that are taken.
unselected : List Candidate → List Bool → List Candidate
unselected [] seen = []
unselected (b ∷ bs) [] = []
unselected (b ∷ bs) (true ∷ seen) = unselected bs seen
unselected (b ∷ bs) (false ∷ seen) = b ∷ unselected bs seen

unselected_all : (bs : List Candidate) → unselected bs (replicate (length bs) false) ≡ bs
unfolding unselected
unselected_all [] = refl
unselected_all (b ∷ bs) = ap (◌∷◌ b) (unselected_all bs)

-- Taking a free place takes its candidate.
unselected-set :
    (c : Candidate) (bs : List Candidate) (seen : List Bool) (i : ℕ)
    → length seen ≡ length bs
    → position c bs ≡ some i
    → get_or seen i false ≡ false
    → Perm (unselected bs seen) (c ∷ unselected bs (set seen i true))
      × (length (unselected bs seen) ≡ suc (length (unselected bs (set seen i true))))
      × (length (set seen i true) ≡ length bs)
unfolding position unselected
unselected-set c [] seen i l p g = absurd (ground arith)
unselected-set c (b ∷ bs) [] i l p g = absurd (omega arith)
unselected-set c (b ∷ bs) (true ∷ seen) zero l p g = absurd (ground arith)
unselected-set c (b ∷ bs) (false ∷ seen) zero l p g =
    let e : b ≡ c = candidate_eq_sound b c (ground arith) in rw e (Perm.refl _, refl, omega arith)
unselected-set c (b ∷ bs) (true ∷ seen) (suc i) l p g =
    let (q, m, n) = unselected-set c bs seen i (omega arith) (ground arith) g in (q, m, omega arith)
unselected-set c (b ∷ bs) (false ∷ seen) (suc i) l p g =
    let (q, m, n) = unselected-set c bs seen i (omega arith) (ground arith) g in
    (Perm.trans (Perm.cons b q) (Perm.swap c b _), omega arith, omega arith)

-- An accepted order uses up some of the free places, each once.
validate_ai_from-Perm :
    (bs : List Candidate) (seen : List Bool) (ai : List Candidate)
    → length seen ≡ length bs
    → validate_ai_from bs seen ai ≡ ok tt
    → (rest : List Candidate) × Perm (unselected bs seen) (ai ++ rest)
      × (length (unselected bs seen) ≡ length ai + length rest)
unfolding validate_ai_from
validate_ai_from-Perm bs seen [] l h = (unselected bs seen, Perm.refl _, omega arith)
validate_ai_from-Perm bs seen (c ∷ cs) l h = elim (Option-cases (position c bs)) [
  | inl missing ↦ absurd (ground (arith, missing))
  | inr (i, found) ↦ elim (Bool-cases (get_or seen i false)) [
    | inl taken ↦ absurd (ground (arith, found, taken))
    | inr free ↦
        let (p, m, n) = unselected-set c bs seen i l found free in
        let (rest, q, k) =
          validate_ai_from-Perm bs (set seen i true) cs n (ground (arith, found, free)) in
        (rest, Perm.trans p (Perm.cons c q), omega arith)
  ]
]

no_rest : (rest ai : List Candidate) → length ai ≡ length ai + length rest → rest ≡ []
no_rest [] ai h = refl
no_rest (r ∷ rest) ai h = absurd (omega arith)

-- An order that `validate_ai_candidates` accepts is a permutation of the baseline: no candidate is
-- lost, repeated, made up or changed in any field.
pub validate_ai_candidates-Perm :
    (baseline ai : List Candidate) → validate_ai_candidates baseline ai ≡ ok tt → Perm baseline ai
unfolding validate_ai_candidates
validate_ai_candidates-Perm baseline ai h =
    let start = replicate (length baseline) false in
    let (rest, p, n) =
      validate_ai_from-Perm baseline start ai (length-replicate _ _) (ground arith) in
    let all = unselected_all baseline in
    let same : length baseline ≡ length ai = ground arith in
    let e : rest ≡ [] = no_rest rest ai (omega (arith, ap length all)) in
    subst (λ bs. Perm bs ai) all
      (subst (Perm (unselected baseline start)) (ap (λ r. ai ++ r) e ∙ append-nil ai) p)

reading_eq_refl : (r : Option Text) → reading_eq r r ≡ true
unfolding reading_eq
reading_eq_refl none = refl
reading_eq_refl (some r) = (list_eq_iff r r).1 refl

candidate_eq_refl : (a : Candidate) → candidate_eq a a ≡ true
unfolding candidate_eq
candidate_eq_refl a = ground (arith, (list_eq_iff a.text a.text).1 refl, reading_eq_refl a.reading)

mem-unselected :
    (c : Candidate) (bs : List Candidate) (seen : List Bool) → Mem c (unselected bs seen) → Mem c bs
unfolding unselected
mem-unselected c [] seen m = m
mem-unselected c (b ∷ bs) [] m = absurd (not-mem-nil m)
mem-unselected c (b ∷ bs) (true ∷ seen) m = mem-cons_of_mem b (mem-unselected c bs seen m)
mem-unselected c (b ∷ bs) (false ∷ seen) m =
    Or.elim Mem-prop (mem-cons.0 m) (λ e. rw e mem-cons_self)
      (λ n. mem-cons_of_mem b (mem-unselected c bs seen n))

-- A candidate in a free place is found, and at that place.
position_found :
    (c : Candidate) (bs : List Candidate) (seen : List Bool)
    → position c bs ≡ none
    → ¬ Mem c (unselected bs seen)
unfolding position unselected
position_found c [] seen p m = not-mem-nil m
position_found c (b ∷ bs) [] p m = not-mem-nil m
position_found c (b ∷ bs) (true ∷ seen) p m = position_found c bs seen (ground arith) m
position_found c (b ∷ bs) (false ∷ seen) p m =
    Or.elim (λ x y. absurd x) (mem-cons.0 m)
      (λ e. ground (arith, candidate_eq_refl c, ap (λ z. candidate_eq z c) e))
      (position_found c bs seen (ground arith))

position_free :
    (c : Candidate) (bs : List Candidate) (seen : List Bool) (i : ℕ)
    → Nodup bs
    → position c bs ≡ some i
    → get_or seen i false ≡ true
    → ¬ Mem c (unselected bs seen)
unfolding position unselected
position_free c [] seen i d p t m = not-mem-nil m
position_free c (b ∷ bs) [] i d p t m = not-mem-nil m
position_free c (b ∷ bs) (true ∷ seen) zero d p t m = (Nodup-cons.0 d).0 (
    subst (λ z. Mem z bs) (sym (candidate_eq_sound b c (ground arith)))
      (mem-unselected c bs seen m))
position_free c (b ∷ bs) (false ∷ seen) zero d p t m = cc
position_free c (b ∷ bs) (true ∷ seen) (suc i) d p t m =
    position_free c bs seen i (Nodup-cons.0 d).1 (ground arith) t m
position_free c (b ∷ bs) (false ∷ seen) (suc i) d p t m =
    Or.elim (λ x y. absurd x) (mem-cons.0 m)
      (λ e. ground (arith, candidate_eq_refl c, ap (λ z. candidate_eq z c) e))
      (position_free c bs seen i (Nodup-cons.0 d).1 (ground arith) t)

validate_ai_from-accepts :
    (bs : List Candidate) (seen : List Bool) (ai : List Candidate)
    → Nodup bs
    → length seen ≡ length bs
    → Perm (unselected bs seen) ai
    → validate_ai_from bs seen ai ≡ ok tt
unfolding validate_ai_from
validate_ai_from-accepts bs seen [] d l p = refl
validate_ai_from-accepts bs seen (c ∷ cs) d l p =
    let waiting : Mem c (unselected bs seen) = (Perm.mem_iff p).1 mem-cons_self in
    elim (Option-cases (position c bs)) [
      | inl missing ↦ absurd (position_found c bs seen missing waiting)
      | inr (i, found) ↦ elim (Bool-cases (get_or seen i false)) [
        | inl taken ↦ absurd (position_free c bs seen i d found taken waiting)
        | inr free ↦
            let (q, m, n) = unselected-set c bs seen i l found free in
            let rest =
              validate_ai_from-accepts bs (set seen i true) cs d n
                ((perm-cons c).0 (Perm.trans (Perm.symm q) p)) in
            ground (arith, found, free, rest)
      ]
    ]

-- Of a baseline without repetitions, `validate_ai_candidates` accepts every permutation.
pub validate_ai_candidates-accepts :
    (baseline ai : List Candidate)
    → Nodup baseline
    → Perm baseline ai
    → validate_ai_candidates baseline ai ≡ ok tt
unfolding validate_ai_candidates
validate_ai_candidates-accepts baseline ai d p =
    let start = replicate (length baseline) false in
    let accepted =
      validate_ai_from-accepts baseline start ai d (length-replicate _ _)
        (rw (unselected_all baseline) p) in
    ground (arith, length-perm p, accepted)
