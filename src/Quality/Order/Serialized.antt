-- ===== src/Quality/Order/Serialized.antt =====
-- Reading and writing a `CandidateIdOrder` of ai.rs.
use kanai.Base.{
  ℕ, zero, suc, ◌+◌, ◌<◌, ◌≤◌, false, List, [], ◌∷◌, ◌++◌, append-nil, append_assoc, ◌≡◌, refl, sym,
  ap, ◌∙◌, ◌==◌, length, map, set, take, replicate, arith, Bool-cases, inl, inr, Result, ok, err,
}
use kanai.Quality.Limits.{max_local_quality_candidates}
use kanai.Quality.Order.{
  CandidateIdOrder, SequenceError, malformed_element, invalid_length, as_slice, visit_seq,
  deserialize,
}
use kanai.Quality.Order.Places.{length-set}
use kanai.Quality.Order.Resolved.{IsIdOrder}

take-set_end :
    (ids : List ℕ) (n x : ℕ) → n < length ids → take (suc n) (set ids n x) ≡ take n ids ++ (x ∷ [])
take-set_end [] n x h = absurd (omega (arith, h))
take-set_end (i ∷ ids) zero x h = refl
take-set_end (i ∷ ids) (suc n) x h = ap (◌∷◌ i) (take-set_end ids n x (omega (arith, h)))

-- An order that was read: what it holds, and its form.
abbrev pub Reads : List ℕ → Result SequenceError CandidateIdOrder → Type 0
Reads ids result =
    (order : CandidateIdOrder) × (result ≡ ok order) × (as_slice order ≡ ids) × IsIdOrder order

visit_seq-Reads :
    (ids : List ℕ) (n : ℕ) (rest : List ℕ)
    → length ids ≡ max_local_quality_candidates
    → n + length rest ≤ max_local_quality_candidates
    → Reads (take n ids ++ rest) (visit_seq ids n (map ok rest))
unfolding visit_seq
visit_seq-Reads ids n [] l h = (
  record { ids = ids; len = n },
  refl,
  sym (append-nil (take n ids)),
  record { few = omega (arith, h); places = l },
)
visit_seq-Reads ids n (x ∷ rest) l h =
    let differ : (n == max_local_quality_candidates) ≡ false = ground (arith, h) in
    let written = take-set_end ids n x (omega (arith, l, h)) in
    let (order, e, slice, s) =
      visit_seq-Reads (set ids n x) (suc n) rest (length-set ids n x ∙ l) (omega (arith, h)) in
    (
      order,
      ground (arith, differ, e),
      slice ∙ (ap (λ t. t ++ rest) written ∙ append_assoc (take n ids) (x ∷ []) rest),
      s,
    )

visit_seq_refuses :
    (ids : List ℕ) (n : ℕ) (first : List ℕ) (rest : List (Result ℕ ℕ))
    → n + length first ≡ suc max_local_quality_candidates
    → n ≤ max_local_quality_candidates
    → visit_seq ids n (map ok first ++ rest) ≡ err (invalid_length 10)
unfolding visit_seq
visit_seq_refuses ids n [] rest h k = absurd (omega (arith, h, k))
visit_seq_refuses ids n (x ∷ first) rest h k =
    elim (Bool-cases (n == max_local_quality_candidates)) [
      | inl e ↦ ground (arith, e)
      | inr e ↦ ground (
        arith,
        e,
        visit_seq_refuses (set ids n x) (suc n) first rest (omega (arith, h))
            (ground (arith, e, k)),
      )
    ]

visit_seq_malformed :
    (ids : List ℕ) (n : ℕ) (first : List ℕ) (error : ℕ) (rest : List (Result ℕ ℕ))
    → n + length first ≤ max_local_quality_candidates
    → visit_seq ids n (map ok first ++ (err error ∷ rest)) ≡ err (malformed_element error)
unfolding visit_seq
visit_seq_malformed ids n [] error rest h = refl
visit_seq_malformed ids n (x ∷ first) error rest h =
    let differ : (n == max_local_quality_candidates) ≡ false = ground (arith, h) in
    let later = visit_seq_malformed (set ids n x) (suc n) first error rest (omega (arith, h)) in
    ground (arith, differ, later)

-- A sequence of at most nine ids is read as the order whose ids are that sequence, so that reading
-- is inverse to writing.
pub deserialize-Reads :
    (sequence : List ℕ)
    → length sequence ≤ max_local_quality_candidates
    → Reads sequence (deserialize (map ok sequence))
unfolding deserialize
deserialize-Reads sequence h =
    visit_seq-Reads (replicate max_local_quality_candidates 0) 0 sequence refl (omega (arith, h))

-- A sequence that starts with ten ids is refused with the length 10, whatever follows the tenth (an
-- element that cannot be read, or none). One that has at most nine ids before an element that cannot
-- be read is refused with that element's error, whatever follows it.
pub deserialize_refuses :
    (first : List ℕ) (rest : List (Result ℕ ℕ)) (few : List ℕ) (error : ℕ)
    → length first ≡ suc max_local_quality_candidates
    → length few ≤ max_local_quality_candidates
    → (deserialize (map ok first ++ rest) ≡ err (invalid_length 10))
      × (deserialize (map ok few ++ (err error ∷ rest)) ≡ err (malformed_element error))
unfolding deserialize
deserialize_refuses first rest few error h k = (
  visit_seq_refuses (replicate max_local_quality_candidates 0) 0 first rest (omega (arith, h))
      (omega arith),
  visit_seq_malformed (replicate max_local_quality_candidates 0) 0 few error rest
      (omega (arith, k)),
)
