-- ===== src/Quality/Decision/Reordered.antt =====
-- The candidates that a plan of ai.rs reorders.
use mathlib.Core.Option
use kanai.Base.{
  ℕ, zero, suc, ◌<◌, ◌≤◌, true, Option, none, some, List, [], ◌∷◌, ◌≡◌, refl, sym, ap, subst, ◌∙◌,
  length, get_elem?, get_or, map, length-take, arith, ok,
}
use kanai.Quality.Order.{IndexOrder, as_slice, resolve, apply_index_order}
use kanai.Quality.Order.Outcome.{apply_index_order-gathers}
use kanai.Quality.Order.Resolved.{IsIdOrder, Resolved, resolve-Resolved}
use kanai.Quality.Window.{PersonalizedCandidate, CandidateFingerprint, Write, id_of}
use kanai.Quality.Decision.{
  SemanticRerankSnapshot, SemanticRerankPlan, SemanticRerankAdmission, applied, is_generation,
  all_match, matches_candidates, check_admission, apply,
}
use kanai.Quality.Decision.Outcome.{apply-cases}

pub get_elem?-map {ℓ κ} :
    {A : Type ℓ} {B : Type κ} (f : A → B) (xs : List A) (i : ℕ)
    → get_elem? (map f xs) i ≡ Option.map f (get_elem? xs i)
get_elem?-map f [] i = refl
get_elem?-map f (x ∷ xs) zero = refl
get_elem?-map f (x ∷ xs) (suc i) = get_elem?-map f xs i

module _ (digest : List Write → ℕ) where
  all_match_ids :
      (ids : List ℕ) (prints : List CandidateFingerprint) (candidates : List PersonalizedCandidate)
      → (i : ℕ) → all_match digest ids prints candidates ≡ true
      → i < length ids
      → get_elem? ids i ≡ get_elem? (map id_of candidates) i
  unfolding all_match
  all_match_ids [] prints candidates i e h = absurd (omega (arith, h))
  all_match_ids (id ∷ ids) prints [] i e h = absurd (ground (arith, e))
  all_match_ids (id ∷ ids) [] (c ∷ cs) i e h = absurd (ground (arith, e))
  all_match_ids (id ∷ ids) (p ∷ ps) (c ∷ cs) zero e h = ground (arith, e)
  all_match_ids (id ∷ ids) (p ∷ ps) (c ∷ cs) (suc i) e h =
      all_match_ids ids ps cs i (ground (arith, e)) (omega (arith, h))

  -- What an admission that passes its check says.
  pub record IsAdmitted (self : SemanticRerankSnapshot) (admission : SemanticRerankAdmission)
      : Type 0 where
    pub generation : admission.current_generation ≡ some self.generation
    pub model : admission.current_model_revision ≡ self.model_revision
    pub learning : admission.current_learning_version ≡ self.learning_version
    pub enough : self.candidate_ids.len ≤ length admission.candidates
    pub ids :
        (i : ℕ)
        → i < length (as_slice self.candidate_ids)
        → get_elem? (as_slice self.candidate_ids) i ≡ get_elem? (map id_of admission.candidates) i

  is_generation_sound : (o : Option ℕ) (n : ℕ) → is_generation o n ≡ true → o ≡ some n
  is_generation_sound none n e = absurd (ground (arith, e))
  is_generation_sound (some m) n e = ground (arith, e)

  check_admission-IsAdmitted :
      (self : SemanticRerankSnapshot) (admission : SemanticRerankAdmission)
      → check_admission digest self admission ≡ ok tt
      → IsAdmitted self admission
  unfolding check_admission matches_candidates
  check_admission-IsAdmitted self admission e =
      let current : is_generation admission.current_generation self.generation ≡ true =
        ground (arith, e) in
      let matching : all_match digest (as_slice self.candidate_ids) self.candidate_fingerprints
            admission.candidates
          ≡ true =
        ground (arith, e) in
      record {
        generation = is_generation_sound admission.current_generation self.generation current;
        model = ground (arith, e);
        learning = ground (arith, e);
        enough = ground (arith, e);
        ids = λ i h.
            all_match_ids (as_slice self.candidate_ids) self.candidate_fingerprints
              admission.candidates i matching h;
      }

  -- The outcome of an order that was applied to the candidates, by places.
  pub record Reordered (self : SemanticRerankPlan) (before after : List PersonalizedCandidate)
      (changed : ℕ) : Type 0 where
    pub size : length after ≡ length before
    pub order : IndexOrder
    pub resolved :
        Resolved self.candidate_ids
          (as_slice self.snapshot.candidate_ids)
          self.snapshot.max_rank_shift
          order
    pub counted : changed ≡ order.changed_positions
    pub moved :
        (i : ℕ)
        → i < order.len
        → get_elem? after i ≡ get_elem? before (get_or order.old_indices i 0)
    pub fixed : (i : ℕ) → order.len ≤ i → get_elem? after i ≡ get_elem? before i
    pub ids :
        (i : ℕ)
        → i < order.len
        → get_elem? (map id_of after) i ≡ get_elem? (as_slice self.candidate_ids) i

  pub reorders :
      (self : SemanticRerankPlan) (admission : SemanticRerankAdmission) (order : IndexOrder)
      → IsIdOrder self.candidate_ids
      → check_admission digest self.snapshot admission ≡ ok tt
      → resolve self.candidate_ids
          (as_slice self.snapshot.candidate_ids)
          self.snapshot.max_rank_shift
        ≡ ok order
      → ((apply_index_order admission.candidates order).1 ≡ ok order.changed_positions)
        × Resolved self.candidate_ids
            (as_slice self.snapshot.candidate_ids)
            self.snapshot.max_rank_shift
            order
        × (order.len ≤ length admission.candidates)
        × Reordered self admission.candidates
            (apply_index_order admission.candidates order).0
            order.changed_positions
  reorders self admission order s e f =
      let expected = as_slice self.snapshot.candidate_ids in
      let before = admission.candidates in
      let a = check_admission-IsAdmitted self.snapshot admission e in
      let r = resolve-Resolved self.candidate_ids expected self.snapshot.max_rank_shift order s f in
      let short : order.len ≤ length before = omega (
        arith,
        r.covers,
        a.enough,
        length-take self.snapshot.candidate_ids.len self.snapshot.candidate_ids.ids,
      ) in
      let (done, size, moved, fixed) =
        apply_index_order-gathers before order r.sized r.once short in
      let after = (apply_index_order before order).0 in
      (
        done,
        r,
        short,
        record {
          size = size;
          order = order;
          resolved = r;
          counted = refl;
          moved = moved;
          fixed = fixed;
          ids = λ i h.
              let old = get_or order.old_indices i 0 in
              get_elem?-map id_of after i
              ∙ (ap (Option.map id_of) (moved i h)
                  ∙ (sym (get_elem?-map id_of before old)
                      ∙ (sym (a.ids old (subst (λ n. old < n) r.covers (r.once.bounded i h)))
                          ∙ r.names i h)));
        },
      )

  -- Where `apply` returns that `n` positions changed: the generation, the model revision and the
  -- learning version were still those of the snapshot; the ids of the candidates are then the ids of
  -- the plan, in its order; every candidate of the window moved by at most the snapshot's shift, and
  -- those behind the window did not move.
  pub apply-Reordered :
      (self : SemanticRerankPlan) (admission : SemanticRerankAdmission) (n : ℕ)
      → IsIdOrder self.candidate_ids
      → (apply digest self admission).1 ≡ ok (applied n)
      → IsAdmitted self.snapshot admission
        × Reordered self admission.candidates (apply digest self admission).0 n
  apply-Reordered self admission n s =
      apply-cases digest self admission
        (λ r.
          r.1 ≡ ok (applied n)
          → IsAdmitted self.snapshot admission × Reordered self admission.candidates r.0 n)
        (λ rejection p. absurd (ground (arith, p))) (λ p. absurd (ground (arith, p)))
        (λ order e f p.
          let (done, resolved, fits, r) = reorders self admission order s e f in
          let same : order.changed_positions ≡ n = ground (arith, done, p) in
          (
            check_admission-IsAdmitted self.snapshot admission e,
            subst
                (Reordered self admission.candidates
                  (apply_index_order admission.candidates order).0)
                same r,
          ))
