-- ===== src/Quality/Order/Accepted.antt =====
-- Which orders `CandidateIdOrder::resolve` of ai.rs accepts.
use mathlib.Core.List.{
  Perm, Mem, Nodup, Nodup-cons, mem-cons, mem-cons_self, mem-cons_of_mem, not-mem-nil,
}
use mathlib.Core.List.Perm
use mathlib.Core.Logic.Or
use kanai.Base.{
  ℕ, suc, ◌+◌, ◌-◌, ◌<◌, ◌≤◌, Bool, true, false, none, some, List, [], ◌∷◌, ◌≡◌, refl, sym, ap,
  subst, ◌∙◌, ◌==◌, ==_iff, length, length-perm, get_elem?, get_or, set, take, replicate,
  length-take, arith, Bool-cases, Option-cases, inl, inr, ok,
}
use kanai.Quality.Limits.{max_local_quality_candidates}
use kanai.Quality.Order.{
  CandidateIdOrder, IndexOrder, as_slice, id_position, bump, place_ids, check_moves, abs_diff,
  usize_max, resolve,
}
use kanai.Quality.Order.Places.{get_or-set, get_or-take, get_elem?_lt, get_elem?-some, length-set}
use kanai.Quality.Order.Fresh.{get_or-replicate}
use kanai.Quality.Order.Resolve.{id_position_sound, place_ids-Placed}
use kanai.Quality.Order.Resolved.{IsIdOrder}

missing_not-mem : (id : ℕ) (xs : List ℕ) → id_position id xs ≡ none → ¬ Mem id xs
unfolding id_position
missing_not-mem id [] e m = not-mem-nil m
missing_not-mem id (x ∷ xs) e m = elim (Bool-cases (x == id)) [
  | inl t ↦ ground (arith, e, t)
  | inr t ↦
      Or.elim (λ a b. absurd a) (mem-cons.0 m) (λ s. ground (arith, t, (==_iff x id).1 (sym s)))
        (missing_not-mem id xs (elim (Option-cases (id_position id xs)) [
          | inl n ↦ n
          | inr (i, s) ↦ absurd (ground (arith, e, t, s))
        ]))
]

-- The places that are seen are those of ids that are no longer to come.
abbrev Spent : List ℕ → List ℕ → List Bool → Type 0
Spent expected ids seen =
    (k : ℕ) → get_or seen k false ≡ true → (x : ℕ) × (get_elem? expected k ≡ some x) × ¬ Mem x ids

place_ids-accepts :
    (expected : List ℕ) (from : ℕ) (ids old : List ℕ) (seen : List Bool) (changed : ℕ)
    → ((x : ℕ) → Mem x ids → Mem x expected)
    → Nodup ids
    → length expected ≤ length seen
    → Spent expected ids seen
    → (placed : List ℕ × ℕ) × (place_ids expected from ids old seen changed ≡ ok placed)
unfolding place_ids
place_ids-accepts expected from [] old seen changed member once wide spent = ((old, changed), refl)
place_ids-accepts expected from (id ∷ ids) old seen changed member once wide spent =
    elim (Option-cases (id_position id expected)) [
      | inl none_at ↦ absurd (missing_not-mem id expected none_at (member id mem-cons_self))
      | inr (k, at) ↦
          let there = id_position_sound id expected k at in
          let hk : k < length seen = omega (arith, wide, get_elem?_lt expected k id there) in
          elim (Bool-cases (get_or seen k false)) [
            | inl taken ↦
                let (x, e, gone) = spent k taken in
                let same : x ≡ id = ground (arith, e, there) in
                absurd (gone (subst (λ z. Mem z (id ∷ ids)) (sym same) mem-cons_self))
            | inr free ↦
                let (placed, e) =
                  place_ids-accepts expected (suc from) ids (set old from k) (set seen k true)
                    (bump k from changed) (λ x m. member x (mem-cons_of_mem id m))
                    (Nodup-cons.0 once).1 (rw (length-set seen k true) wide)
                    (λ j t. elim (Bool-cases (k == j)) [
                      | inl s ↦ (
                        id,
                        subst (λ n. get_elem? expected n ≡ some id) ((==_iff k j).0 s) there,
                        (Nodup-cons.0 once).0,
                      )
                      | inr s ↦
                          let (x, p, gone) =
                            spent j (ground (arith, t, s, get_or-set seen k j true false hk)) in
                          (x, p, λ m. gone (mem-cons_of_mem id m))
                    ]) in
                (placed, ground (arith, at, free, e))
          ]
    ]

check_moves-accepts :
    (shift from : ℕ) (olds : List ℕ)
    → ((i : ℕ)
        → i < length olds
        → (get_or olds i 0 < usize_max) × (abs_diff (get_or olds i 0) (from + i) ≤ shift))
    → check_moves shift from olds ≡ ok tt
unfolding check_moves
check_moves-accepts shift from [] h = refl
check_moves-accepts shift from (x ∷ olds) h =
    let (small, near) = h 0 (omega arith) in
    let rest =
      check_moves-accepts shift (suc from) olds
        (λ i k. let (s, n) = h (suc i) (omega (arith, k)) in (s, omega (arith, n))) in
    ground (arith, small, near, rest)

-- Of expected ids without repetitions, `resolve` accepts every permutation in which no id moves by
-- more than `max_rank_shift` places.
pub resolve-accepts :
    (self : CandidateIdOrder) (expected : List ℕ) (max_rank_shift : ℕ)
    → IsIdOrder self
    → Nodup expected
    → Perm expected (as_slice self)
    → ((i k x : ℕ)
        → get_elem? (as_slice self) i ≡ some x
        → get_elem? expected k ≡ some x
        → abs_diff k i ≤ max_rank_shift)
    → (order : IndexOrder) × (resolve self expected max_rank_shift ≡ ok order)
unfolding resolve
resolve-accepts self expected max_rank_shift s once p near =
    let blank = replicate max_local_quality_candidates false in
    let olds = replicate max_local_quality_candidates usize_max in
    let slice = as_slice self in
    let all : length slice ≡ self.len =
      length-take self.len self.ids ∙ omega (arith, s.few, s.places) in
    let count : length expected ≡ self.len = length-perm p ∙ all in
    let (placed, e) =
      place_ids-accepts expected 0 slice olds blank 0 (λ x m. (Perm.mem_iff p).1 m)
        ((Perm.Nodup-iff p).0 once) (omega (arith, count, s.few))
        (λ k t. absurd (ground (arith, t, get_or-replicate 9 k))) in
    let made =
      place_ids-Placed expected 0 slice olds blank 0 placed (omega (arith, all, s.few))
        (omega (arith, count, s.few)) e in
    let moves = check_moves-accepts max_rank_shift 0 (take (length expected) placed.0) (λ i h.
      let hi : i < length expected = omega (arith, h, length-take (length expected) placed.0) in
      let same = get_or-take (length expected) placed.0 i 0 hi in
      let (x, there) = get_elem?-some slice i (omega (arith, hi, count, all)) in
      let z : i - 0 ≡ i = omega arith in
      let here =
        made.found i (omega arith) (omega (arith, hi, count, all))
        ∙ (ap (get_elem? slice) z ∙ there) in
      let low = get_elem?_lt expected (get_or placed.0 i 0) x here in
      (
        omega (arith, same, low, count, s.few),
        omega (arith, same, near i (get_or placed.0 i 0) x there here),
      )) in
    let equal : (self.len == length expected) ≡ true =
      (==_iff self.len (length expected)).1 (sym count) in
    (
      record { old_indices = placed.0; len = self.len; changed_positions = placed.1 },
      ground (arith, equal, e, moves),
    )
