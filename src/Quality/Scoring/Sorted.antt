-- ===== src/Quality/Scoring/Sorted.antt =====
-- The order that sorted scores of ai.rs make.
use mathlib.Core.List.{
  Perm, Mem, Nodup, Nodup-nil, Nodup-cons, mem-cons, mem-cons_self, mem-cons_of_mem, not-mem-nil,
}
use mathlib.Core.List.Perm
use mathlib.Core.Logic.Or
use native.Mathlib.Bridge.{le_prop}
use kanai.Base.{
  ℕ, zero, suc, ◌+◌, ◌<◌, ◌≤◌, List, [], ◌∷◌, ◌≡◌, refl, sym, ap, subst, length, get_or, map, arith,
  if-cases,
}
use kanai.Quality.Scoring.{ScoredCandidate, ranks_before, insert_scored, sort_scored}

abbrev pub indices : List ScoredCandidate → List ℕ
indices = map (λ a. a.old_index)

insert_scored-Perm :
    (a : ScoredCandidate) (bs : List ScoredCandidate)
    → Perm (indices (insert_scored a bs)) (indices (a ∷ bs))
unfolding insert_scored
insert_scored-Perm a [] = Perm.refl _
insert_scored-Perm a (b ∷ bs) =
    if-cases (λ l. Perm (indices l) (indices (a ∷ b ∷ bs))) (ranks_before b a)
      (b ∷ insert_scored a bs) (a ∷ b ∷ bs)
      (λ e.
        Perm.trans (Perm.cons b.old_index (insert_scored-Perm a bs))
          (Perm.swap a.old_index b.old_index (indices bs)))
      (λ e. Perm.refl _)

pub sort_scored-Perm : (l : List ScoredCandidate) → Perm (indices (sort_scored l)) (indices l)
unfolding sort_scored
sort_scored-Perm [] = Perm.refl _
sort_scored-Perm (a ∷ l) =
    Perm.trans (insert_scored-Perm a (sort_scored l)) (Perm.cons a.old_index (sort_scored-Perm l))

-- `count` numbers from `start` on.
unfoldable pub upto : ℕ → ℕ → List ℕ
upto start zero = []
upto start (suc count) = start ∷ upto (suc start) count

pub mem-upto : (x start count : ℕ) → Mem x (upto start count) → (start ≤ x) × (x < start + count)
unfolding upto
mem-upto x start zero m = absurd (not-mem-nil m)
mem-upto x start (suc count) m =
    Or.elim (hlevel le_prop) (mem-cons.0 m) (λ e. omega (arith, e))
      (λ n. let (low, high) = mem-upto x (suc start) count n in omega (arith, low, high))

pub upto-Nodup : (start count : ℕ) → Nodup (upto start count)
unfolding upto
upto-Nodup start zero = Nodup-nil
upto-Nodup start (suc count) = Nodup-cons.1 (
  λ m. let (low, high) = mem-upto start (suc start) count m in omega (arith, low),
  upto-Nodup (suc start) count,
)

pub length-upto : (start count : ℕ) → length (upto start count) ≡ count
unfolding upto
length-upto start zero = refl
length-upto start (suc count) = ap suc (length-upto (suc start) count)

pub mem-get_or : (xs : List ℕ) (i : ℕ) → i < length xs → Mem (get_or xs i 0) xs
mem-get_or [] i h = absurd (omega (arith, h))
mem-get_or (x ∷ xs) zero h = mem-cons_self
mem-get_or (x ∷ xs) (suc i) h = mem-cons_of_mem x (mem-get_or xs i (omega (arith, h)))

-- Without repetitions, a number stands at one place.
pub one_place :
    (xs : List ℕ) (i j : ℕ)
    → Nodup xs
    → i < length xs
    → j < length xs
    → get_or xs i 0 ≡ get_or xs j 0
    → i ≡ j
one_place [] i j d hi hj e = absurd (omega (arith, hi))
one_place (x ∷ xs) zero zero d hi hj e = refl
one_place (x ∷ xs) zero (suc j) d hi hj e =
    absurd
      ((Nodup-cons.0 d).0 (subst (λ n. Mem n xs) (sym e) (mem-get_or xs j (omega (arith, hj)))))
one_place (x ∷ xs) (suc i) zero d hi hj e =
    absurd ((Nodup-cons.0 d).0 (subst (λ n. Mem n xs) e (mem-get_or xs i (omega (arith, hi)))))
one_place (x ∷ xs) (suc i) (suc j) d hi hj e =
    ap suc (one_place xs i j (Nodup-cons.0 d).1 (omega (arith, hi)) (omega (arith, hj)) e)
