-- ===== src/Quality/Order/Cycles.antt =====
-- The in-place walk of `apply_index_order` of ai.rs along the cycles of an order.
use kanai.Base.{
  ◌⊎◌, ℕ, zero, suc, ◌<◌, ◌≤◌, Bool, true, false, Option, some, List, ◌≡◌, ◌≢◌, refl, sym, ap,
  subst, ◌∙◌, ◌==◌, ==_iff, length, get_elem?, get_or, set, take, arith, if-cases, Bool-cases, inl,
  inr,
}
use kanai.Quality.Order.{swap, follow}
use kanai.Quality.Order.Places.{
  length-set, get_or-set, get_elem?-swap, length-swap, unmarked, unmarked-mark, set-set,
}

-- The first `n` old indices are the places below `n`, each once.
pub record IsPermutation (old : List ℕ) (n : ℕ) : Type 0 where
  pub bounded : (i : ℕ) → i < n → get_or old i 0 < n
  pub injective : (i j : ℕ) → i < n → j < n → get_or old i 0 ≡ get_or old j 0 → i ≡ j

-- Between two cycles: the marked places hold what the order wants, the others what they held.
pub record Walked {ℓ} {A : Type ℓ} (old : List ℕ) (n : ℕ) (before after : List A)
    (marks : List Bool) : Type ℓ where
  pub size : length after ≡ length before
  pub room : n ≤ length marks
  pub moved :
      (i : ℕ) → get_or marks i false ≡ true → get_elem? after i ≡ get_elem? before (get_or old i 0)
  pub fixed : (i : ℕ) → get_or marks i false ≡ false → get_elem? after i ≡ get_elem? before i
  pub inside : (i : ℕ) → get_or marks i false ≡ true → i < n
  pub source :
      (j : ℕ)
      → get_or marks j false ≡ true
      → (i : ℕ) × (get_or marks i false ≡ true) × (get_or old i 0 ≡ j)

-- Within the cycle of `start`, at `here`, which holds what `start` held.
pub record Walking {ℓ} {A : Type ℓ} (old : List ℕ) (n start here : ℕ) (before after : List A)
    (marks : List Bool) : Type ℓ where
  pub size : length after ≡ length before
  pub room : n ≤ length marks
  pub begun : get_or marks start false ≡ true
  pub arrived : get_or marks here false ≡ true
  pub carried : get_elem? after here ≡ get_elem? before start
  pub moved :
      (i : ℕ)
      → get_or marks i false ≡ true
      → i ≢ here
      → get_elem? after i ≡ get_elem? before (get_or old i 0)
  pub fixed : (i : ℕ) → get_or marks i false ≡ false → get_elem? after i ≡ get_elem? before i
  pub inside : (i : ℕ) → get_or marks i false ≡ true → i < n
  pub source :
      (j : ℕ)
      → get_or marks j false ≡ true
      → j ≢ start
      → (i : ℕ) × (get_or marks i false ≡ true) × (i ≢ here) × (get_or old i 0 ≡ j)

pub same_or : (a b : ℕ) → (a ≡ b) ⊎ (a ≢ b)
same_or a b = elim (Bool-cases (a == b)) [
  | inl e ↦ inl ((==_iff a b).0 e)
  | inr e ↦ inr (λ h. ground (arith, (==_iff a b).1 h))
]

module _ {ℓ} {A : Type ℓ} (old : List ℕ) (n : ℕ) (once : IsPermutation old n) (before : List A)
    (large : n ≤ length before) where
  -- The next place of the cycle has no mark yet.
  next_fresh :
      (start here : ℕ) (after : List A) (marks : List Bool)
      → Walking old n start here before after marks
      → get_or old here 0 ≢ start
      → get_or marks (get_or old here 0) false ≡ false
  next_fresh start here after marks w ahead =
      elim (Bool-cases (get_or marks (get_or old here 0) false)) [
        | inr e ↦ e
        | inl e ↦
            let (i, m, other, same) = w.source (get_or old here 0) e ahead in
            absurd (other (once.injective i here (w.inside i m) (w.inside here w.arrived) same))
      ]

  Walking-swap :
      (start here : ℕ) (after : List A) (marks : List Bool)
      → Walking old n start here before after marks
      → get_or old here 0 ≢ start
      → Walking old n start
          (get_or old here 0)
          before
          (swap after here (get_or old here 0))
          (set marks (get_or old here 0) true)
  Walking-swap start here after marks w ahead =
      let next = get_or old here 0 in
      let hn : here < n = w.inside here w.arrived in
      let nn : next < n = once.bounded here hn in
      let fresh = next_fresh start here after marks w ahead in
      let apart : next ≢ here =
        λ h. ground (arith, w.arrived, fresh, ap (λ k. get_or marks k false) h) in
      let marked = λ (i : ℕ). get_or-set marks next i true false (omega (arith, nn, w.room)) in
      let held = λ (i : ℕ).
        get_elem?-swap after here next i (omega (arith, w.size)) (omega (arith, w.size)) in
      record {
        size = length-swap after here next ∙ w.size;
        room = rw (length-set marks next true) w.room;
        begun = ground (arith, marked start, w.begun);
        arrived = ground (arith, marked next);
        carried = ground (arith, held next, w.carried);
        moved = λ i m other. elim (same_or i here) [
          | inl e ↦
              subst (λ k. get_elem? (swap after here next) k ≡ get_elem? before (get_or old k 0))
                (sym e) (ground (arith, held here, w.fixed next fresh, apart))
          | inr e ↦ ground (arith, held i, marked i, w.moved i)
        ];
        fixed = λ i m. ground (arith, held i, marked i, w.fixed i, w.arrived);
        inside = λ i m. ground (arith, marked i, w.inside i);
        source = λ j m other. elim (same_or j next) [
          | inl e ↦ (here, ground (arith, marked here, w.arrived), (λ h. apart (sym h)), sym e)
          | inr e ↦
              let (i, mi, oi, pi) = w.source j (ground (arith, marked j)) other in
              (
                i,
                ground (arith, marked i),
                (λ h. ground (arith, mi, fresh, ap (λ k. get_or marks k false) h)),
                pi,
              )
        ];
      }

  -- The last place of a cycle wants what `start` held.
  pub Walking-ends :
      (start here : ℕ) (after : List A) (marks : List Bool)
      → Walking old n start here before after marks
      → get_or old here 0 ≡ start
      → Walked old n before after marks
  Walking-ends start here after marks w back = record {
    size = w.size;
    room = w.room;
    moved = λ i m. elim (same_or i here) [
      | inl e ↦
          subst (λ k. get_elem? after k ≡ get_elem? before (get_or old k 0)) (sym e)
            (w.carried ∙ ap (get_elem? before) (sym back))
      | inr e ↦ w.moved i m e
    ];
    fixed = w.fixed;
    inside = w.inside;
    source = λ j m. elim (same_or j start) [
      | inl e ↦ (here, w.arrived, back ∙ sym e)
      | inr e ↦ let (i, mi, oi, pi) = w.source j m e in (i, mi, pi)
    ];
  }

  pub Walked-begins :
      (start : ℕ) (after : List A) (marks : List Bool)
      → start < n
      → Walked old n before after marks
      → get_or marks start false ≡ false
      → Walking old n start start before after (set marks start true)
  Walked-begins start after marks hs w free =
      let marked = λ (i : ℕ). get_or-set marks start i true false (omega (arith, w.room)) in
      record {
        size = w.size;
        room = rw (length-set marks start true) w.room;
        begun = ground (arith, marked start);
        arrived = ground (arith, marked start);
        carried = w.fixed start free;
        moved = λ i m other. w.moved i (ground (arith, marked i));
        fixed = λ i m. w.fixed i (ground (arith, marked i, free));
        inside = λ i m. ground (arith, marked i, w.inside i);
        source = λ j m other.
            let (i, mi, pi) = w.source j (ground (arith, marked j)) in
            (
              i,
              ground (arith, marked i),
              λ h. ground (arith, mi, free, ap (λ k. get_or marks k false) h),
              pi,
            );
      }

  -- The walk along one cycle comes to its end, and keeps every mark.
  abbrev pub Ends : ℕ → List Bool → Option (List A × List Bool) → Type ℓ
  Ends start marks found =
      (state : List A × List Bool) × (found ≡ some state)
      × Walked old n before state.0 state.1
      × ((i : ℕ) → get_or marks i false ≡ true → get_or state.1 i false ≡ true)

  pub follow-Ends :
      (fuel start here : ℕ) (after : List A) (marks : List Bool)
      → Walking old n start here before after (set marks here true)
      → get_or old here 0 ≢ start
      → unmarked (take n (set marks here true)) ≤ fuel
      → Ends start (set marks here true) (follow fuel old start here after marks)
  unfolding follow
  follow-Ends zero start here after marks w ahead enough = absurd (
      omega (
        arith,
        enough,
        unmarked-mark n (set marks here true) (get_or old here 0)
            (once.bounded here (w.inside here w.arrived)) w.room
            (next_fresh start here after (set marks here true) w ahead),
      ))
  follow-Ends (suc fuel) start here after marks w ahead enough =
      let next = get_or old here 0 in
      let nn : next < n = once.bounded here (w.inside here w.arrived) in
      let marks1 = set marks here true in
      let marks2 = set marks1 next true in
      let swapped = swap after here next in
      let moved = Walking-swap start here after marks1 w ahead in
      let less =
        unmarked-mark n marks1 next nn w.room (next_fresh start here after marks1 w ahead) in
      let keeps : (i : ℕ) → get_or marks1 i false ≡ true → get_or marks2 i false ≡ true =
        λ i m. ground (arith, m, get_or-set marks1 next i true false (omega (arith, nn, w.room))) in
      if-cases (Ends start marks1) (get_or old next 0 == start) _ _
        (λ e. (
          (swapped, marks2),
          refl,
          Walking-ends start next swapped marks2 moved ((==_iff (get_or old next 0) start).0 e),
          keeps,
        ))
        (λ e.
          let (state, found, walked, kept) =
            follow-Ends fuel start next swapped marks2
              (subst (Walking old n start next before swapped) (sym (set-set marks1 next true))
                moved)
              (λ h. ground (arith, e, (==_iff (get_or old next 0) start).1 h))
              (rw (set-set marks1 next true) (omega (arith, enough, less))) in
          (state, found, walked, λ i m. kept i (rw (set-set marks1 next true) (keeps i m))))
