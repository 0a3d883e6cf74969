-- ===== src/Base/Perms.antt =====
-- Permutations and the native length.
use mathlib.Core.List.{List, Perm, Permᴰ}
use mathlib.Core.Logic.{∥∥₁_elim}
use mathlib.Core.Path.{◌≡◌, refl}
use native.Mathlib.Nat.{ℕ_set}
use native.Mathlib.Omega.{arith}
use kanai.Base.Lists.{length}

module _ {ℓ} {A : Type ℓ} where
  length-perm_d : {xs ys : List A} → Permᴰ xs ys → length xs ≡ length ys
  length-perm_d Permᴰ.nil = refl
  length-perm_d (Permᴰ.cons e p) = omega (arith, length-perm_d p)
  length-perm_d (Permᴰ.swap e f) = refl
  length-perm_d (Permᴰ.trans p q) = omega (arith, length-perm_d p, length-perm_d q)

  pub length-perm : {xs ys : List A} → Perm xs ys → length xs ≡ length ys
  length-perm p = ∥∥₁_elim p (ℕ_set _ _) length-perm_d
