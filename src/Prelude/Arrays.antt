-- ===== src/Prelude/Arrays.antt =====
-- Arrays whose entries are removed by moving the last one into the gap.
use Prim.Native.Nat.{ℕ, zero, suc}
use mathlib.Core.Path.{◌≡◌, refl, ap}
use mathlib.Core.Bool.{Bool}
use mathlib.Core.List.{List, [], ◌∷◌, Perm}
use mathlib.Core.List.Perm
use arianna_method_anchor_pr.Prelude.Tests.{if◌then◌else◌}
use arianna_method_anchor_pr.Prelude.Lists.{length}

module _ {ℓ} {A : Type ℓ} where
  -- The last of the entries `x ∷ xs`, and those before it.
  unfoldable pub last_of : A → List A → A
  last_of x [] = x
  last_of x (y ∷ ys) = last_of y ys

  unfoldable pub but_last_of : A → List A → List A
  but_last_of x [] = []
  but_last_of x (y ∷ ys) = x ∷ but_last_of y ys

  -- `item[i] = item[num - 1]` and one entry less, where `xs` are the entries behind `item[i]`.
  unfoldable pub fill_from_end : List A → List A
  unfolding last_of but_last_of
  fill_from_end [] = []
  fill_from_end (x ∷ xs) = last_of x xs ∷ but_last_of x xs

  pub fill_from_end-perm : (xs : List A) → Perm (fill_from_end xs) xs
  unfolding fill_from_end
  fill_from_end-perm [] = Perm.refl []
  fill_from_end-perm (x ∷ []) = Perm.refl (x ∷ [])
  fill_from_end-perm (x ∷ y ∷ xs) =
      Perm.trans (Perm.swap _ _ _) (Perm.cons x (fill_from_end-perm (y ∷ xs)))

  length-but_last_of : (x : A) (xs : List A) → length (but_last_of x xs) ≡ length xs
  unfolding but_last_of
  length-but_last_of x [] = refl
  length-but_last_of x (y ∷ ys) = ap suc (length-but_last_of y ys)

  pub length-fill_from_end : (xs : List A) → length (fill_from_end xs) ≡ length xs
  unfolding fill_from_end
  length-fill_from_end [] = refl
  length-fill_from_end (x ∷ xs) = ap suc (length-but_last_of x xs)

  -- The loop over `i` that goes on at `i + 1` where the entry is kept, and fills the gap otherwise.
  unfoldable pub sift : ℕ → (A → Bool) → List A → List A
  unfolding fill_from_end
  sift zero keep xs = []
  sift (suc n) keep [] = []
  sift (suc n) keep (x ∷ xs) =
      let rest = sift n keep (if keep x then xs else fill_from_end xs) in
      if keep x then x ∷ rest else rest

  -- It makes as many rounds as there are entries.
  unfoldable pub keep_if : (A → Bool) → List A → List A
  unfolding sift
  keep_if keep xs = sift (length xs) keep xs

  -- The entries that are kept, in their order.
  abbrev pub kept : (A → Bool) → List A → List A
  kept keep [] = []
  kept keep (x ∷ xs) = let rest = kept keep xs in if keep x then x ∷ rest else rest
