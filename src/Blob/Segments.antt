-- ===== src/Blob/Segments.antt =====
-- apk-tools/src/blob.c: what a callback keeps over all segments.
use arianna_method_anchor_pr.Prelude.{
  ℕ, zero, suc, List, [], ◌∷◌, ℤ, pos, int_eq, Bool-cases, Option-cases, inl, inr,
}
use arianna_method_anchor_pr.Blob.Slices.{split, each_segment}
use arianna_method_anchor_pr.Blob.Hex.{Access, ok, fault}

-- A predicate that each callback keeps holds after all of them.
pub each_segment-keeps {ℓ} :
    {S : Type 0} (P : S → Type ℓ) (cb : S → List ℕ → ℤ × S) (d : ℕ) (ds : List ℕ)
    → ((x : S) (s : List ℕ) → P x → P (cb x s).1)
    → (fuel : ℕ) (s : List ℕ) (x : S) → P x
    → P (each_segment cb d ds fuel s x).1
unfolding each_segment
each_segment-keeps P cb d ds keeps zero s x h = h
each_segment-keeps {S = S} P cb d ds keeps (suc fuel) s x h = elim (Option-cases (split s d ds)) [
  | inl e ↦
      rw (e, each_segment)
        (elim s
          as (λ (t : List ℕ).
            P (elim t as (λ (u : List ℕ). ℤ × S) [ [] ↦ (pos 0, x) | c ∷ u ↦ cb x (c ∷ u) ]).1) [
              | [] ↦ h
              | c ∷ t ↦ keeps x (c ∷ t) h
            ])
  | inr ((l, r), e) ↦
      rw (e, each_segment)
        (elim (Bool-cases (int_eq (cb x l).0 (pos 0))) [
          | inl e' ↦
              rw (e', each_segment)
                (each_segment-keeps P cb d ds keeps fuel r (cb x l).1 (keeps x l h))
          | inr e' ↦ rw (e', each_segment) (keeps x l h)
        ])
]

-- A fact about the result, where the code does not read past a blob.
abbrev pub Safe {ℓ κ} : {A : Type ℓ} → (A → Type κ) → Access A → Type κ
Safe P (ok a) = P a
Safe P fault = Unit
