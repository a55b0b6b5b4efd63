-- ===== src/Blob/Order.antt =====
-- The order of blobs, by length and then byte by byte.
use arianna_method_anchor_pr.Prelude.{
  ℕ, ◌≡◌, ◌↔◌, refl, List, [], ◌∷◌, arith, ◌==◌, if◌then◌else◌, length, ℤ, pos, negsuc,
}
use arianna_method_anchor_pr.Blob.Slices.{memcmp, compare}

memcmp_self : (s : List ℕ) → memcmp s s ≡ pos 0
unfolding memcmp
memcmp_self [] = refl
memcmp_self (c ∷ s) = ground (arith, memcmp_self s)

memcmp_sound : (s t : List ℕ) → length s ≡ length t → memcmp s t ≡ pos 0 → s ≡ t
unfolding memcmp
memcmp_sound [] [] h e = refl
memcmp_sound [] (b ∷ t) h e = absurd (omega arith)
memcmp_sound (a ∷ s) [] h e = absurd (omega arith)
memcmp_sound (a ∷ s) (b ∷ t) h e = ground (arith, memcmp_sound s t)

-- `apk_blob_compare` returns 0 for equal blobs and for no others.
pub compare_iff : (s t : List ℕ) → (compare s t ≡ pos 0) ↔ (s ≡ t)
unfolding compare
compare_iff s t =
    ((λ e. ground (arith, memcmp_sound s t)), (λ e. rw e (ground (arith, memcmp_self t))))

-- The opposite sign.
abbrev pub opposite : ℤ → ℤ
opposite (pos n) = if n == 0 then pos 0 else negsuc 0
opposite (negsuc n) = pos 1

memcmp-swap : (s t : List ℕ) → memcmp t s ≡ opposite (memcmp s t)
unfolding memcmp
memcmp-swap [] [] = refl
memcmp-swap [] (b ∷ t) = refl
memcmp-swap (a ∷ s) [] = refl
memcmp-swap (a ∷ s) (b ∷ t) = ground (arith, memcmp-swap s t)

compare-swap : (s t : List ℕ) → compare t s ≡ opposite (compare s t)
unfolding compare
compare-swap s t = ground (arith, memcmp-swap s t)

memcmp_trans :
    (s t u : List ℕ)
    → length s ≡ length t
    → length t ≡ length u
    → memcmp s t ≡ negsuc 0
    → memcmp t u ≡ negsuc 0
    → memcmp s u ≡ negsuc 0
unfolding memcmp
memcmp_trans [] t u p q h k = ground arith
memcmp_trans (a ∷ s) [] u p q h k = absurd (omega arith)
memcmp_trans (a ∷ s) (b ∷ t) [] p q h k = absurd (omega arith)
memcmp_trans (a ∷ s) (b ∷ t) (c ∷ u) p q h k = ground (arith, memcmp_trans s t u)

-- `apk_blob_compare` is a strict order: the two directions have opposite signs, and less than is
-- transitive.
pub compare_order :
    (s t u : List ℕ)
    → compare s t ≡ negsuc 0
    → compare t u ≡ negsuc 0
    → (compare t s ≡ pos 1) × (compare s u ≡ negsuc 0)
unfolding compare
compare_order s t u h k = (ground (arith, memcmp-swap s t), ground (arith, memcmp_trans s t u))
