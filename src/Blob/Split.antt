-- ===== src/Blob/Split.antt =====
-- The search for a separator, and the segments between separators.
use mathlib.Core.List.{append_assoc}
use arianna_method_anchor_pr.Prelude.{
  ℕ, zero, suc, ◌≤◌, ◌<◌, ◌≡◌, ◌≢◌, sym, refl, true, false, none, some, List, [], ◌∷◌, ◌++◌, arith,
  ltb, if◌then◌else◌, length, drop, length-append, negsuc, Bool-cases, Option-cases, inl, inr, ℤ,
  pos, int_eq,
}
use arianna_method_anchor_pr.Blob.Slices.{begins, hit, split, each_segment, for_each_segment}

begins_sound : (p s : List ℕ) → begins p s ≡ true → p ++ drop (length p) s ≡ s
unfolding begins
begins_sound [] s h = refl
begins_sound (p ∷ ps) [] h = ground arith
begins_sound (p ∷ ps) (c ∷ s) h = ground (arith, begins_sound ps s)

begins_complete : (p s : List ℕ) → begins p (p ++ s) ≡ true
unfolding begins
begins_complete [] s = refl
begins_complete (p ∷ ps) s = ground (arith, begins_complete ps s)

drop-append : (p s : List ℕ) → drop (length p) (p ++ s) ≡ s
drop-append [] s = refl
drop-append (p ∷ ps) s = drop-append ps s

hit_sound :
    (d : ℕ) (ds : List ℕ) (c : ℕ) (s : List ℕ)
    → hit d ds c s ≡ true
    → d ∷ ds ++ drop (length ds) s ≡ c ∷ s
unfolding hit begins
hit_sound d [] c s h = ground arith
hit_sound d (e ∷ ds) c s h = ground (arith, begins_sound (e ∷ ds) s)

module _ (d : ℕ) (ds : List ℕ) where
  hit_complete : (r : List ℕ) → hit d ds d (ds ++ r) ≡ true
  unfolding hit begins
  hit_complete r = ground (arith, begins_complete ds r)

  split_sound : (s l r : List ℕ) → split s d ds ≡ some (l, r) → l ++ (d ∷ ds ++ r) ≡ s
  unfolding split
  split_sound [] l r h = ground arith
  split_sound (c ∷ s) l r h = elim (Option-cases (split s d ds)) [
    | inl e ↦ ground (arith, hit_sound d ds c s)
    | inr ((l', r'), e) ↦ ground (arith, hit_sound d ds c s, split_sound s l' r')
  ]

  room : (l r : List ℕ) → ltb (length (l ++ (d ∷ ds ++ r))) (length ds) ≡ false
  room l r = ground (arith, length-append l (d ∷ ds ++ r), length-append ds r)

  -- Where a separator occurs, the search finds one that begins no later.
  split_complete :
      (l r : List ℕ)
      → (l' : List ℕ) × (r' : List ℕ) × (split (l ++ (d ∷ ds ++ r)) d ds ≡ some (l', r'))
        × (length l' ≤ length l)
  unfolding split
  split_complete [] r =
      ([], r, ground (arith, hit_complete r, length-append ds r, drop-append ds r), omega arith)
  split_complete (c ∷ l) r = elim (Bool-cases (hit d ds c (l ++ (d ∷ ds ++ r)))) [
    | inl e ↦ ([], drop (length ds) (l ++ (d ∷ ds ++ r)), rw (room l r, e) refl, omega arith)
    | inr e ↦
        let (l', r', found, first) = split_complete l r in
        (c ∷ l', r', rw (room l r, e, found) refl, omega arith)
  ]

  -- Wherever a separator occurs in a text, the search succeeds, the two parts around the one that
  -- it finds make up the text, and no occurrence begins earlier than that one.
  pub split_first :
      (l r : List ℕ)
      → (l' : List ℕ) × (r' : List ℕ) × (split (l ++ (d ∷ ds ++ r)) d ds ≡ some (l', r'))
        × (l' ++ (d ∷ ds ++ r') ≡ l ++ (d ∷ ds ++ r))
        × (length l' ≤ length l)
  split_first l r =
      let (l', r', found, first) = split_complete l r in
      (l', r', found, split_sound (l ++ (d ∷ ds ++ r)) l' r' found, first)

-- One byte that separates, as the callers pass it.
module _ (d : ℕ) where
  abbrev pub Apart : List ℕ → Type 0
  Apart [] = Unit
  Apart (c ∷ s) = (d ≢ c) × Apart s

  -- The items with a separator behind each, which is how the code writes lists.
  abbrev pub joined : List (List ℕ) → List ℕ
  joined [] = []
  joined (w ∷ ws) = w ++ d ∷ joined ws

  abbrev pub Items : List (List ℕ) → Type 0
  Items [] = Unit
  Items (w ∷ ws) = Apart w × Items ws

  split_item : (w r : List ℕ) → Apart w → split (w ++ d ∷ r) d [] ≡ some (w, r)
  unfolding split hit
  split_item [] r h = ground arith
  split_item (c ∷ w) r h = ground (arith, split_item w r h.1)

  split_last : (w : List ℕ) → Apart w → split w d [] ≡ none
  unfolding split hit
  split_last [] h = refl
  split_last (c ∷ w) h = ground (arith, split_last w h.1)

-- A callback run over items, as long as it returns 0.
module _ {ℓ} {S : Type ℓ} (cb : S → List ℕ → ℤ × S) where
  unfoldable pub run_items : List (List ℕ) → S → ℤ × S
  run_items [] ctx = (pos 0, ctx)
  run_items (w ∷ ws) ctx =
      let (rc, ctx') = cb ctx w in
      let rest = run_items ws ctx' in if int_eq rc (pos 0) then rest else (rc, ctx')

abbrev pub last_item : List ℕ → List (List ℕ)
last_item [] = []
last_item (c ∷ s) = (c ∷ s) ∷ []

module _ {ℓ} {S : Type ℓ} (cb : S → List ℕ → ℤ × S) (d : ℕ) where
  run_one : (w : List ℕ) (ctx : S) → run_items cb (w ∷ []) ctx ≡ cb ctx w
  unfolding run_items
  run_one w ctx = close (cb ctx w)
    where
      close :
          (p : ℤ × S) → ◌≡◌ {A = ℤ × S} (if int_eq p.0 (pos 0) then (pos 0, p.1) else (p.0, p.1)) p
      close (pos zero, s) = refl
      close (pos (suc n), s) = ground arith
      close (negsuc n, s) = refl

  append_split :
      (w : List ℕ) (ws : List (List ℕ)) (last : List ℕ)
      → joined d (w ∷ ws) ++ last ≡ w ++ d ∷ (joined d ws ++ last)
  append_split w ws last = append_assoc w (d ∷ joined d ws) last

  each_segment-Items :
      (fuel : ℕ) (ws : List (List ℕ)) (last : List ℕ) (ctx : S)
      → Items d ws
      → Apart d last
      → length ws < fuel
      → each_segment cb d [] fuel (joined d ws ++ last) ctx
        ≡ run_items cb (ws ++ last_item last) ctx
  unfolding each_segment run_items
  each_segment-Items zero ws last ctx items a h = absurd (omega arith)
  each_segment-Items (suc fuel) [] [] ctx items a h = rw (split_last d [] a, each_segment) refl
  each_segment-Items (suc fuel) [] (c ∷ s) ctx items a h =
      rw (split_last d (c ∷ s) a, each_segment) (sym (run_one (c ∷ s) ctx))
  each_segment-Items (suc fuel) (w ∷ ws) last ctx items a h =
      rw (append_split w ws last, split_item d w (joined d ws ++ last) items.0, each_segment)
        (rw (each_segment-Items fuel ws last (cb ctx w).1 items.1 a (omega arith)) refl)

  length-joined : (ws : List (List ℕ)) (last : List ℕ) → length ws ≤ length (joined d ws ++ last)
  length-joined [] last = omega arith
  length-joined (w ∷ ws) last =
      rw (append_split w ws last, length-append) (omega (arith, length-joined ws last))

  -- On items that are free of the separator byte, with a separator behind each but the last,
  -- `apk_blob_for_each_segment` calls back for each item in order and stops at the first status
  -- that is not 0; an empty last item is skipped.
  pub for_each_segment-Items :
      (ws : List (List ℕ)) (last : List ℕ) (ctx : S)
      → Items d ws
      → Apart d last
      → for_each_segment cb d [] (joined d ws ++ last) ctx ≡ run_items cb (ws ++ last_item last) ctx
  unfolding for_each_segment
  for_each_segment-Items ws last ctx items a =
      each_segment-Items (suc (length (joined d ws ++ last))) ws last ctx items a
        (omega (arith, length-joined ws last))
