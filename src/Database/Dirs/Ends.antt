-- ===== src/Database/Dirs/Ends.antt =====
-- The calls for parent directories come to an end.
use arianna_method_anchor_pr.Prelude.{
  ℕ, zero, suc, ◌+◌, ◌<◌, ◌≤◌, ◌≡◌, refl, ap, none, some, List, [], ◌∷◌, arith, length, but_last_of,
  Option-cases, inl, inr,
}
use arianna_method_anchor_pr.Blob.Slices.{rsplit, hash}
use arianna_method_anchor_pr.Hash.{get_hashed}
use arianna_method_anchor_pr.Database.Dirs.{
  DirItem, Dirs, dir_ops, dir_ref, add_dir, settle_dir, stripped, parent_name, hang, get_loop,
  dir_get,
}

length-but_last : (c : ℕ) (s : List ℕ) → length (but_last_of c s) ≡ length s
unfolding but_last_of
length-but_last c [] = refl
length-but_last c (d ∷ s) = ap suc (length-but_last d s)

pub length-stripped : (s : List ℕ) → length (stripped s) ≤ length s
unfolding stripped
length-stripped [] = ground arith
length-stripped (c ∷ s) = ground (arith, length-but_last c s)

length-rsplit : (s : List ℕ) (d : ℕ) (l r : List ℕ) → rsplit s d ≡ some (l, r) → length l < length s
unfolding rsplit
length-rsplit [] d l r h = ground arith
length-rsplit (c ∷ s) d l r h = elim (Option-cases (rsplit s d)) [
  | inl e ↦ ground arith
  | inr ((l', r'), e) ↦ ground (arith, length-rsplit s d l' r' e)
]

pub length-parent_name : (c : ℕ) (s : List ℕ) → length (parent_name (c ∷ s)) < length (c ∷ s)
unfolding parent_name
length-parent_name c s = elim (Option-cases (rsplit (c ∷ s) b'/')) [
  | inl e ↦ ground arith
  | inr ((l, r), e) ↦ ground (arith, length-rsplit (c ∷ s) b'/' l r e)
]

hang_any :
    (get other : Dirs → List ℕ → ℕ × Dirs) (n : ℕ) (db : Dirs) (i : ℕ) (s : List ℕ)
    → length s ≤ n
    → ((db : Dirs) (t : List ℕ) → length t < n → get db t ≡ other db t)
    → hang get db i s ≡ hang other db i s
unfolding hang
hang_any get other n db i [] h same = refl
hang_any get other n db i (c ∷ s) h same =
    let l = length-parent_name c s in
    ap (λ (r : ℕ × Dirs). settle_dir r.1 i (some r.0)) (same db (parent_name (c ∷ s)) (omega arith))

-- The two ways of a call.
pub get_loop_old :
    (fuel : ℕ) (db : Dirs) (s : List ℕ) (d : DirItem)
    → get_hashed dir_ops db.table (stripped s) (hash s) ≡ some d
    → get_loop (suc fuel) db s ≡ (d.node, dir_ref db d.node)
unfolding get_loop
get_loop_old fuel db s d h = ground (arith, h)

pub get_loop_new :
    (fuel : ℕ) (db : Dirs) (s : List ℕ)
    → get_hashed dir_ops db.table (stripped s) (hash s) ≡ none
    → get_loop (suc fuel) db s ≡ (
      length db.dirs,
      hang (get_loop fuel) (add_dir db (stripped s) (hash s)) (length db.dirs) (stripped s),
    )
unfolding get_loop
get_loop_new fuel db s h = ground (arith, h)

-- Any two fuels above the length of the name give the same.
get_loop_any :
    (f g : ℕ) (db : Dirs) (s : List ℕ)
    → length s < f
    → length s < g
    → get_loop f db s ≡ get_loop g db s
get_loop_any zero g db s h k = absurd (omega arith)
get_loop_any (suc f) zero db s h k = absurd (omega arith)
get_loop_any (suc f) (suc g) db s h k =
    elim (Option-cases (get_hashed dir_ops db.table (stripped s) (hash s))) [
      | inl missing ↦
          let l = length-stripped s in
          let db' = add_dir db (stripped s) (hash s) in
          rw (get_loop_new f db s missing, get_loop_new g db s missing)
            (ap (λ (r : Dirs). (length db.dirs, r))
              (hang_any (get_loop f) (get_loop g) (length s) db' (length db.dirs) (stripped s) l
                (λ db t m. get_loop_any f g db t (omega arith) (omega arith))))
      | inr (d, found) ↦ rw (get_loop_old f db s d found, get_loop_old g db s d found) refl
    ]

-- The calls of `apk_db_dir_get` for the parents come to an end: more fuel changes nothing.
pub dir_get_ends :
    (db : Dirs) (s : List ℕ) (extra : ℕ) → get_loop (suc (length s) + extra) db s ≡ dir_get db s
unfolding dir_get
dir_get_ends db s extra =
    get_loop_any (suc (length s) + extra) (suc (length s)) db s (omega arith) (omega arith)
