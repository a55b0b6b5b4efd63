-- ===== src/Database/Dirs/Release.antt =====
-- `apk_db_dir_unref` on a tree of directories comes to an end.
use mathlib.Core.Path.{subst}
use arianna_method_anchor_pr.Prelude.{
  ℕ, zero, suc, ◌+◌, ◌<◌, ◌≡◌, refl, ap, Bool, Option, none, some, List, [], ◌∷◌, arith, length,
  length-set,
}
use arianna_method_anchor_pr.Database.Dirs.{
  Dir, Dirs, dir_at, dir_unref, unref_loop, unref_to, unref_parent, gone, lowered, parent_name,
}
use arianna_method_anchor_pr.Database.Dirs.Ends.{length-stripped, length-parent_name}
use arianna_method_anchor_pr.Database.Dirs.Tree.{
  IsParent, IsTree, IsParent-more, field-put_dir, name_of, parent_of,
}
use arianna_method_anchor_pr.Database.Dirs.Hung.{retold}

-- A parent is in memory and has a shorter name.
parent_shorter :
    (db : Dirs) (s : List ℕ) (p : ℕ)
    → IsParent db s (some p)
    → (p < length db.dirs) × (length (dir_at db p).name < length s)
parent_shorter db [] p h = absurd h
parent_shorter db (c ∷ s) p (l, e) =
    let a = length-stripped (parent_name (c ∷ s)) in
    let b = length-parent_name c s in (l, omega (arith, ap (λ (t : List ℕ). length t) e))

gone-IsTree : (b : Bool) (db : Dirs) (i : ℕ) → i < length db.dirs → IsTree db → IsTree (gone b db i)
unfolding gone
gone-IsTree b db i h tree j =
    let d : Dir = record (dir_at db i) { refs = 0 } in
    let new = gone b db i in
    let names = λ (k : ℕ). field-put_dir name_of db i k d h refl in
    retold new (dir_at new j).name (dir_at db j).name (names j) (dir_at new j).parent
      (dir_at db j).parent (field-put_dir parent_of db i j d h refl)
      (IsParent-more db new (dir_at db j).name (dir_at db j).parent
        (omega (arith, length-set db.dirs i d)) (λ k l. names k) (tree j))

-- The call for the parent, where the calls `up` and `other` agree on it.
unref_parent_any :
    (up other : Dirs → ℕ → Dirs) (db : Dirs) (o : Option ℕ)
    → ((p : ℕ) → o ≡ some p → up db p ≡ other db p)
    → unref_parent up o db ≡ unref_parent other o db
unref_parent_any up other db none same = refl
unref_parent_any up other db (some p) same = same p refl

unref_to_any :
    (up other : Dirs → ℕ → Dirs) (b : Bool) (db : Dirs) (i n : ℕ)
    → ((p : ℕ) → (dir_at db i).parent ≡ some p → up (gone b db i) p ≡ other (gone b db i) p)
    → unref_to up b db i n ≡ unref_to other b db i n
unfolding unref_to
unref_to_any up other b db i (suc n) same = refl
unref_to_any up other b db i zero same =
    unref_parent_any up other (gone b db i) (dir_at db i).parent same

unref_any :
    (f g : ℕ) (b : Bool) (db : Dirs) (i : ℕ)
    → IsTree db
    → i < length db.dirs
    → length (dir_at db i).name < f
    → length (dir_at db i).name < g
    → unref_loop f b db i ≡ unref_loop g b db i
unfolding unref_loop gone
unref_any zero g b db i tree h k l = absurd (omega arith)
unref_any (suc f) zero b db i tree h k l = absurd (omega arith)
unref_any (suc f) (suc g) b db i tree h k l =
    unref_to_any (unref_loop f b) (unref_loop g b) b db i (lowered (dir_at db i).refs) (λ p e.
      let d : Dir = record (dir_at db i) { refs = 0 } in
      let hung = subst (λ (o : Option ℕ). IsParent db (dir_at db i).name o) e (tree i) in
      let (place, shorter) = parent_shorter db (dir_at db i).name p hung in
      let same = ap (λ (t : List ℕ). length t) (field-put_dir name_of db i p d h refl) in
      let size = length-set db.dirs i d in
      unref_any f g b (gone b db i) p (gone-IsTree b db i h tree) (omega arith) (omega arith)
        (omega arith))

-- In a tree of directories `apk_db_dir_unref` comes to an end: more fuel changes nothing.
pub dir_unref_ends :
    (b : Bool) (db : Dirs) (i extra : ℕ)
    → IsTree db
    → i < length db.dirs
    → unref_loop (suc (length (dir_at db i).name) + extra) b db i ≡ dir_unref b db i
unfolding dir_unref
dir_unref_ends b db i extra tree h =
    unref_any (suc (length (dir_at db i).name) + extra) (suc (length (dir_at db i).name)) b db i
      tree h (omega arith) (omega arith)
