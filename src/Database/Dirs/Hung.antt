-- ===== src/Database/Dirs/Hung.antt =====
-- `apk_db_dir_get` keeps the tree of directories.
use mathlib.Core.Path.{subst}
use arianna_method_anchor_pr.Prelude.{
  ℕ, zero, suc, ◌+◌, ◌-◌, ◌%◌, ◌^◌, ◌<◌, ◌≡◌, refl, sym, ap, ◌∙◌, Option, none, some, List, [], ◌∷◌,
  arith, length, length-set, Option-cases, inl, inr, Bool-cases, ◌==◌, ltb,
}
use arianna_method_anchor_pr.Blob.Slices.{hash}
use arianna_method_anchor_pr.Hash.{get_hashed}
use arianna_method_anchor_pr.Database.Keys.{get_hashed-insert_self, get_hashed-insert_kept}
use arianna_method_anchor_pr.Database.Dirs.{
  Dir, DirItem, Dirs, dir_ops, dir_ref, dir_key, dir_at, put_dir, add_dir, settle_dir, stripped,
  parent_name, hang, get_loop, dir_get,
}
use arianna_method_anchor_pr.Database.Dirs.Ends.{
  length-stripped, length-parent_name, get_loop_old, get_loop_new,
}
use arianna_method_anchor_pr.Database.Dirs.Tree.{
  IsParent, IsHung, IsFiled, Grows, Found, IsTree, out-IsHung, dir_at-put_dir, field-put_dir,
  name_of, parent_of, put_dir-IsFiled, IsParent-more, dir_ref-Found, get_or-append, get_or-last,
  new_dir, length-add_dir, dir_key_whole, add_dir-IsFiled,
}

Grows-refl : (db : Dirs) → IsFiled db → db.count < 2 ^ 32 → Grows db db
Grows-refl db v c = record {
  longer = omega arith;
  names = λ i less. refl;
  parents = λ i less. refl;
  hung = λ i more less. absurd (omega arith);
  is_filed = v;
  finds = λ key hash x found. found;
  counts = omega arith;
}

IsHung-at :
    (db : Dirs) (i : ℕ) (d : Dir) → dir_at db i ≡ d → IsParent db d.name d.parent → IsHung db i
IsHung-at db i d e h = subst (λ (x : Dir). IsParent db x.name x.parent) (sym e) h

pub retold :
    (db : Dirs) (s t : List ℕ)
    → s ≡ t
    → (o p : Option ℕ) → o ≡ p
    → IsParent db t p
    → IsParent db s o
retold db s t e o p f h =
    subst (λ (x : List ℕ). IsParent db x o) (sym e)
      (subst (λ (x : Option ℕ). IsParent db t x) (sym f) h)

-- The new directory gets its parent `o` in memory that has grown meanwhile.
module _ (db : Dirs) (t : List ℕ) (h : ℕ) (mid : Dirs) (o : Option ℕ) (d : Dir) where
  put-Grows :
      db.count < 2 ^ 32
      → length t < 2 ^ 16
      → IsFiled db
      → get_hashed dir_ops db.table t h ≡ none
      → Grows (add_dir db t h) mid
      → IsParent mid t o
      → d.name ≡ (dir_at mid (length db.dirs)).name
      → d.parent ≡ o
      → let new = put_dir mid (length db.dirs) d in
        Grows db new
        × (length db.dirs < length new.dirs)
        × ((dir_at new (length db.dirs)).name ≡ t)
        × (get_hashed dir_ops new.table t h
            ≡ some (record { node = length db.dirs; text = dir_key t }))
  unfolding add_dir
  put-Grows c short v missing g parent n q =
      let i = length db.dirs in
      let new = put_dir mid i d in
      let item : DirItem = record { node = i; text = dir_key t } in
      let whole = dir_key_whole t short in
      let size = length-set mid.dirs i d in
      let grown = length-add_dir db t h in
      let longer = g.longer in
      let counts = g.counts in
      let place : i < length mid.dirs = omega arith in
      let here = g.names i (omega arith) ∙ ap name_of (get_or-last db.dirs (new_dir t h)) in
      let names = λ (j : ℕ). field-put_dir name_of mid i j d place n in
      let more = IsParent-more mid new t o (omega arith) (λ j less. names j) in
      (
        record {
          longer = omega arith;
          names = λ j less.
              names j
              ∙ g.names j (omega arith)
              ∙ ap name_of (get_or-append db.dirs (new_dir t h) j less);
          parents = λ j less.
              ap parent_of ((dir_at-put_dir mid i j d place).1 (λ e. absurd (omega arith)))
              ∙ g.parents j (omega arith)
              ∙ ap parent_of (get_or-append db.dirs (new_dir t h) j less);
          hung = λ j above less. elim (Bool-cases (i == j)) [
            | inl y ↦
                let same : i ≡ j = ground arith in
                IsHung-at new j d ((dir_at-put_dir mid i j d place).0 same)
                  (retold new d.name t (n ∙ here) d.parent o q (more parent))
            | inr apart ↦
                IsHung-at new j (dir_at mid j)
                  ((dir_at-put_dir mid i j d place).1 (λ e. ground arith))
                  (IsParent-more mid new (dir_at mid j).name (dir_at mid j).parent (omega arith)
                    (λ k l. names k) (g.hung j (ground arith) (omega arith)))
          ];
          is_filed = put_dir-IsFiled mid i d place n g.is_filed;
          finds = λ key k x found. g.finds key k x (
              get_hashed-insert_kept (λ (d : DirItem). d.text) hash db.table v.some_buckets item h k
                key x (rw whole missing) found);
          counts = omega arith;
        },
        omega arith,
        names i ∙ here,
        g.finds t h item (
            subst (λ (k : List ℕ). get_hashed dir_ops (add_dir db t h).table k h ≡ some item) whole
              (get_hashed-insert_self (λ (d : DirItem). d.text) hash db.table v.some_buckets item
                h)),
      )

-- A new directory, where `get` finds the parents.
hang-Found :
    (get : Dirs → List ℕ → ℕ × Dirs) (db : Dirs) (t : List ℕ) (h : ℕ)
    → IsFiled db
    → db.count < 2 ^ 32
    → length t < 2 ^ 16
    → get_hashed dir_ops db.table t h ≡ none
    → ((db : Dirs) (s : List ℕ)
        → length s < length t
        → IsFiled db
        → db.count < 2 ^ 32
        → Found db s (get db s))
    → let new = hang get (add_dir db t h) (length db.dirs) t in
      Grows db new
      × (length db.dirs < length new.dirs)
      × ((dir_at new (length db.dirs)).name ≡ t)
      × (get_hashed dir_ops new.table t h
          ≡ some (record { node = length db.dirs; text = dir_key t }))
unfolding hang settle_dir add_dir
hang-Found get db [] h v c short missing ih =
    let db' = add_dir db [] h in
    put-Grows db [] h db' none _ c short v missing
      (Grows-refl db' (add_dir-IsFiled db [] h short v) (omega arith)) tt refl refl
hang-Found get db (x ∷ s) h v c short missing ih =
    let db' = add_dir db (x ∷ s) h in
    let (p, mid) = get db' (parent_name (x ∷ s)) in
    let (g, place, name, _, _, _) =
      ih db' (parent_name (x ∷ s)) (length-parent_name x s) (add_dir-IsFiled db (x ∷ s) h short v)
        (omega arith) in
    put-Grows db (x ∷ s) h mid (some p) _ c short v missing g (place, name) refl refl

get_loop-Found :
    (fuel : ℕ) (db : Dirs) (s : List ℕ)
    → length s < fuel
    → length s < 2 ^ 16
    → IsFiled db
    → db.count < 2 ^ 32
    → Found db s (get_loop fuel db s)
get_loop-Found zero db s f short v c = absurd (omega arith)
get_loop-Found (suc fuel) db s f short v c =
    let l = length-stripped s in
    elim (Option-cases (get_hashed dir_ops db.table (stripped s) (hash s))) [
      | inl missing ↦ rw (get_loop_new fuel db s missing) (
          let (g, place, name, found) =
            hang-Found (get_loop fuel) db (stripped s) (hash s) v c (omega arith) missing
              (λ db' t m. get_loop-Found fuel db' t (omega arith) (omega arith)) in
          (g, place, name, _, found, refl))
      | inr (d, found) ↦ rw (get_loop_old fuel db s d found) (dir_ref-Found db s d v c found)
    ]

-- `apk_db_dir_get` of a name of less than 64 KiB, on a table that finds directories by their names,
-- returns a directory whose name is the given one without a slash at its end; the table finds it then,
-- and all that it found before; all earlier directories keep their place, their name
-- and their parent, each new one hangs on the directory that its name stands in, the root on none,
-- and `stats.dirs` goes up by the number of the new ones.
pub dir_get-Found :
    (db : Dirs) (s : List ℕ)
    → length s < 2 ^ 16
    → IsFiled db
    → db.count < 2 ^ 32
    → Found db s (dir_get db s)
unfolding dir_get
dir_get-Found db s short v c = get_loop-Found (suc (length s)) db s (omega arith) short v c

-- A call that finds the directory takes a reference to it.
dir_get_found :
    (db : Dirs) (s : List ℕ) (d : DirItem)
    → get_hashed dir_ops db.table (stripped s) (hash s) ≡ some d
    → dir_get db s ≡ (d.node, dir_ref db d.node)
unfolding dir_get
dir_get_found db s d h = get_loop_old (length s) db s d h

-- `apk_db_dir_get` of a name of less than 64 KiB, on a tree of directories and a table that finds
-- nothing but directories by their names, returns a directory whose name is the given one without a
-- slash at its end, and leaves such a tree and such a table. The same call then finds this directory
-- and does no more than take a reference to it. `stats.dirs`, below 2^32 before, goes up by the number
-- of the new directories, modulo 2^32.
pub dir_get-IsTree :
    (db : Dirs) (s : List ℕ)
    → length s < 2 ^ 16
    → IsFiled db
    → IsTree db
    → db.count < 2 ^ 32
    → let (i, new) = dir_get db s in
      IsTree new
      × IsFiled new
      × ((dir_at new i).name ≡ stripped s)
      × (dir_get new s ≡ (i, dir_ref new i))
      × (new.count ≡ (db.count + (length new.dirs - length db.dirs)) % 2 ^ 32)
dir_get-IsTree db s short v tree c =
    let (g, place, name, d, found, node) = dir_get-Found db s short v c in
    let new = (dir_get db s).1 in
    (
      (λ j. elim (Bool-cases (ltb j (length db.dirs))) [
        | inl y ↦
            let less : j < length db.dirs = ground arith in
            retold new (dir_at new j).name (dir_at db j).name (g.names j less) (dir_at new j).parent
              (dir_at db j).parent (g.parents j less)
              (IsParent-more db new (dir_at db j).name (dir_at db j).parent g.longer g.names
                (tree j))
        | inr n ↦ elim (Bool-cases (ltb j (length new.dirs))) [
          | inl y ↦ g.hung j (ground arith) (ground arith)
          | inr out ↦ out-IsHung new j (ground arith)
        ]
      ]),
      g.is_filed,
      name,
      dir_get_found new s d found ∙ ap (λ (k : ℕ). (k, dir_ref new k)) node,
      g.counts,
    )
