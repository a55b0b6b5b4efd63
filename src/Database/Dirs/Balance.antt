-- ===== src/Database/Dirs/Balance.antt =====
-- References to directories are given back as they were taken.
use arianna_method_anchor_pr.Prelude.{
  ℕ, suc, ◌+◌, ◌-◌, ◌%◌, ◌^◌, ◌<◌, ◌≡◌, ◌≢◌, refl, sym, zero, Bool, Option, some, List, [], ◌∷◌,
  ◌++◌, arith, length, get_or-set_self, get_or-set_ne, length-set, set-set, set-get_or, ap, ◌∙◌,
  if◌then◌else◌,
}
use arianna_method_anchor_pr.Blob.Slices.{hash}
use arianna_method_anchor_pr.Hash.{get_hashed}
use arianna_method_anchor_pr.Database.Dirs.{
  Dir, DirItem, Dirs, dir_ops, no_dir, dir_at, put_dir, dir_ref, dir_unref, unref_loop, unref_to,
  unref_parent, lowered, gone, stripped, dir_get, get_loop,
}

-- A call that finds the directory takes a reference to it.
dir_get_found :
    (db : Dirs) (s : List ℕ) (d : DirItem)
    → get_hashed dir_ops db.table (stripped s) (hash s) ≡ some d
    → dir_get db s ≡ (d.node, dir_ref db d.node)
unfolding dir_get get_loop
dir_get_found db s d h = ground (arith, h)

-- One step of `apk_db_dir_unref` for a directory to which other references are left.
unref_live :
    (fuel : ℕ) (b : Bool) (db : Dirs) (i n : ℕ)
    → n < 2 ^ 16 - 1
    → (dir_at db i).refs ≡ suc (suc n)
    → unref_loop (suc fuel) b db i ≡ put_dir db i (record (dir_at db i) { refs = suc n })
unfolding unref_loop unref_to lowered
unref_live fuel b db i n h e =
    let less : lowered (dir_at db i).refs ≡ suc n = omega (arith, e) in
    ap (λ (k : ℕ). unref_to (unref_loop fuel b) b db i k) less

-- `unref_loop` on the database after `dir_ref`, for a directory that had `n` references: what it does
-- to the directory is undone.
refs-dir_ref :
    (db : Dirs) (i : ℕ)
    → i < length db.dirs
    → dir_at (dir_ref db i) i ≡ record (dir_at db i) { refs = ((dir_at db i).refs + 1) % 2 ^ 16 }
unfolding dir_ref
refs-dir_ref db i h = get_or-set_self db.dirs i _ no_dir h

put-dir_ref : (db : Dirs) (i : ℕ) (d : Dir) → d ≡ dir_at db i → put_dir (dir_ref db i) i d ≡ db
unfolding dir_ref
put-dir_ref db i d e = rw e (
    ap (λ (l : List Dir). record db { dirs = l })
      (set-set db.dirs i _ (dir_at db i) ∙ set-get_or db.dirs i no_dir))

undo-dir_ref :
    (db : Dirs) (i m n : ℕ) (b : Bool)
    → i < length db.dirs
    → (dir_at db i).refs ≡ suc n
    → suc n < 2 ^ 16 - 1
    → unref_loop (suc m) b (dir_ref db i) i ≡ db
undo-dir_ref db i m n b place e small =
    let taken = refs-dir_ref db i place in
    let one_more : ((dir_at db i).refs + 1) % 2 ^ 16 ≡ suc (suc n) = omega arith in
    unref_live m b (dir_ref db i) i n (omega arith) (ap (λ (d : Dir). d.refs) taken ∙ one_more)
    ∙ put-dir_ref db i (record (dir_at (dir_ref db i) i) { refs = suc n })
        (ap (λ (d : Dir). record d { refs = suc n }) taken
          ∙ ap (λ (k : ℕ). record (dir_at db i) { refs = k }) (sym e))

-- `apk_db_dir_get` of a directory in the table that has references left, but fewer than 2^16 - 1,
-- followed by `apk_db_dir_unref` of what it returns, leaves the database as it was, whether empty
-- directories may be removed or not.
pub unref-dir_get :
    (db : Dirs) (s : List ℕ) (d : DirItem) (b : Bool)
    → get_hashed dir_ops db.table (stripped s) (hash s) ≡ some d
    → d.node < length db.dirs
    → 0 < (dir_at db d.node).refs
    → (dir_at db d.node).refs < 2 ^ 16 - 1
    → let (i, db') = dir_get db s in dir_unref b db' i ≡ db
unfolding dir_unref
unref-dir_get db s d b found place live small =
    let i = d.node in
    let n = (dir_at db i).refs - 1 in
    rw (dir_get_found db s d found) (
      undo-dir_ref db i (length (dir_at (dir_ref db i) i).name) n b place (omega arith)
        (omega arith))

-- The database without the last reference to a directory that is `d`.
abbrev left : Bool → Dirs → ℕ → Dir → Dirs
left b db i d = record (put_dir db i (record d { refs = 0 })) {
  count = (db.count + (2 ^ 32 - 1)) % 2 ^ 32;
  unlinked = if b then db.unlinked ++ d.name ∷ [] else db.unlinked;
}

unref_last :
    (fuel : ℕ) (b : Bool) (db : Dirs) (i : ℕ) (d : Dir)
    → dir_at db i ≡ d
    → d.refs ≡ 1
    → unref_loop (suc fuel) b db i ≡ unref_parent (unref_loop fuel b) d.parent (left b db i d)
unfolding unref_loop unref_to lowered gone
unref_last fuel b db i d e one =
    let refs : (dir_at db i).refs ≡ 1 = ap (λ (x : Dir). x.refs) e ∙ one in
    let less : lowered (dir_at db i).refs ≡ 0 = omega (arith, refs) in
    ap (λ (k : ℕ). unref_to (unref_loop fuel b) b db i k) less
    ∙ ap (λ (x : Dir). unref_parent (unref_loop fuel b) x.parent (left b db i x)) e

left-dir_ref : (db : Dirs) (i : ℕ) (b : Bool) (d : Dir) → left b (dir_ref db i) i d ≡ left b db i d
unfolding dir_ref
left-dir_ref db i b d =
    ap (λ (l : List Dir). record (left b db i d) { dirs = l }) (set-set db.dirs i _ _)

unref_dead :
    (db : Dirs) (i : ℕ) (b : Bool)
    → i < length db.dirs
    → (dir_at db i).refs ≡ 0
    → dir_unref b (dir_ref db i) i
      ≡ unref_parent
          (unref_loop (length (dir_at db i).name) b)
          (dir_at db i).parent
          (left b db i (dir_at db i))
unfolding dir_unref
unref_dead db i b place dead =
    let had = dir_at db i in
    let taken : Dir = record had { refs = (had.refs + 1) % 2 ^ 16 } in
    let up = unref_loop (length had.name) b in
    ap (λ (d : Dir). unref_loop (suc (length d.name)) b (dir_ref db i) i) (refs-dir_ref db i place)
    ∙ unref_last (length had.name) b (dir_ref db i) i taken (refs-dir_ref db i place)
        (omega (arith, dead))
    ∙ ap (unref_parent up had.parent) (left-dir_ref db i b taken)

-- What giving back a reference to `p` does, which others are left to.
drop_one :
    (fuel n : ℕ) (b : Bool) (db : Dirs) (p : ℕ)
    → 0 < fuel
    → p < length db.dirs
    → (dir_at db p).refs ≡ suc (suc n)
    → suc n < 2 ^ 16 - 1
    → let new = unref_loop fuel b db p in
      (new.count ≡ db.count) × ((dir_at new p).refs ≡ suc n) × (new.unlinked ≡ db.unlinked)
drop_one zero n b db p f h e small = absurd (omega arith)
drop_one (suc m) n b db p f h e small =
    rw (unref_live m b db p n (omega arith) e)
      (refl, ap (λ (d : Dir). d.refs) (get_or-set_self db.dirs p _ no_dir h), refl)

-- A directory of a name that is not empty may stay in the table without references. `apk_db_dir_get`
-- of it changes neither `stats.dirs` nor the references to its parent. `apk_db_dir_unref` of what that
-- returns then lowers `stats.dirs` by one, modulo 2^32, and the references to the parent by one, if
-- others are left to it, and, where empty directories may be removed, passes the name to `unlinkat`.
pub unref_again :
    (db : Dirs) (s : List ℕ) (d : DirItem) (b : Bool) (p : ℕ)
    → get_hashed dir_ops db.table (stripped s) (hash s) ≡ some d
    → d.node < length db.dirs
    → (dir_at db d.node).refs ≡ 0
    → 0 < length (dir_at db d.node).name
    → (dir_at db d.node).parent ≡ some p
    → p < length db.dirs
    → 1 < (dir_at db p).refs
    → (dir_at db p).refs < 2 ^ 16
    → let (i, db') = dir_get db s in
      let new = dir_unref b db' i in
      (db'.count ≡ db.count)
      × ((dir_at db' p).refs ≡ (dir_at db p).refs)
      × (new.count ≡ (db.count + (2 ^ 32 - 1)) % 2 ^ 32)
      × ((dir_at new p).refs + 1 ≡ (dir_at db p).refs)
      × (new.unlinked ≡ (if b then db.unlinked ++ (dir_at db i).name ∷ [] else db.unlinked))
unfolding dir_ref
unref_again db s d b p found place dead named parent above live small =
    let i = d.node in
    let had = dir_at db i in
    let n = (dir_at db p).refs - 2 in
    let gone_db = left b db i had in
    let apart : i ≢ p = λ e. absurd (omega (arith, ap (λ (k : ℕ). (dir_at db k).refs) e)) in
    let same : dir_at gone_db p ≡ dir_at db p = get_or-set_ne db.dirs i p _ no_dir apart in
    let two : (dir_at gone_db p).refs ≡ suc (suc n) =
      omega (arith, ap (λ (x : Dir). x.refs) same) in
    let room : p < length gone_db.dirs = rw length-set above in
    let (c, r, u) = drop_one (length had.name) n b gone_db p named room two (omega arith) in
    let e =
      unref_dead db i b place dead
      ∙ ap (λ (o : Option ℕ). unref_parent (unref_loop (length had.name) b) o gone_db) parent in
    rw (dir_get_found db s d found) (
      refl,
      ap (λ (x : Dir). x.refs) (get_or-set_ne db.dirs i p _ no_dir apart),
      ap (λ (x : Dirs). x.count) e ∙ c,
      omega (arith, r, ap (λ (x : Dirs). (dir_at x p).refs) e),
      ap (λ (x : Dirs). x.unlinked) e ∙ u,
    )
