-- ===== src/Database/Dirs/Tree.antt =====
-- Each directory hangs on the directory that its name stands in.
use arianna_method_anchor_pr.Prelude.{
  ℕ, zero, suc, ◌+◌, ◌-◌, ◌%◌, ◌^◌, ◌<◌, ◌≤◌, ◌≡◌, ◌≢◌, refl, sym, ap, ◌∙◌, Option, none, some,
  List, [], ◌∷◌, ◌++◌, arith, length, take, get_or, length-append, length-set, get_or-set_self,
  get_or-set_ne, inl, inr, Bool-cases, ◌==◌,
}
use arianna_method_anchor_pr.Blob.Slices.{hash}
use arianna_method_anchor_pr.Hash.{get_hashed, insert_hashed}
use arianna_method_anchor_pr.Database.Keys.{get_hashed-insert_either}
use arianna_method_anchor_pr.Database.Dirs.{
  Dir, DirItem, Dirs, dir_ops, no_dir, dir_at, put_dir, dir_ref, dir_key, add_dir, stripped,
  parent_name,
}

-- The parent that a directory with the name has to have.
abbrev pub IsParent : Dirs → List ℕ → Option ℕ → Type 0
IsParent db [] none = Unit {0}
IsParent db [] (some p) = ⊥
IsParent db (c ∷ s) none = ⊥
IsParent db (c ∷ s) (some p) =
    (p < length db.dirs) × ((dir_at db p).name ≡ stripped (parent_name (c ∷ s)))

abbrev pub IsHung : Dirs → ℕ → Type 0
IsHung db i = IsParent db (dir_at db i).name (dir_at db i).parent

-- Whatever the table finds under any hash is a directory in memory with that name.
pub record IsFiled (db : Dirs) : Type 0 where
  pub some_buckets : 0 < length db.table.buckets
  pub filed :
      (key : List ℕ) (hash : ℕ) (d : DirItem)
      → get_hashed dir_ops db.table key hash ≡ some d
      → (d.node < length db.dirs) × ((dir_at db d.node).name ≡ key)

-- No directory moves: memory only grows, with directories that hang where they should, and the table
-- finds all that it found before.
pub record Grows (db new : Dirs) : Type 0 where
  pub longer : length db.dirs ≤ length new.dirs
  pub names : (i : ℕ) → i < length db.dirs → (dir_at new i).name ≡ (dir_at db i).name
  pub parents : (i : ℕ) → i < length db.dirs → (dir_at new i).parent ≡ (dir_at db i).parent
  pub hung : (i : ℕ) → length db.dirs ≤ i → i < length new.dirs → IsHung new i
  pub is_filed : IsFiled new
  pub finds :
      (key : List ℕ) (hash : ℕ) (d : DirItem)
      → get_hashed dir_ops db.table key hash ≡ some d
      → get_hashed dir_ops new.table key hash ≡ some d
  pub counts : new.count ≡ (db.count + (length new.dirs - length db.dirs)) % 2 ^ 32

-- Replacing a directory by one with the same name keeps all names.
pub dir_at-put_dir :
    (db : Dirs) (i j : ℕ) (d : Dir)
    → i < length db.dirs
    → (i ≡ j → dir_at (put_dir db i d) j ≡ d) × (i ≢ j → dir_at (put_dir db i d) j ≡ dir_at db j)
dir_at-put_dir db i j d h = (
  (λ e. rw (← e) (get_or-set_self db.dirs i d no_dir h)),
  (λ ne. get_or-set_ne db.dirs i j d no_dir ne),
)

pub field-put_dir :
    {B : Type 0} (f : Dir → B) (db : Dirs) (i j : ℕ) (d : Dir)
    → i < length db.dirs
    → f d ≡ f (dir_at db i)
    → f (dir_at (put_dir db i d) j) ≡ f (dir_at db j)
field-put_dir f db i j d h e =
    let (here, there) = dir_at-put_dir db i j d h in
    elim (Bool-cases (i == j)) [
      | inl y ↦
          let same : i ≡ j = ground arith in
          ap f (here same) ∙ e ∙ ap (λ (k : ℕ). f (dir_at db k)) same
      | inr n ↦ ap f (there (λ p. ground arith))
    ]

abbrev pub name_of : Dir → List ℕ
name_of d = d.name

abbrev pub parent_of : Dir → Option ℕ
parent_of d = d.parent

pub put_dir-IsFiled :
    (db : Dirs) (i : ℕ) (d : Dir)
    → i < length db.dirs
    → d.name ≡ (dir_at db i).name
    → IsFiled db
    → IsFiled (put_dir db i d)
put_dir-IsFiled db i d h e v = record {
  some_buckets = v.some_buckets;
  filed = λ key hash x found.
      let (l, n) = v.filed key hash x found in
      (rw length-set l, field-put_dir name_of db i x.node d h e ∙ n);
}

pub IsParent-more :
    (db new : Dirs) (s : List ℕ) (o : Option ℕ)
    → length db.dirs ≤ length new.dirs
    → ((i : ℕ) → i < length db.dirs → (dir_at new i).name ≡ (dir_at db i).name)
    → IsParent db s o
    → IsParent new s o
IsParent-more db new [] none l same h = tt
IsParent-more db new (c ∷ s) (some p) l same h = (omega (arith, h), same p h.0 ∙ h.1)
IsParent-more db new [] (some p) l same h = h
IsParent-more db new (c ∷ s) none l same h = h

-- What a call returns: a directory with the name, in memory that has grown, and found by the table.
abbrev pub Found : Dirs → List ℕ → ℕ × Dirs → Type 0
Found db s (i, new) =
    Grows db new
    × (i < length new.dirs)
    × ((dir_at new i).name ≡ stripped s)
    × (d : DirItem) × (get_hashed dir_ops new.table (stripped s) (hash s) ≡ some d)
    × (d.node ≡ i)

pub dir_ref-Found :
    (db : Dirs) (s : List ℕ) (d : DirItem)
    → IsFiled db
    → db.count < 2 ^ 32
    → get_hashed dir_ops db.table (stripped s) (hash s) ≡ some d
    → Found db s (d.node, dir_ref db d.node)
unfolding dir_ref
dir_ref-Found db s d v c h =
    let (l, n) = v.filed (stripped s) (hash s) d h in
    let new : Dir = record (dir_at db d.node) { refs = ((dir_at db d.node).refs + 1) % 2 ^ 16 } in
    let e = length-set db.dirs d.node new in
    (
      record {
        longer = omega (arith, e);
        names = λ i less. field-put_dir name_of db d.node i new l refl;
        parents = λ i less. field-put_dir parent_of db d.node i new l refl;
        hung = λ i more less. absurd (omega (arith, e));
        is_filed = put_dir-IsFiled db d.node new l refl v;
        finds = λ key k x found. found;
        counts = omega (arith, e);
      },
      omega (arith, e),
      field-put_dir name_of db d.node d.node new l refl ∙ n,
      d,
      h,
      refl,
    )

pub get_or-append :
    (xs : List Dir) (x : Dir) (i : ℕ)
    → i < length xs
    → get_or (xs ++ x ∷ []) i no_dir ≡ get_or xs i no_dir
get_or-append [] x i h = absurd (omega arith)
get_or-append (y ∷ xs) x zero h = refl
get_or-append (y ∷ xs) x (suc i) h = get_or-append xs x i (omega arith)

pub get_or-last : (xs : List Dir) (x : Dir) → get_or (xs ++ x ∷ []) (length xs) no_dir ≡ x
get_or-last [] x = refl
get_or-last (y ∷ xs) x = get_or-last xs x

abbrev pub new_dir : List ℕ → ℕ → Dir
new_dir name hash = record { parent = none; refs = 1; flags = 0; name = name; hash = hash }

pub length-add_dir :
    (db : Dirs) (s : List ℕ) (h : ℕ) → length (add_dir db s h).dirs ≡ length db.dirs + 1
unfolding add_dir
length-add_dir db s h = length-append db.dirs (new_dir s h ∷ [])

take-length : (s : List ℕ) → take (length s) s ≡ s
take-length [] = refl
take-length (c ∷ s) = ap (λ l. c ∷ l) (take-length s)

-- The key of a name of less than 64 KiB is the whole name.
pub dir_key_whole : (s : List ℕ) → length s < 2 ^ 16 → dir_key s ≡ s
dir_key_whole s h =
    let e : length s % 2 ^ 16 ≡ length s = omega arith in ap (λ n. take n s) e ∙ take-length s

pub add_dir-IsFiled :
    (db : Dirs) (s : List ℕ) (h : ℕ) → length s < 2 ^ 16 → IsFiled db → IsFiled (add_dir db s h)
unfolding add_dir insert_hashed
add_dir-IsFiled db s h short v =
    let e = length-add_dir db s h in
    record {
      some_buckets = rw length-set v.some_buckets;
      filed = λ key hash' d found.
          elim (get_hashed-insert_either (λ (d : DirItem). d.text) hash db.table v.some_buckets
            (record { node = length db.dirs; text = dir_key s }) h hash' key d found) [
              | inl (same, k) ↦ (
                omega (arith, e, ap (λ (x : DirItem). x.node) same),
                ap (λ (x : DirItem). (dir_at (add_dir db s h) x.node).name) same
                    ∙ ap name_of (get_or-last db.dirs (new_dir s h))
                    ∙ sym (k ∙ dir_key_whole s short),
              )
              | inr old ↦
                  let (l, n) = v.filed key hash' d old in
                  (omega (arith, e), ap name_of (get_or-append db.dirs (new_dir s h) d.node l) ∙ n)
            ];
    }

-- Every directory hangs where it should.
abbrev pub IsTree : Dirs → Type 0
IsTree db = (i : ℕ) → IsHung db i

get_or-out : (xs : List Dir) (i : ℕ) → length xs ≤ i → get_or xs i no_dir ≡ no_dir
get_or-out [] i h = refl
get_or-out (x ∷ xs) zero h = absurd (omega arith)
get_or-out (x ∷ xs) (suc i) h = get_or-out xs i (omega arith)

-- Behind the directories there is nothing to hang.
pub out-IsHung : (db : Dirs) (i : ℕ) → length db.dirs ≤ i → IsHung db i
out-IsHung db i h = rw (get_or-out db.dirs i h) tt
