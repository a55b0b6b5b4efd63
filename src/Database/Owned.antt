-- ===== src/Database/Owned.antt =====
-- What lookups of files see.
use arianna_method_anchor_pr.Prelude.{
  ℕ, ◌+◌, ◌%◌, ◌^◌, ◌<◌, ◌≡◌, ◌↔◌, refl, sym, ap, ◌∙◌, true, false, none, some, List, arith,
  if◌then◌else◌, length, pos, int_eq, Option-cases, Bool-cases, inl, inr,
}
use arianna_method_anchor_pr.Blob.Slices.{hash, compare}
use arianna_method_anchor_pr.Blob.Order.{compare_iff}
use arianna_method_anchor_pr.Hash.{Hash, hash_of_item, answers, get, insert}
use arianna_method_anchor_pr.Hash.Laws.{get-insert_item, total, insert-total}
use arianna_method_anchor_pr.Database.Keys.{int_eq_iff}
use arianna_method_anchor_pr.Database.Files.{
  FileItem, Files, file_ops, file_hash_key, file_hash_item, file_compare_item, file_query, file_new,
  file_get,
}

-- An item answers to the names of its directory and its file only.
pub answers_iff :
    (f : FileItem) (d n : List ℕ)
    → (answers file_ops f (d, n) ≡ true) ↔ ((d ≡ f.dirname) × (n ≡ f.filename))
unfolding answers file_compare_item
answers_iff f d n = (
  (λ e. elim (Bool-cases (int_eq (compare n f.filename) (pos 0))) [
    | inl y ↦
        let e' = rw y at e in
        (
          (compare_iff d f.dirname).0 ((int_eq_iff _ (pos 0)).0 e'),
          (compare_iff n f.filename).0 ((int_eq_iff _ (pos 0)).0 y),
        )
    | inr m ↦ absurd (let e' = rw m at e in let z : true ≡ false = sym e' ∙ m in ground (arith, z))
  ]),
  (λ (same_dir, same_name).
      let y = (int_eq_iff _ (pos 0)).1 ((compare_iff n f.filename).1 same_name) in
      rw y ((int_eq_iff _ (pos 0)).1 ((compare_iff d f.dirname).1 same_dir))),
)

-- The item of a file, in a directory that is filed under the hash of its name.
abbrev pub item_for : ℕ → List ℕ → List ℕ → FileItem
item_for i d n = record { node = i; dirname = d; dir_hash = hash d; filename = n }

item-hashes :
    (i : ℕ) (d n e m : List ℕ)
    → answers file_ops (item_for i d n) (e, m) ≡ true
    → file_hash_item (item_for i d n) ≡ file_hash_key (e, m)
unfolding file_hash_item file_hash_key
item-hashes i d n e m h =
    let (same_dir, same_name) = (answers_iff (item_for i d n) e m).0 h in
    rw (same_dir, same_name) refl

-- The database after a file was added that had not been there.
abbrev with_new : Files → ℕ → List ℕ → List ℕ → Files
with_new db diri d n = record ((file_new db diri n).1) {
  table = insert file_ops db.table (item_for (length db.files) d n);
  count = (db.count + 1) % 2 ^ 32;
}

file_get_old :
    (db : Files) (diri : ℕ) (d n : List ℕ) (f : FileItem)
    → file_query db d n ≡ some f
    → file_get db diri d (hash d) n ≡ (f.node, db)
unfolding file_get file_query file_hash_key get
file_get_old db diri d n f h = ground (arith, h)

file_get_new :
    (db : Files) (diri : ℕ) (d n : List ℕ)
    → file_query db d n ≡ none
    → file_get db diri d (hash d) n ≡ (length db.files, with_new db diri d n)
unfolding file_get file_query file_hash_key get insert file_new file_hash_item hash_of_item
file_get_new db diri d n h = ground (arith, h)

-- What is found after the insertion of a file.
query-insert :
    (db new : Files) (i : ℕ) (d n e m : List ℕ)
    → 0 < length db.table.buckets
    → new.table ≡ insert file_ops db.table (item_for i d n)
    → file_query new e m ≡ (
        if answers file_ops (item_for i d n) (e, m)
        then some (item_for i d n)
        else file_query db e m)
unfolding file_query hash_of_item
query-insert db new i d n e m b same =
    ap (λ (t : Hash FileItem). get file_ops t (e, m)) same
    ∙ get-insert_item file_ops db.table (item_for i d n) (e, m) b (item-hashes i d n e m)

pub query-insert_self :
    (db new : Files) (i : ℕ) (d n : List ℕ)
    → 0 < length db.table.buckets
    → new.table ≡ insert file_ops db.table (item_for i d n)
    → file_query new d n ≡ some (item_for i d n)
query-insert_self db new i d n b same =
    let hit = (answers_iff (item_for i d n) d n).1 (refl, refl) in
    let e = query-insert db new i d n d n b same in rw hit at e

-- `apk_db_file_get` of a file in a directory that is filed under the hash of its name: a query finds
-- the file that it returns, and a second call returns the same file and changes nothing.
pub file_get-finds :
    (db : Files) (diri : ℕ) (d n : List ℕ)
    → 0 < length db.table.buckets
    → let (i, db') = file_get db diri d (hash d) n in
      ((f : FileItem) × (file_query db' d n ≡ some f) × (f.node ≡ i))
      × (file_get db' diri d (hash d) n ≡ (i, db'))
file_get-finds db diri d n b = elim (Option-cases (file_query db d n)) [
  | inl missing ↦
      let new = with_new db diri d n in
      let found = query-insert_self db new (length db.files) d n b refl in
      rw (file_get_new db diri d n missing)
        ((item_for (length db.files) d n, found, refl), file_get_old new diri d n _ found)
  | inr (f, found) ↦ let e = file_get_old db diri d n f found in rw e ((f, found, refl), e)
]

-- `stats.files` is the number of files in the table.
abbrev pub IsCounted : Files → Type 0
IsCounted db = db.count ≡ total file_ops db.table.buckets % 2 ^ 32

-- `apk_db_file_get` keeps `stats.files` at the number of files in the table, modulo 2^32.
pub file_get-IsCounted :
    (db : Files) (diri : ℕ) (d n : List ℕ)
    → 0 < length db.table.buckets
    → IsCounted db
    → IsCounted (file_get db diri d (hash d) n).1
file_get-IsCounted db diri d n b c = elim (Option-cases (file_query db d n)) [
  | inl missing ↦
      let (more, _) = insert-total file_ops db.table b (item_for (length db.files) d n) in
      rw (file_get_new db diri d n missing) (omega (arith, c, more))
  | inr (f, found) ↦ rw (file_get_old db diri d n f found) c
]
