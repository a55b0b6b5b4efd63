-- ===== src/Database/Names.antt =====
-- apk-tools/src/database.c, apk_database.h: the names of packages and the table that finds them.
pub mod Table
use arianna_method_anchor_pr.Prelude.{
  ℕ, ◌+◌, ◌%◌, ◌^◌, Bool, Option, none, some, List, [], ◌∷◌, ◌++◌, if◌then◌else◌, length,
}
use arianna_method_anchor_pr.Blob.Slices.{hash, c_string}
use arianna_method_anchor_pr.Hash.{Hash, Ops, get, get_hashed, insert_hashed}
use arianna_method_anchor_pr.Database.Keys.{keyed}

-- What `struct apk_name` never changes; `node` stands for its address, and `text` is the name up to its
-- terminator.
pub record NameItem : Type 0 where
  pub node : ℕ
  pub id : ℕ
  pub text : List ℕ

-- What it changes: packages and names by their nodes.
pub record Links : Type 0 where
  pub pkgs : List ℕ
  pub rdepends : List ℕ

-- `available.names` and `name_id`, with the memory of the links by node.
pub record Names : Type 0 where
  pub table : Hash NameItem
  pub name_id : ℕ
  pub links : List Links

-- `pkg_name_hash_ops`
abbrev pub name_ops : Ops (List ℕ) NameItem
name_ops = keyed (λ n. n.text) hash

abbrev pub no_links : Links
no_links = record { pkgs = []; rdepends = [] }

-- `apk_db_query_name`
unfoldable pub query_name : Names → List ℕ → Option NameItem
query_name db name = get name_ops db.table name

-- The name that a call without one makes.
unfoldable pub new_name : Names → List ℕ → NameItem
new_name db name = record { node = length db.links; id = db.name_id; text = c_string name }

-- `apk_db_get_name`; `allocated` tells whether `calloc` returns memory.
unfoldable pub get_name : Bool → Names → List ℕ → Option NameItem × Names
get_name allocated db name =
    let hash = hash name in
    elim (get_hashed name_ops db.table name hash) [
      | some pn ↦ (some pn, db)
      | none ↦
          if allocated
          then (
            some (new_name db name),
            record {
              table = insert_hashed name_ops db.table (new_name db name) hash;
              name_id = (db.name_id + 1) % 2 ^ 32;
              links = db.links ++ no_links ∷ [];
            },
          )
          else (none, db)
    ]
