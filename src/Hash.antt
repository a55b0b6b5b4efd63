-- ===== src/Hash.antt =====
-- apk-tools/src/hash.c, apk_hash.h: the hash table with chains.
pub mod Laws
use arianna_method_anchor_pr.Prelude.{
  ℕ, zero, suc, ◌+◌, ◌%◌, ◌≡◌, refl, Bool, true, false, ◌&&◌, not, Option, none, some, List, [],
  ◌∷◌, ◌++◌, if◌then◌else◌, length, get_or, set, replicate, ℤ, pos, int_eq,
}

-- `struct apk_hash_ops`; `none` is a NULL function. An item is what a node is part of, and `K` what
-- the blob of a key stands for.
pub record Ops (K A : Type 0) : Type 0 where
  pub get_key : A → K
  pub hash_key : K → ℕ
  pub hash_item : Option (A → ℕ)
  pub compare : K → K → ℤ
  pub compare_item : Option (A → K → ℤ)

-- `struct apk_hash` behind `ops`; a chain is the list of its items.
pub record Hash (A : Type 0) : Type 0 where
  pub buckets : List (List A)
  pub num_items : ℕ

module _ {K A : Type 0} (ops : Ops K A) where
  unfoldable pub hash_of_item : A → ℕ
  hash_of_item x = elim ops.hash_item [ some f ↦ f x | none ↦ ops.hash_key (ops.get_key x) ]

  -- The test of both search loops.
  unfoldable pub answers : A → K → Bool
  answers x key = elim ops.compare_item [
    | some f ↦ int_eq (f x key) (pos 0)
    | none ↦ int_eq (ops.compare key (ops.get_key x)) (pos 0)
  ]

  unfoldable pub find : List A → K → Option A
  unfolding answers
  find [] key = none
  find (x ∷ xs) key = if answers x key then some x else find xs key

  -- `hlist_del` of the first item that answers; `delete_item` frees it.
  pub remove : List A → K → List A
  unfolding answers
  remove [] key = []
  remove (x ∷ xs) key = if answers x key then xs else x ∷ remove xs key

  -- The number of buckets is not 0, which the code divides by.
  abbrev pub slot : Hash A → ℕ → ℕ
  slot h hash = hash % length h.buckets

  unfoldable pub get_hashed : Hash A → K → ℕ → Option A
  unfolding find
  get_hashed h key hash = find (get_or h.buckets (slot h hash) []) key

  unfoldable pub insert_hashed : Hash A → A → ℕ → Hash A
  insert_hashed h x hash = record {
    buckets = set h.buckets (slot h hash) (x ∷ get_or h.buckets (slot h hash) []);
    num_items = h.num_items + 1;
  }

  unfoldable pub delete_hashed : Hash A → K → ℕ → Hash A
  unfolding remove
  delete_hashed h key hash = record h {
    buckets = set h.buckets (slot h hash) (remove (get_or h.buckets (slot h hash) []) key);
  }

  unfoldable pub get : Hash A → K → Option A
  unfolding get_hashed
  get h key = get_hashed h key (ops.hash_key key)

  unfoldable pub insert : Hash A → A → Hash A
  unfolding insert_hashed hash_of_item
  insert h x = insert_hashed h x (hash_of_item x)

  unfoldable pub delete : Hash A → K → Hash A
  unfolding delete_hashed
  delete h key = delete_hashed h key (ops.hash_key key)

unfoldable pub init : {A : Type 0} → ℕ → Hash A
init num_buckets = record { buckets = replicate num_buckets []; num_items = 0 }

-- `apk_hash_foreach`: the enumerator returns a status and the new state of what it works on. A
-- status other than 0 ends both loops if the caller passed a context.
module _ {A S : Type 0} (e : S → A → ℤ × S) (has_ctx : Bool) where
  pub chain_loop : List A → S → ℤ × S
  chain_loop [] s = (pos 0, s)
  chain_loop (x ∷ xs) s =
      let (r, s') = e s x in
      let rest = chain_loop xs s' in if not (int_eq r (pos 0)) && has_ctx then (r, s') else rest

  pub foreach_loop : List (List A) → S → ℤ × S
  unfolding chain_loop
  foreach_loop [] s = (pos 0, s)
  foreach_loop (c ∷ cs) s =
      let (r, s') = chain_loop c s in
      let rest = foreach_loop cs s' in if int_eq r (pos 0) then rest else (r, s')

  unfoldable pub foreach : Hash A → S → ℤ × S
  unfolding foreach_loop
  foreach h s = foreach_loop h.buckets s
