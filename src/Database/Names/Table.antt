-- ===== src/Database/Names/Table.antt =====
-- What lookups of names see, and the numbers that the names have.
use arianna_method_anchor_pr.Prelude.{
  ℕ, Bool, ◌+◌, ◌%◌, ◌^◌, ◌<◌, ◌≡◌, refl, sym, ap, ◌∙◌, ◌⊎◌, true, none, some, Option-cases, List,
  [], ◌∷◌, ◌++◌, arith, length, inl, inr, length-append, length-set,
}
use mathlib.Core.Path.{subst}
use arianna_method_anchor_pr.Blob.Slices.{hash, c_string}
use arianna_method_anchor_pr.Hash.{hash_of_item, get, insert, insert_hashed}
use arianna_method_anchor_pr.Database.Keys.{get-insert_self, get-insert_either, get-insert_other}
use arianna_method_anchor_pr.Database.Names.{
  NameItem, Names, name_ops, no_links, query_name, new_name, get_name,
}

-- What holds of a name that a lookup of `s` finds.
abbrev pub Fits : Names → List ℕ → NameItem → Type 0
Fits db s n = (n.id < db.name_id) × (n.id ≡ n.node) × (n.text ≡ s)

-- Every name that a lookup finds has the text that was looked up, and its number is its node and
-- below `name_id`; different texts have different numbers.
pub record IsValid (db : Names) : Type 0 where
  pub some_buckets : 0 < length db.table.buckets
  pub counted : db.name_id ≡ length db.links
  pub in_range : db.name_id < 2 ^ 32
  pub fits : (s : List ℕ) (n : NameItem) → query_name db s ≡ some n → Fits db s n
  pub apart :
      (s t : List ℕ) (m n : NameItem)
      → query_name db s ≡ some m
      → query_name db t ≡ some n
      → m.id ≡ n.id
      → s ≡ t

-- The database after a name was added that had not been there.
abbrev pub with_new : Names → List ℕ → Names
with_new db s = record {
  table = insert name_ops db.table (new_name db s);
  name_id = (db.name_id + 1) % 2 ^ 32;
  links = db.links ++ no_links ∷ [];
}

get_name_old :
    (allocated : _) (db : Names) (s : List ℕ) (n : NameItem)
    → query_name db s ≡ some n
    → get_name allocated db s ≡ (some n, db)
unfolding get_name query_name get
get_name_old allocated db s n h = ground (arith, h)

get_name_new :
    (db : Names) (s : List ℕ)
    → query_name db s ≡ none
    → c_string s ≡ s
    → get_name true db s ≡ (some (new_name db s), with_new db s)
unfolding get_name query_name get insert hash_of_item new_name
get_name_new db s h e = ground (arith, h, e)

query-with_new :
    (db : Names) (s : List ℕ)
    → 0 < length db.table.buckets
    → c_string s ≡ s
    → query_name (with_new db s) s ≡ some (new_name db s)
unfolding query_name new_name
query-with_new db s b e =
    let t = get-insert_self (λ (n : NameItem). n.text) hash db.table b (new_name db s) in
    subst (λ (k : List ℕ). query_name (with_new db s) k ≡ some (new_name db s)) e t

query-with_new_either :
    (db : Names) (s t : List ℕ) (n : NameItem)
    → 0 < length db.table.buckets
    → c_string s ≡ s
    → query_name (with_new db s) t ≡ some n
    → ((n ≡ new_name db s) × (t ≡ s)) ⊎ (query_name db t ≡ some n)
unfolding query_name new_name
query-with_new_either db s t n b e found =
    let r =
      get-insert_either (λ (n : NameItem). n.text) hash db.table b (new_name db s) t n found in
    subst (λ (k : List ℕ). ((n ≡ new_name db s) × (t ≡ k)) ⊎ (query_name db t ≡ some n)) e r

query-with_new_old :
    (db : Names) (s t : List ℕ) (n : NameItem)
    → 0 < length db.table.buckets
    → c_string s ≡ s
    → query_name db s ≡ none
    → query_name db t ≡ some n
    → query_name (with_new db s) t ≡ some n
unfolding query_name new_name
query-with_new_old db s t n b e missing found =
    get-insert_other (λ (n : NameItem). n.text) hash db.table b (new_name db s) t
      (λ h.
        let z : none ≡ some n =
          sym missing ∙ ap (λ (k : List ℕ). query_name db k) (sym e ∙ sym h) ∙ found in
        absurd (ground (arith, z)))
    ∙ found

new_name-Fits :
    (db : Names) (s : List ℕ)
    → db.name_id + 1 < 2 ^ 32
    → db.name_id ≡ length db.links
    → c_string s ≡ s
    → Fits (with_new db s) s (new_name db s)
unfolding new_name
new_name-Fits db s small c e = (omega arith, omega (arith, c), e)

with_new-IsValid :
    (db : Names) (s : List ℕ)
    → IsValid db
    → db.name_id + 1 < 2 ^ 32
    → c_string s ≡ s
    → IsValid (with_new db s)
unfolding insert insert_hashed new_name
with_new-IsValid db s v small e =
    let either = query-with_new_either db s in
    let sum : (db.name_id + 1) % 2 ^ 32 ≡ db.name_id + 1 = omega arith in
    let new_id : (new_name db s).id ≡ db.name_id = refl in
    record {
      some_buckets = rw length-set v.some_buckets;
      counted = omega (arith, v.counted, length-append db.links (no_links ∷ []));
      in_range = omega arith;
      fits = λ t n found. elim (either t n v.some_buckets e found) [
        | inl (new, same) ↦ rw (same, new) (new_name-Fits db s small v.counted e)
        | inr old ↦ let (l, k, x) = v.fits t n old in (omega arith, k, x)
      ];
      apart = λ t u m n p q same. elim (either t m v.some_buckets e p) [
        | inl (new, x) ↦ elim (either u n v.some_buckets e q) [
          | inl (new', y) ↦ x ∙ sym y
          | inr old ↦
              let (l, _, _) = v.fits u n old in
              let z : db.name_id ≡ n.id = sym (ap (λ (k : NameItem). k.id) new) ∙ same in
              absurd (omega arith)
        ]
        | inr older ↦ elim (either u n v.some_buckets e q) [
          | inl (new', y) ↦
              let (l, _, _) = v.fits t m older in
              let z : m.id ≡ db.name_id = same ∙ ap (λ (k : NameItem). k.id) new' in
              absurd (omega arith)
          | inr old ↦ v.apart t u m n older old same
        ]
      ];
    }

-- In a valid database of fewer than 2^32 - 1 names `apk_db_get_name` finds or makes the name of a
-- text without a terminator, if memory is allocated; a lookup then gives this name, and a second call
-- too, which changes nothing; its number is below `name_id`, and the database stays valid: different
-- texts have names with different numbers below `name_id`.
pub get_name-IsValid :
    (db : Names) (s : List ℕ) (again : Bool)
    → IsValid db
    → db.name_id + 1 < 2 ^ 32
    → c_string s ≡ s
    → let (o, db') = get_name true db s in
      (n : NameItem) × (o ≡ some n)
      × (query_name db' s ≡ some n)
      × (get_name again db' s ≡ (some n, db'))
      × Fits db' s n
      × IsValid db'
get_name-IsValid db s again v small e = elim (Option-cases (query_name db s)) [
  | inl missing ↦
      let new = new_name db s in
      let made = query-with_new db s v.some_buckets e in
      let valid = with_new-IsValid db s v small e in
      rw (get_name_new db s missing e) (
        new,
        refl,
        made,
        get_name_old again (with_new db s) s new made,
        valid.fits s new made,
        valid,
      )
  | inr (n, found) ↦
      rw (get_name_old true db s n found)
        (n, refl, found, get_name_old again db s n found, v.fits s n found, v)
]

-- A name that was found before is still found.
pub get_name-keeps :
    (db : Names) (s t : List ℕ) (n : NameItem)
    → IsValid db
    → c_string s ≡ s
    → query_name db t ≡ some n
    → query_name (get_name true db s).1 t ≡ some n
get_name-keeps db s t n v e found = elim (Option-cases (query_name db s)) [
  | inl missing ↦
      rw (get_name_new db s missing e) (query-with_new_old db s t n v.some_buckets e missing found)
  | inr (m, old) ↦ rw (get_name_old true db s m old) found
]
