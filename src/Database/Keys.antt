-- ===== src/Database/Keys.antt =====
-- apk-tools/src/database.c: the hash tables whose keys are blobs that `apk_blob_compare` compares.
use arianna_method_anchor_pr.Prelude.{
  ℕ, [], ◌∷◌, if◌then◌else◌, ◌%◌, ◌==◌, ◌∙◌, get_or, length-set, ◌≡◌, ◌≢◌, ◌↔◌, ◌⊎◌, refl, ap, sym,
  ◌<◌, true, none, some, List, arith, length, ℤ, pos, negsuc, int_eq, Bool-cases, inl, inr,
}
use arianna_method_anchor_pr.Blob.Slices.{compare}
use arianna_method_anchor_pr.Blob.Order.{compare_iff}
use arianna_method_anchor_pr.Hash.{
  Ops, Hash, hash_of_item, answers, get, get_hashed, insert, insert_hashed, find,
}
use arianna_method_anchor_pr.Hash.Laws.{IsLawful, get-insert, find-set}

-- The operations without `hash_item` and `compare_item`.
abbrev pub keyed : {A : Type 0} → (A → List ℕ) → (List ℕ → ℕ) → Ops (List ℕ) A
keyed get_key hash_key = record {
  get_key = get_key;
  hash_key = hash_key;
  hash_item = none;
  compare = compare;
  compare_item = none;
}

pub int_eq_iff : (a b : ℤ) → (int_eq a b ≡ true) ↔ (a ≡ b)
int_eq_iff (pos a) (pos b) = ground arith
int_eq_iff (pos a) (negsuc b) = ground arith
int_eq_iff (negsuc a) (pos b) = ground arith
int_eq_iff (negsuc a) (negsuc b) = ground arith

module _ {A : Type 0} (get_key : A → List ℕ) (hash_key : List ℕ → ℕ) where
  -- An item answers to its key and to no other.
  pub answers_iff :
      (x : A) (key : List ℕ) → (answers (keyed get_key hash_key) x key ≡ true) ↔ (key ≡ get_key x)
  unfolding answers
  answers_iff x key = (
    (λ e. (compare_iff key (get_key x)).0 ((int_eq_iff _ (pos 0)).0 e)),
    (λ e. (int_eq_iff _ (pos 0)).1 ((compare_iff key (get_key x)).1 e)),
  )

  keyed-IsLawful : IsLawful (keyed get_key hash_key)
  unfolding hash_of_item
  keyed-IsLawful = record { same_hash = λ x key h. ap hash_key (sym ((answers_iff x key).0 h)) }

  module _ (h : Hash A) (some_buckets : 0 < length h.buckets) (x : A) where
    -- The lookup under the key of the item that was inserted last.
    pub get-insert_self :
        get (keyed get_key hash_key) (insert (keyed get_key hash_key) h x) (get_key x) ≡ some x
    get-insert_self =
        let hit = (answers_iff x (get_key x)).1 refl in
        let e = get-insert (keyed get_key hash_key) keyed-IsLawful h some_buckets x (get_key x) in
        rw hit at e

    -- What a lookup finds was inserted last under its key, or stood there before under another key.
    pub get-insert_either :
        (key : List ℕ) (y : A)
        → get (keyed get_key hash_key) (insert (keyed get_key hash_key) h x) key ≡ some y
        → ((y ≡ x) × (key ≡ get_key x)) ⊎ (get (keyed get_key hash_key) h key ≡ some y)
    get-insert_either key y found =
        let e = get-insert (keyed get_key hash_key) keyed-IsLawful h some_buckets x key in
        elim (Bool-cases (answers (keyed get_key hash_key) x key)) [
          | inl hit ↦ inl (ground arith, (answers_iff x key).0 hit)
          | inr miss ↦ inr (ground arith)
        ]

    -- The lookup under another key sees what it saw before.
    pub get-insert_other :
        (key : List ℕ)
        → key ≢ get_key x
        → get (keyed get_key hash_key) (insert (keyed get_key hash_key) h x) key
          ≡ get (keyed get_key hash_key) h key
    get-insert_other key ne =
        let e = get-insert (keyed get_key hash_key) keyed-IsLawful h some_buckets x key in
        elim (Bool-cases (answers (keyed get_key hash_key) x key)) [
          | inl hit ↦ absurd (ne ((answers_iff x key).0 hit))
          | inr miss ↦ ground arith
        ]

    -- The same under any hash, for an item that was filed under any hash.
    pub get_hashed-insert_either :
        (filed hash : ℕ) (key : List ℕ) (y : A)
        → get_hashed
            (keyed get_key hash_key)
            (insert_hashed (keyed get_key hash_key) h x filed)
            key
            hash
          ≡ some y
        → ((y ≡ x) × (key ≡ get_key x)) ⊎ (get_hashed (keyed get_key hash_key) h key hash ≡ some y)
    unfolding get_hashed insert_hashed find
    get_hashed-insert_either filed hash key y found =
        let ops = keyed get_key hash_key in
        let n = length h.buckets in
        let i = filed % n in
        let j = hash % n in
        let c = x ∷ get_or h.buckets i [] in
        let e = find-set ops h.buckets i j c key (omega arith) in
        let e' = sym e ∙ (rw length-set at found) in
        elim (Bool-cases (i == j)) [
          | inl same ↦ elim (Bool-cases (answers ops x key)) [
            | inl hit ↦ inl (ground arith, (answers_iff x key).0 hit)
            | inr miss ↦ inr (ground arith)
          ]
          | inr other ↦ inr (ground arith)
        ]

    -- The same lookup as an equation: the new item stands in front of the chain that it was filed in.
    get_hashed-insert :
        (filed hash : ℕ) (key : List ℕ)
        → get_hashed
            (keyed get_key hash_key)
            (insert_hashed (keyed get_key hash_key) h x filed)
            key
            hash
          ≡ (if (filed % length h.buckets) == (hash % length h.buckets)
              then (if answers (keyed get_key hash_key) x key
                  then some x
                  else get_hashed (keyed get_key hash_key) h key hash)
              else get_hashed (keyed get_key hash_key) h key hash)
    unfolding get_hashed insert_hashed find
    get_hashed-insert filed hash key =
        let ops = keyed get_key hash_key in
        let n = length h.buckets in
        let i = filed % n in
        let j = hash % n in
        let c = x ∷ get_or h.buckets i [] in
        let e = find-set ops h.buckets i j c key (omega arith) in
        rw length-set (elim (Bool-cases (i == j)) [
          | inl y ↦
              let same : i ≡ j = ground arith in
              let move : find ops c key
                  ≡ (if answers ops x key then some x else find ops (get_or h.buckets j []) key) =
                ap
                  (λ (k : ℕ).
                    if answers ops x key then some x else find ops (get_or h.buckets k []) key)
                  same in
              e ∙ rw y move
          | inr m ↦ e ∙ rw m refl
        ])

    -- An item is found under its key, by the hash that it was filed under.
    pub get_hashed-insert_self :
        (filed : ℕ)
        → get_hashed
            (keyed get_key hash_key)
            (insert_hashed (keyed get_key hash_key) h x filed)
            (get_key x)
            filed
          ≡ some x
    get_hashed-insert_self filed =
        let hit = (answers_iff x (get_key x)).1 refl in
        let here : (filed % length h.buckets == filed % length h.buckets) ≡ true = ground arith in
        get_hashed-insert filed filed (get_key x) ∙ rw (here, hit) refl

    -- What was found is found again, if there was nothing under the key of the new item.
    pub get_hashed-insert_kept :
        (filed hash : ℕ) (key : List ℕ) (y : A)
        → get_hashed (keyed get_key hash_key) h (get_key x) filed ≡ none
        → get_hashed (keyed get_key hash_key) h key hash ≡ some y
        → get_hashed
            (keyed get_key hash_key)
            (insert_hashed (keyed get_key hash_key) h x filed)
            key
            hash
          ≡ some y
    unfolding get_hashed
    get_hashed-insert_kept filed hash key y missing found =
        let ops = keyed get_key hash_key in
        let n = length h.buckets in
        let e = get_hashed-insert filed hash key in
        elim (Bool-cases (filed % n == hash % n)) [
          | inl same ↦ elim (Bool-cases (answers ops x key)) [
            | inl hit ↦
                let k = (answers_iff x key).0 hit in
                let s : filed % n ≡ hash % n = ground arith in
                let none_there : find ops (get_or h.buckets (hash % n) []) key ≡ none =
                  rw (k, ← s) missing in
                absurd (ground (arith, none_there, found))
            | inr miss ↦ e ∙ rw (same, miss) found
          ]
          | inr other ↦ e ∙ rw other found
        ]
