-- ===== src/Hash/Laws.antt =====
-- The hash table is a map from keys to items: what lookups see after each operation.
use arianna_method_anchor_pr.Prelude.{
  ℕ, zero, suc, ◌+◌, ◌%◌, ◌<◌, ◌≡◌, refl, ap, true, false, none, some, List, [], ◌∷◌, arith,
  if◌then◌else◌, length, get_or, set, replicate, length-set, get_or-replicate, get_or-set_self,
  get_or-set_ne, set-set, set-get_or, ◌==◌, ◌∙◌, Bool-cases, inl, inr,
}
use arianna_method_anchor_pr.Hash.{
  Ops, Hash, hash_of_item, answers, find, remove, get, get_hashed, insert, insert_hashed, delete,
  delete_hashed, init,
}

module _ {K A : Type 0} (ops : Ops K A) where
  -- An item hashes like the keys that it answers to.
  pub record IsLawful : Type 0 where
    pub same_hash :
        (x : A) (key : K) → answers ops x key ≡ true → hash_of_item ops x ≡ ops.hash_key key

  -- A lookup after the chain at `i` was replaced.
  pub find-set :
      (bs : List (List A)) (i j : ℕ) (c : List A) (key : K)
      → i < length bs
      → find ops (get_or (set bs i c) j []) key
        ≡ (if i == j then find ops c key else find ops (get_or bs j []) key)
  find-set bs i j c key h = elim (Bool-cases (i == j)) [
    | inl e ↦
        let same : i ≡ j = ground arith in
        rw (e, ← same) (ap (λ l. find ops l key) (get_or-set_self bs i c [] h))
    | inr e ↦ rw e (ap (λ l. find ops l key) (get_or-set_ne bs i j c [] (λ p. ground arith)))
  ]

  find-remove_other :
      (xs : List A) (key other : K)
      → ((x : A) → answers ops x key ≡ true → answers ops x other ≡ false)
      → find ops (remove ops xs key) other ≡ find ops xs other
  unfolding find remove
  find-remove_other [] key other apart = refl
  find-remove_other (x ∷ xs) key other apart =
      ground (arith, apart x, find-remove_other xs key other apart)

  length-remove :
      (xs : List A) (key : K) (x : A)
      → find ops xs key ≡ some x
      → length (remove ops xs key) + 1 ≡ length xs
  unfolding find remove
  length-remove [] key x h = ground arith
  length-remove (y ∷ xs) key x h = ground (arith, length-remove xs key x)

  -- A fresh table finds nothing.
  pub get-init : (n : ℕ) (key : K) → get ops (init n) key ≡ none
  unfolding get init find
  get-init n key =
      ap (λ (l : List A). find ops l key)
        (get_or-replicate n (ops.hash_key key % length (replicate {A = List A} n [])) [])

  -- After the insertion of an item that hashes like the keys that it answers to.
  pub get-insert_item :
      (h : Hash A) (x : A) (key : K)
      → 0 < length h.buckets
      → (answers ops x key ≡ true → hash_of_item ops x ≡ ops.hash_key key)
      → get ops (insert ops h x) key ≡ (if answers ops x key then some x else get ops h key)
  unfolding get insert find
  get-insert_item h x key some_buckets same_hash =
      let n = length h.buckets in
      let i = hash_of_item ops x % n in
      let c = x ∷ get_or h.buckets i [] in
      rw length-set (
        find-set h.buckets i (ops.hash_key key % n) c key (omega arith) ∙ ground (arith, same_hash))

  module _ (lawful : IsLawful) (h : Hash A) (some_buckets : 0 < length h.buckets) where
    -- After an insertion into a table with buckets, whose items hash like the keys that they answer
    -- to, a lookup finds the new item under the keys that it answers to, and under any other key
    -- what it found before.
    pub get-insert :
        (x : A) (key : K)
        → get ops (insert ops h x) key ≡ (if answers ops x key then some x else get ops h key)
    get-insert x key = get-insert_item h x key some_buckets (lawful.same_hash x key)

    -- Deleting under a key that the item inserted last answers to takes that item out again: the
    -- chains are as they were before the insertion.
    pub delete-insert :
        (x : A) (key : K)
        → answers ops x key ≡ true
        → (delete ops (insert ops h x) key).buckets ≡ h.buckets
    unfolding delete insert remove
    delete-insert x key hit =
        let i = hash_of_item ops x % length h.buckets in
        let c = get_or h.buckets i [] in
        rw (← lawful.same_hash x key hit, length-set)
          (rw (get_or-set_self h.buckets i (x ∷ c) [] (omega arith))
            (rw (hit, remove) (set-set h.buckets i (x ∷ c) c ∙ set-get_or h.buckets i [])))

  -- How many items stand in the chains.
  unfoldable pub total : List (List A) → ℕ
  total [] = 0
  total (c ∷ cs) = length c + total cs

  total-set :
      (bs : List (List A)) (i : ℕ) (c : List A)
      → i < length bs
      → total (set bs i c) + length (get_or bs i []) ≡ total bs + length c
  unfolding total
  total-set [] i c h = absurd (omega arith)
  total-set (b ∷ bs) zero c h = omega arith
  total-set (b ∷ bs) (suc i) c h = omega (arith, total-set bs i c (omega arith))

  -- An insertion under any hash adds one item.
  pub insert_hashed-total :
      (h : Hash A) (x : A) (hash : ℕ)
      → 0 < length h.buckets
      → total (insert_hashed ops h x hash).buckets ≡ total h.buckets + 1
  unfolding insert_hashed
  insert_hashed-total h x hash some_buckets =
      let i = hash % length h.buckets in
      let c = get_or h.buckets i [] in omega (arith, total-set h.buckets i (x ∷ c) (omega arith))

  -- A deletion under any hash that finds its item takes one away.
  pub delete_hashed-total :
      (h : Hash A) (key : K) (hash : ℕ) (x : A)
      → 0 < length h.buckets
      → get_hashed ops h key hash ≡ some x
      → total (delete_hashed ops h key hash).buckets + 1 ≡ total h.buckets
  unfolding delete_hashed get_hashed
  delete_hashed-total h key hash x some_buckets hit =
      let i = hash % length h.buckets in
      let c = get_or h.buckets i [] in
      omega
        (arith, total-set h.buckets i (remove ops c key) (omega arith), length-remove c key x hit)

  module _ (h : Hash A) (some_buckets : 0 < length h.buckets) where
    -- An insertion adds one item and counts it.
    pub insert-total :
        (x : A)
        → (total (insert ops h x).buckets ≡ total h.buckets + 1)
          × ((insert ops h x).num_items ≡ h.num_items + 1)
    unfolding insert
    insert-total x =
        let i = hash_of_item ops x % length h.buckets in
        let c = get_or h.buckets i [] in
        (omega (arith, total-set h.buckets i (x ∷ c) (omega arith)), refl)

    -- A deletion that finds its item removes exactly one item from the chains, and leaves the count
    -- `num_items` as it was.
    pub delete-total :
        (key : K) (x : A)
        → get ops h key ≡ some x
        → (total (delete ops h key).buckets + 1 ≡ total h.buckets)
          × ((delete ops h key).num_items ≡ h.num_items)
    unfolding delete get
    delete-total key x hit =
        let i = ops.hash_key key % length h.buckets in
        let c = get_or h.buckets i [] in
        (
          omega (
            arith,
            total-set h.buckets i (remove ops c key) (omega arith),
            length-remove c key x hit,
          ),
          refl,
        )

    -- A deletion leaves the lookups under every key alone that shares no item with the deleted one.
    pub get-delete_other :
        (key other : K)
        → ((x : A) → answers ops x key ≡ true → answers ops x other ≡ false)
        → get ops (delete ops h key) other ≡ get ops h other
    unfolding get delete
    get-delete_other key other apart =
        let n = length h.buckets in
        let i = ops.hash_key key % n in
        let c = get_or h.buckets i [] in
        rw length-set (
          find-set h.buckets i (ops.hash_key other % n) (remove ops c key) other (omega arith)
          ∙ ground (arith, find-remove_other c key other apart))
