-- ===== src/Blob/Slices.antt =====
-- apk-tools/src/blob.c: the functions that cut, compare and hash a blob. A blob that is not NULL
-- is the list of its bytes.
use arianna_method_anchor_pr.Prelude.{
  ℕ, zero, suc, ◌+◌, ◌-◌, ◌*◌, ◌%◌, ◌^◌, Bool, true, false, ◌&&◌, ◌||◌, Option, none, some, List,
  [], ◌∷◌, ltb, leb, ◌==◌, if◌then◌else◌, length, drop, ℤ, pos, negsuc, int_eq,
}

-- `strchr(set, c) != NULL`: the terminator of `set` is found too.
unfoldable pub in_set : ℕ → List ℕ → Bool
in_set c [] = c == 0
in_set c (d ∷ ds) = d == c || in_set c ds

-- The part before the cut, with one more byte at the front.
abbrev pub prepend : ℕ → Option (List ℕ × List ℕ) → Option (List ℕ × List ℕ)
prepend c none = none
prepend c (some (l, r)) = some (c ∷ l, r)

-- The two results are the parts before and from the first byte outside the set.
unfoldable pub spn : List ℕ → List ℕ → Option (List ℕ × List ℕ)
unfolding in_set
spn [] accept = none
spn (c ∷ s) accept = if in_set c accept then prepend c (spn s accept) else some ([], c ∷ s)

unfoldable pub cspn : List ℕ → List ℕ → Option (List ℕ × List ℕ)
unfolding in_set
cspn [] reject = none
cspn (c ∷ s) reject = if in_set c reject then some ([], c ∷ s) else prepend c (cspn s reject)

-- The parts before and behind the last `split`, as `memrchr` finds it.
unfoldable pub rsplit : List ℕ → ℕ → Option (List ℕ × List ℕ)
rsplit [] split = none
rsplit (c ∷ s) split = elim (rsplit s split) [
  | some (l, r) ↦ some (c ∷ l, r)
  | none ↦ if c == split then some ([], s) else none
]

-- `memcmp(s, p, length p) == 0`, where `s` has that many bytes.
unfoldable pub begins : List ℕ → List ℕ → Bool
begins [] s = true
begins (p ∷ ps) [] = false
begins (p ∷ ps) (c ∷ s) = p == c && begins ps s

-- A separator `d ∷ ds` is found at `c`: `memchr` for its first byte, then `memcmp`.
unfoldable pub hit : ℕ → List ℕ → ℕ → List ℕ → Bool
hit d ds c s = d == c && (leb (length ds) 0 || begins (d ∷ ds) (c ∷ s))

-- The parts before and behind the first separator `d ∷ ds`; the callers' separators are not empty.
-- The search ends where fewer bytes than the separator's are left.
unfoldable pub split : List ℕ → ℕ → List ℕ → Option (List ℕ × List ℕ)
unfolding begins hit
split [] d ds = none
split (c ∷ s) d ds =
    let later = prepend c (split s d ds) in
    if ltb (length s) (length ds)
    then none
    else if hit d ds c s
    then some ([], drop (length ds) s)
    else later

-- The bytes of a C string in memory: those before the first terminator.
unfoldable pub c_string : List ℕ → List ℕ
c_string [] = []
c_string (c ∷ s) = if c == 0 then [] else c ∷ c_string s

unfoldable pub ends_with : ℕ → List ℕ → Bool
ends_with x [] = false
ends_with x (c ∷ []) = c == x
ends_with x (c ∷ d ∷ s) = ends_with x (d ∷ s)

-- `apk_blob_cstr`: what is allocated, less the terminator that both ways of copying put behind it.
unfoldable pub cstr : List ℕ → List ℕ
unfolding c_string ends_with
cstr s = if ends_with 0 s then c_string s else s

-- `unsigned long`; a `char` is signed, so a byte from 128 on adds 256 less.
unfoldable pub hash_seed : List ℕ → ℕ → ℕ
hash_seed [] seed = seed
hash_seed (c ∷ s) seed =
    hash_seed s ((seed * 33 + (if ltb c 128 then c else 2 ^ 64 + c - 256)) % 2 ^ 64)

unfoldable pub hash : List ℕ → ℕ
unfolding hash_seed
hash s = hash_seed s 5381

-- The sign of what `memcmp` returns for two texts of one length.
unfoldable pub memcmp : List ℕ → List ℕ → ℤ
memcmp (a ∷ as') (b ∷ bs) = if ltb a b then negsuc 0 else if ltb b a then pos 1 else memcmp as' bs
memcmp _ _ = pos 0

unfoldable pub compare : List ℕ → List ℕ → ℤ
unfolding memcmp
compare a b =
    if length a == length b
    then memcmp a b
    else if ltb (length a) (length b)
    then negsuc 0
    else pos 1

-- `apk_blob_for_each_segment`: `cb` returns a status and the new state of `ctx`. Each round leaves
-- a shorter text, so `suc (length s)` rounds are enough fuel.
module _ {ℓ} {S : Type ℓ} (cb : S → List ℕ → ℤ × S) (d : ℕ) (ds : List ℕ) where
  unfoldable pub each_segment : ℕ → List ℕ → S → ℤ × S
  each_segment zero r ctx = (pos 0, ctx)
  each_segment (suc fuel) r ctx = elim (split r d ds) [
    | some (l, r') ↦
        let (rc, ctx') = cb ctx l in
        let rest = each_segment fuel r' ctx' in if int_eq rc (pos 0) then rest else (rc, ctx')
    | none ↦ elim r [ [] ↦ (pos 0, ctx) | c ∷ s ↦ cb ctx (c ∷ s) ]
  ]

  unfoldable pub for_each_segment : List ℕ → S → ℤ × S
  unfolding each_segment
  for_each_segment s ctx = each_segment (suc (length s)) s ctx
