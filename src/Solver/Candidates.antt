-- ===== src/Solver/Candidates.antt =====
-- apk-tools/src/state.c: which candidates are left.
use mathlib.Core.List.{Perm}
use mathlib.Core.List
use mathlib.Core.List.Perm
use arianna_method_anchor_pr.Prelude.{
  ℕ, zero, suc, ◌≤◌, ◌<◌, ◌≡◌, ◌≢◌, refl, ap, Bool, true, false, not, ◌&&◌, ◌||◌, Option, none,
  some, List, [], ◌∷◌, ◌==◌, if◌then◌else◌, length, is_negative, arith, Bool-cases, inl, inr, sift,
  keep_if, kept, leb, take, ◌%◌, ◌^◌, ◌∙◌, length-set, fill_from_end, fill_from_end-perm,
  length-fill_from_end,
}
use arianna_method_anchor_pr.Package.Dependency.{conflict}
use arianna_method_anchor_pr.Solver.Weight.{All, at-put_self}
use arianna_method_anchor_pr.Solver.{
  Dep, Pkg, Db, Visited, choices, locked, NameState, empty, visited, State, name_at, at, put,
  matches, installable, world_loop, candidates, is_available, settle, prune_dependency, prune_at,
  prune_visited,
}

abbrev option_if {ℓ} : {A : Type ℓ} → (A → Bool) → A → Option A
option_if keep x = if keep x then some x else none

kept-filter_map :
    {A : Type 0} (keep : A → Bool) (xs : List A)
    → List.filter_map (option_if keep) xs ≡ kept keep xs
unfolding List.filter_map
kept-filter_map keep [] = refl
kept-filter_map keep (x ∷ xs) = elim (Bool-cases (keep x)) [
  | inl e ↦ rw e (ap (λ l. x ∷ l) (kept-filter_map keep xs))
  | inr e ↦ rw e (kept-filter_map keep xs)
]

kept-perm :
    {A : Type 0} (keep : A → Bool) (xs ys : List A)
    → Perm xs ys
    → Perm (kept keep xs) (kept keep ys)
kept-perm keep xs ys p =
    rw (← kept-filter_map keep xs, ← kept-filter_map keep ys) (Perm.filter_map (option_if keep) p)

sift-perm :
    {A : Type 0} (n : ℕ) (keep : A → Bool) (xs : List A)
    → length xs ≤ n
    → Perm (sift n keep xs) (kept keep xs)
unfolding sift
sift-perm zero keep [] h = Perm.refl []
sift-perm zero keep (x ∷ xs) h = absurd (omega arith)
sift-perm (suc n) keep [] h = Perm.refl []
sift-perm (suc n) keep (x ∷ xs) h = elim (Bool-cases (keep x)) [
  | inl e ↦ rw e (Perm.cons x (sift-perm n keep xs (omega arith)))
  | inr e ↦ rw e (
      Perm.trans (sift-perm n keep (fill_from_end xs) (omega (arith, length-fill_from_end xs)))
        (kept-perm keep (fill_from_end xs) xs (fill_from_end-perm xs)))
]

-- Swapping the last entry into each gap keeps exactly the entries that pass the test.
keep_if-perm : {A : Type 0} (keep : A → Bool) (xs : List A) → Perm (keep_if keep xs) (kept keep xs)
unfolding keep_if
keep_if-perm keep xs = sift-perm (length xs) keep xs (omega arith)

kept-kept :
    {A : Type 0} (p q : A → Bool) (xs : List A) → kept q (kept p xs) ≡ kept (λ x. p x && q x) xs
kept-kept p q [] = refl
kept-kept p q (x ∷ xs) = ground (arith, kept-kept p q xs)

kept_ext :
    {A : Type 0} (p q : A → Bool) (xs : List A) → ((x : A) → p x ≡ q x) → kept p xs ≡ kept q xs
kept_ext p q [] h = refl
kept_ext p q (x ∷ xs) h = rw (h x, kept_ext p q xs h) refl

-- Two passes keep what passes both tests.
keep_if-kept-perm :
    {A : Type 0} (p q : A → Bool) (c xs : List A)
    → Perm c (kept p xs)
    → Perm (keep_if q c) (kept (λ x. p x && q x) xs)
keep_if-kept-perm p q c xs h =
    rw (← kept-kept p q xs) (Perm.trans (keep_if-perm q c) (kept-perm q c (kept p xs) h))

and_true : (b : Bool) → b && true ≡ b
and_true true = refl
and_true false = refl

and_assoc : (a b c : Bool) → (a && b) && c ≡ a && (b && c)
and_assoc true b c = refl
and_assoc false b c = refl

-- The package meets all global dependencies on its name.
abbrev pub meets_world : List Dep → ℕ → Pkg → Bool
meets_world [] i p = true
meets_world (d ∷ ds) i p = (not (d.name == i) || matches d p) && meets_world ds i p

world_loop-perm :
    (ds : List Dep) (i : ℕ) (test : Pkg → Bool) (c xs : List Pkg)
    → Perm c (kept test xs)
    → Perm (world_loop ds i c) (kept (λ p. test p && meets_world ds i p) xs)
unfolding world_loop
world_loop-perm [] i test c xs h =
    rw (kept_ext (λ p. test p && true) test xs (λ p. and_true (test p))) h
world_loop-perm (d ∷ ds) i test c xs h = elim (Bool-cases (d.name == i)) [
  | inl e ↦ rw e (
      rw
        (← kept_ext (λ p. (test p && matches d p) && meets_world ds i p)
          (λ p. test p && (matches d p && meets_world ds i p)) xs
          (λ p. and_assoc (test p) (matches d p) (meets_world ds i p)))
        (world_loop-perm ds i (λ p. test p && matches d p) (keep_if (matches d) c) xs
          (keep_if-kept-perm test (matches d) c xs h)))
  | inr e ↦ rw e (world_loop-perm ds i test c xs h)
]

take-length : {A : Type 0} (xs : List A) → take (length xs) xs ≡ xs
take-length [] = refl
take-length (x ∷ xs) = ap (λ l. x ∷ l) (take-length xs)

-- The candidates of a name that has packages, but fewer than 2^16, are, in some order, those of its packages that can be
-- installed and, unless the name overrides them, meet all global dependencies on the name.
pub candidates-perm :
    (db : Db) (i : ℕ)
    → length (name_at db i).pkgs ≢ 0
    → length (name_at db i).pkgs < 2 ^ 16
    → (c : List Pkg) × (candidates db i ≡ choices c)
      × Perm c (
          kept
            (λ p. installable p && ((name_at db i).toplevel_override || meets_world db.world i p))
            (name_at db i).pkgs)
unfolding candidates
candidates-perm db i h small =
    let pkgs = (name_at db i).pkgs in
    let some_pkgs : length pkgs == 0 ≡ false = ground arith in
    let c = keep_if installable pkgs in
    let fits : length pkgs % 2 ^ 16 ≡ length pkgs = omega arith in
    let whole : take (length pkgs % 2 ^ 16) pkgs ≡ pkgs =
      ap (λ n. take n pkgs) fits ∙ take-length pkgs in
    rw (whole, some_pkgs)
      (elim (Bool-cases (name_at db i).toplevel_override) [
        | inl e ↦ rw e (
          c,
          refl,
          rw
              (kept_ext (λ p. installable p && true) installable pkgs
                (λ p. and_true (installable p)))
              (keep_if-perm installable pkgs),
        )
        | inr e ↦ rw e (
          world_loop db.world i c,
          refl,
          world_loop-perm db.world i installable c pkgs (keep_if-perm installable pkgs),
        )
      ])

module _ (d : Dep) where
  -- All that the state allows for the name meets the dependency.
  abbrev pub Meets : NameState → Type 0
  Meets empty = ⊥
  Meets (visited (choices c)) = All (λ (p : Pkg). matches d p ≡ true) c
  Meets (visited (locked pending true p)) = ⊥
  Meets (visited (locked pending false none)) = d.mask ≡ conflict
  Meets (visited (locked pending false (some p))) = matches d p ≡ true

  settle-Meets :
      (db : Db) (s : State) (c : List Pkg)
      → d.name < length s.names
      → All (λ (p : Pkg). matches d p ≡ true) c
      → is_negative (settle db s d.name c).0 ≡ false
      → Meets (at (settle db s d.name c).1 d.name)
  unfolding settle
  settle-Meets db s [] h a n = cc
  settle-Meets db s (p ∷ []) h a n = elim (Bool-cases (is_available db p)) [
    | inl e ↦ rw e (rw (at-put_self s d.name (locked true false (some p)) h) a.0)
    | inr e ↦ let f : true ≡ false = rw e at n in cc
  ]
  settle-Meets db s (p ∷ q ∷ c) h a n = rw (at-put_self s d.name (choices (p ∷ q ∷ c)) h) a

  All-matches :
      (n : ℕ) (c : List Pkg) → All (λ (p : Pkg). matches d p ≡ true) (sift n (matches d) c)
  unfolding sift
  All-matches zero c = tt
  All-matches (suc n) [] = tt
  All-matches (suc n) (p ∷ c) = elim (Bool-cases (matches d p)) [
    | inl e ↦ rw e (e, All-matches n c)
    | inr e ↦ rw e (All-matches n (fill_from_end c))
  ]

  prune_visited-Meets :
      (db : Db) (s : State) (v : Visited)
      → d.name < length s.names
      → at s d.name ≡ visited v
      → is_negative (prune_visited db s d v).0 ≡ false
      → Meets (at (prune_visited db s d v).1 d.name)
  unfolding prune_visited keep_if
  prune_visited-Meets db s (choices c) h e n =
      settle-Meets db s (keep_if (matches d) c) h (All-matches (length c) c) n
  prune_visited-Meets db s (locked pending true p) h e n = cc
  prune_visited-Meets db s (locked pending false none) h e n =
      elim (Bool-cases (d.mask == conflict)) [
        | inl m ↦ let q : d.mask ≡ conflict = ground arith in rw (m, e) q
        | inr m ↦ absurd (ground arith)
      ]
  prune_visited-Meets db s (locked pending false (some p)) h e n = elim (Bool-cases (matches d p)) [
    | inl m ↦ rw m (rw e m)
    | inr m ↦ let f : true ≡ false = rw m at n in cc
  ]

  prune_at-Meets :
      (db : Db) (s : State) (x : NameState)
      → d.name < length s.names
      → at s d.name ≡ x
      → is_negative (prune_at db s d x).0 ≡ false
      → Meets (at (prune_at db s d x).1 d.name)
  unfolding prune_at
  prune_at-Meets db s (visited v) h e n = prune_visited-Meets db s v h e n
  prune_at-Meets db s empty h e n = elim (Bool-cases (d.mask == conflict)) [
    | inl m ↦
        let q : d.mask ≡ conflict = ground arith in
        rw (m, at-put_self s d.name (locked true false none) h) q
    | inr m ↦
        let v = candidates db d.name in
        let inside = length-set s.names d.name (visited v) in
        rw m (
          prune_visited-Meets db (put s d.name v) v (rw inside h) (at-put_self s d.name v h)
            (rw m at n))
  ]

  -- When `apk_state_prune_dependency` does not fail, all that the state then allows for the name
  -- meets the dependency: each candidate that is left, the package that is locked or chosen, or for
  -- no package a dependency that is a conflict. No state is excluded.
  pub prune_dependency-Meets :
      (db : Db) (s : State)
      → is_negative (prune_dependency db s d).0 ≡ false
      → Meets (at (prune_dependency db s d).1 d.name)
  unfolding prune_dependency
  prune_dependency-Meets db s n = elim (Bool-cases (leb (length s.names) d.name)) [
    | inl e ↦ let f : true ≡ false = rw e at n in cc
    | inr e ↦ rw e (prune_at-Meets db s (at s d.name) (ground arith) refl (rw e at n))
  ]
