-- ===== src/Solver/Weight.antt =====
-- apk-tools/src/state.c: how much a state still leaves to do, which bounds the depth of calls.
use mathlib.Core.Path.{subst}
use arianna_method_anchor_pr.Prelude.{
  ℕ, zero, suc, ◌+◌, ◌*◌, ◌≤◌, ◌<◌, ◌≡◌, refl, Bool, true, false, Option, none, some, List, [], ◌∷◌,
  ◌++◌, ◌==◌, if◌then◌else◌, length, get_or, set, arith, length-set, get_or-set_self, get_or-set_ne,
  Bool-cases, inl, inr, keep_if, sift, fill_from_end,
}
use arianna_method_anchor_pr.Solver.{
  Dep, Pkg, Db, Visited, choices, locked, NameState, empty, visited, Change, State, name_at, at,
  put,
}

abbrev pub All {ℓ κ} : {A : Type ℓ} → (A → Type κ) → List A → Type κ
All P [] = Unit
All P (x ∷ xs) = P x × All P xs

pub All-append {ℓ κ} :
    {A : Type ℓ} (P : A → Type κ) (xs ys : List A) → All P xs → All P ys → All P (xs ++ ys)
All-append P [] ys h k = k
All-append P (x ∷ xs) ys (p, h) k = (p, All-append P xs ys h k)

-- 2 for a name that is not decided, 1 for one that is locked to a package, 0 for one that is locked
-- to none.
abbrev pub weigh : NameState → ℕ
weigh (visited (locked false error none)) = 0
weigh (visited (locked false error (some p))) = 1
weigh s = 2

abbrev pub sum : List NameState → ℕ
sum [] = 0
sum (x ∷ xs) = weigh x + sum xs

abbrev pub weight : State → ℕ
weight s = sum s.names

weigh_bound : (x : NameState) → weigh x ≤ 2
weigh_bound empty = omega arith
weigh_bound (visited (choices c)) = omega arith
weigh_bound (visited (locked true e p)) = omega arith
weigh_bound (visited (locked false e none)) = omega arith
weigh_bound (visited (locked false e (some p))) = omega arith

sum_bound : (xs : List NameState) → sum xs ≤ 2 * length xs
sum_bound [] = omega arith
sum_bound (x ∷ xs) = omega (arith, weigh_bound x, sum_bound xs)

pub weight_bound : (s : State) → weight s ≤ 2 * length s.names
weight_bound s = sum_bound s.names

pub sum-set :
    (xs : List NameState) (i : ℕ) (v : NameState)
    → i < length xs
    → sum (set xs i v) + weigh (get_or xs i empty) ≡ sum xs + weigh v
sum-set [] i v h = absurd (omega arith)
sum-set (x ∷ xs) zero v h = omega arith
sum-set (x ∷ xs) (suc i) v h = omega (arith, sum-set xs i v (omega arith))

-- A name that has APK_NS_LOCKED.
abbrev pub is_locked : NameState → Bool
is_locked (visited (locked pending error p)) = true
is_locked (visited (choices c)) = false
is_locked empty = false

-- A package of the name `i`.
abbrev pub Of : ℕ → Option Pkg → Type 0
Of i none = Unit
Of i (some p) = p.name ≡ i

abbrev pub Fits : ℕ → NameState → Type 0
Fits i empty = Unit
Fits i (visited (choices c)) = All (λ (p : Pkg). p.name ≡ i) c
Fits i (visited (locked pending error p)) = Of i p

-- The names that the package depends on have a place in the state.
abbrev pub IsKnown : ℕ → Pkg → Type 0
IsKnown n p = All (λ (d : Dep). d.name < n) p.depends

-- The packages of each name have this name, and what depends on a name, or is a dependency of one of
-- its packages, has a place in the state.
abbrev pub IsClosed : ℕ → Db → Type 0
IsClosed n db =
    (i : ℕ)
    → All (λ (p : Pkg). p.name ≡ i) (name_at db i).pkgs
      × All (λ (j : ℕ). j < n) (name_at db i).rdepends
      × All (IsKnown n) (name_at db i).pkgs

-- Each name has only packages of this name.
abbrev pub IsSound : State → Type 0
IsSound s = (i : ℕ) → Fits i (at s i)

-- A change installs or removes something; a removed package has its dependencies in the state.
abbrev pub Real : ℕ → Option Pkg → Option Pkg → Type 0
Real n none none = ⊥
Real n none (some q) = Unit
Real n (some p) q = IsKnown n p

abbrev pub AllReal : ℕ → List Change → Type 0
AllReal n cs = All (λ (c : Change). Real n c.oldpkg c.newpkg) cs

-- Changes are only added at the end.
abbrev pub Extends : List Change → List Change → Type 0
Extends xs ys = (zs : List Change) × (ys ≡ xs ++ zs)

append-append : (xs ys zs : List Change) → (xs ++ ys) ++ zs ≡ xs ++ (ys ++ zs)
append-append [] ys zs = refl
append-append (x ∷ xs) ys zs = rw (append-append xs ys zs) refl

append-empty : (xs : List Change) → xs ≡ xs ++ []
append-empty [] = refl
append-empty (x ∷ xs) = rw (← append-empty xs) refl

pub Extends-refl : (xs : List Change) → Extends xs xs
Extends-refl xs = ([], append-empty xs)

pub Extends-trans : (xs ys zs : List Change) → Extends xs ys → Extends ys zs → Extends xs zs
Extends-trans xs ys zs (us, e) (vs, f) = (us ++ vs, rw (f, e) (append-append xs us vs))

-- What every part of the solver does to a state: names are not added, what is left to do does not
-- grow, not even with the changes that are noted, and a locked name stays locked.
abbrev pub Later : State → State → Type 0
Later s s' =
    (length s'.names ≡ length s.names)
    × (weight s' ≤ weight s)
    × (weight s' + length s'.changes ≤ weight s + length s.changes)
    × ((i : ℕ) → is_locked (at s i) ≡ true → is_locked (at s' i) ≡ true)
    × IsSound s'
    × (AllReal (length s.names) s.changes → AllReal (length s'.names) s'.changes)
    × Extends s.changes s'.changes

pub Later-refl : (s : State) → IsSound s → Later s s
Later-refl s h = (refl, omega arith, omega arith, λ i e. e, h, λ r. r, Extends-refl s.changes)

pub Later-trans : (s t u : State) → Later s t → Later t u → Later s u
Later-trans s t u (n, w, b, k, _, r, x) (n', w', b', k', h, r', y) = (
  omega arith,
  omega arith,
  omega arith,
  λ i e. k' i (k i e),
  h,
  λ a. r' (r a),
  Extends-trans s.changes t.changes u.changes x y,
)

pub at-put :
    (s : State) (i j : ℕ) (v : Visited)
    → i < length s.names
    → at (put s i v) j ≡ (if i == j then visited v else at s j)
at-put s i j v h = elim (Bool-cases (i == j)) [
  | inl e ↦
      let same : i ≡ j = ground arith in
      rw (e, ← same) (get_or-set_self s.names i (visited v) empty h)
  | inr e ↦ rw e (get_or-set_ne s.names i j (visited v) empty (λ (q : i ≡ j). ground arith))
]

pub at-put_self :
    (s : State) (i : ℕ) (v : Visited) → i < length s.names → at (put s i v) i ≡ visited v
at-put_self s i v h = get_or-set_self s.names i (visited v) empty h

-- A write that decides no less keeps what a later state has.
pub put-IsSound :
    (s : State) (i : ℕ) (v : Visited)
    → i < length s.names
    → Fits i (visited v)
    → IsSound s
    → IsSound (put s i v)
put-IsSound s i v h f sound j = rw (at-put s i j v h) (elim (Bool-cases (i == j)) [
  | inl e ↦ let same : i ≡ j = ground arith in rw e (subst (λ (k : ℕ). Fits k (visited v)) same f)
  | inr e ↦ rw e (sound j)
])

pub put-keeps :
    (s : State) (i : ℕ) (v : Visited)
    → i < length s.names
    → (is_locked (at s i) ≡ true → is_locked (visited v) ≡ true)
    → (j : ℕ) → is_locked (at s j) ≡ true
    → is_locked (at (put s i v) j) ≡ true
put-keeps s i v h k j l = rw (at-put s i j v h) (elim (Bool-cases (i == j)) [
  | inl e ↦ let same : i ≡ j = ground arith in rw e (k (rw same l))
  | inr e ↦ rw e l
])

pub put-Later :
    (s : State) (i : ℕ) (v : Visited)
    → i < length s.names
    → Fits i (visited v)
    → weigh (visited v) ≤ weigh (at s i)
    → (is_locked (at s i) ≡ true → is_locked (visited v) ≡ true)
    → IsSound s
    → Later s (put s i v)
put-Later s i v h f w k sound =
    let e = sum-set s.names i (visited v) h in
    (
      length-set s.names i (visited v),
      omega arith,
      omega arith,
      put-keeps s i v h k,
      put-IsSound s i v h f sound,
      λ r. rw (length-set s.names i (visited v)) r,
      Extends-refl s.changes,
    )

module _ {ℓ κ} {A : Type ℓ} (P : A → Type κ) where
  All-fill_from_end : (x : A) (xs : List A) → P x → All P xs → All P (fill_from_end (x ∷ xs))
  unfolding fill_from_end
  All-fill_from_end x [] p h = (p, tt)
  All-fill_from_end x (y ∷ ys) p (q, h) = let (l, r) = All-fill_from_end y ys q h in (l, (p, r))

  All-fill : (xs : List A) → All P xs → All P (fill_from_end xs)
  unfolding fill_from_end
  All-fill [] h = tt
  All-fill (x ∷ xs) (p, h) = All-fill_from_end x xs p h

  All-sift : (n : ℕ) (keep : A → Bool) (xs : List A) → All P xs → All P (sift n keep xs)
  unfolding sift
  All-sift zero keep xs h = tt
  All-sift (suc n) keep [] h = tt
  All-sift (suc n) keep (x ∷ xs) (p, h) = elim (Bool-cases (keep x)) [
    | inl e ↦ rw e (p, All-sift n keep xs h)
    | inr e ↦ rw e (All-sift n keep (fill_from_end xs) (All-fill xs h))
  ]

  pub All-keep_if : (keep : A → Bool) (xs : List A) → All P xs → All P (keep_if keep xs)
  unfolding keep_if
  All-keep_if keep xs h = All-sift (length xs) keep xs h
