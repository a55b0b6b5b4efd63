-- ===== src/Package/Dependency/Array.antt =====
-- apk-tools/src/package.c: `apk_deps_add` and `apk_deps_del`, and what they leave in the array.
use mathlib.Core.List.{Perm}
use mathlib.Core.List.Perm
use arianna_method_anchor_pr.Prelude.{
  ℕ, ◌+◌, ◌≡◌, ◌↔◌, refl, Bool, true, false, ◌&&◌, Option, none, some, List, [], ◌∷◌, ◌==◌,
  if◌then◌else◌, arith, Bool-cases, fill_from_end, fill_from_end-perm, inl, inr,
}
use arianna_method_anchor_pr.Package.Dependency.{Dependency}

-- Two names are one `struct apk_name` if their bytes are the same.
unfoldable pub same_name : List ℕ → List ℕ → Bool
same_name [] [] = true
same_name (a ∷ s) (b ∷ t) = a == b && same_name s t
same_name _ _ = false

same_name_refl : (s : List ℕ) → same_name s s ≡ true
unfolding same_name
same_name_refl [] = refl
same_name_refl (c ∷ s) = ground (arith, same_name_refl s)

same_name_sound : (s t : List ℕ) → same_name s t ≡ true → s ≡ t
unfolding same_name
same_name_sound [] [] h = refl
same_name_sound [] (b ∷ t) h = ground arith
same_name_sound (a ∷ s) [] h = ground arith
same_name_sound (a ∷ s) (b ∷ t) h = ground (arith, same_name_sound s t)

same_name_iff : (s t : List ℕ) → (same_name s t ≡ true) ↔ (s ≡ t)
same_name_iff s t = (same_name_sound s t, λ e. rw (← e) (same_name_refl s))

-- The first entry with the name is overwritten; without one the entry goes to the end.
unfoldable pub deps_add : List Dependency → Dependency → List Dependency
unfolding same_name
deps_add [] dep = dep ∷ []
deps_add (d ∷ ds) dep = if same_name d.name dep.name then dep ∷ ds else d ∷ deps_add ds dep

unfoldable pub deps_del : List Dependency → List ℕ → List Dependency
unfolding same_name fill_from_end
deps_del [] name = []
deps_del (d ∷ ds) name = if same_name d.name name then fill_from_end ds else d ∷ deps_del ds name

-- The first entry with a name.
unfoldable pub find_dep : List Dependency → List ℕ → Option Dependency
find_dep [] name = none
find_dep (d ∷ ds) name = if same_name d.name name then some d else find_dep ds name

-- After `apk_deps_add` the first entry with the name is the new one, and the first entry with any
-- other name is what it was.
pub find_dep-deps_add :
    (ds : List Dependency) (dep : Dependency) (name : List ℕ)
    → find_dep (deps_add ds dep) name
      ≡ (if same_name dep.name name then some dep else find_dep ds name)
unfolding find_dep deps_add
find_dep-deps_add [] dep name = refl
find_dep-deps_add (d ∷ ds) dep name = ground (
  arith,
  same_name_iff d.name dep.name,
  same_name_iff dep.name name,
  same_name_iff d.name name,
  find_dep-deps_add ds dep name,
)

unfoldable pub how_many : List Dependency → List ℕ → ℕ
how_many [] name = 0
how_many (d ∷ ds) name = (if same_name d.name name then 1 else 0) + how_many ds name

-- `apk_deps_add` never makes a second entry with a name: a name has as many entries as before, or
-- one if it is the new entry's and had none.
pub how_many-deps_add :
    (ds : List Dependency) (dep : Dependency) (name : List ℕ)
    → how_many (deps_add ds dep) name
      ≡ (if same_name dep.name name && how_many ds name == 0 then 1 else how_many ds name)
unfolding how_many deps_add
how_many-deps_add [] dep name = ground arith
how_many-deps_add (d ∷ ds) dep name = ground (
  arith,
  same_name_iff d.name dep.name,
  same_name_iff dep.name name,
  same_name_iff d.name name,
  how_many-deps_add ds dep name,
)

-- If the array has an entry with the name, `apk_deps_del` takes out the first of these and keeps
-- all the others, in some order.
pub deps_del-perm :
    (ds : List Dependency) (name : List ℕ) (d : Dependency)
    → find_dep ds name ≡ some d
    → Perm (d ∷ deps_del ds name) ds
unfolding find_dep deps_del
deps_del-perm [] name d h = cc
deps_del-perm (e ∷ ds) name d h = elim (Bool-cases (same_name e.name name)) [
  | inl hit ↦
      let first : e ≡ d = ground arith in rw (hit, ← first) (Perm.cons e (fill_from_end-perm ds))
  | inr miss ↦
      let later : find_dep ds name ≡ some d = ground arith in
      rw miss (Perm.trans (Perm.swap _ _ _) (Perm.cons e (deps_del-perm ds name d later)))
]

deps_del-none :
    (ds : List Dependency) (name : List ℕ) → find_dep ds name ≡ none → deps_del ds name ≡ ds
unfolding find_dep deps_del
deps_del-none [] name h = refl
deps_del-none (e ∷ ds) name h = ground (arith, deps_del-none ds name)
