-- ===== src/Solver/Headings.antt =====
-- apk-tools/src/state.c: the four lists in which `apk_state_commit` shows the changes.
use arianna_method_anchor_pr.Prelude.{
  ℕ, ◌+◌, ◌≡◌, ◌≢◌, refl, Bool, true, false, Option, none, some, List, [], ◌∷◌, ◌==◌, if◌then◌else◌,
  length, arith, inl, inr,
}
use arianna_method_anchor_pr.Version.Order.{compare_blob-one}
use arianna_method_anchor_pr.Solver.{Pkg, Change}
use arianna_method_anchor_pr.Solver.Weight.{All}
use arianna_method_anchor_pr.Solver.Commit.{
  matched, cmp_remove, cmp_new, cmp_downgrade, cmp_upgrade, Verb, installing, purging, downgrading,
  upgrading, verb_of,
}

-- A change that installs, removes or replaces a package; the packages have versions, and a package
-- is not replaced by itself.
abbrev pub Shown : Option Pkg → Option Pkg → Type 0
Shown none none = ⊥
Shown none (some q) = Unit
Shown (some p) none = Unit
Shown (some p) (some q) =
    (p.id ≢ q.id) × ((a : List ℕ) × (p.version ≡ some a)) × ((b : List ℕ) × (q.version ≡ some b))

abbrev pub one : Bool → ℕ
one b = if b then 1 else 0

abbrev headings : Change → ℕ
headings c = one (cmp_remove c) + one (cmp_new c) + one (cmp_downgrade c) + one (cmp_upgrade c)

replace_once :
    (p q : Pkg)
    → Shown (some p) (some q)
    → headings (record { oldpkg = some p; newpkg = some q }) ≡ 1
unfolding cmp_remove cmp_new cmp_downgrade cmp_upgrade
replace_once p q (ne, (a, e), (b, f)) =
    let other : q.id == p.id ≡ false = ground arith in
    elim (compare_blob-one b a) [
      | inl c ↦ rw (e, f, c) refl
      | inr (inl c) ↦ rw (e, f, c, other) refl
      | inr (inr c) ↦ rw (e, f, c, other) refl
    ]

headings_once :
    (old new : Option Pkg) → Shown old new → headings (record { oldpkg = old; newpkg = new }) ≡ 1
unfolding cmp_remove cmp_new cmp_downgrade cmp_upgrade
headings_once none none h = absurd h
headings_once none (some q) h = refl
headings_once (some p) none h = refl
headings_once (some p) (some q) h = replace_once p q h

-- Every change is shown in one of the four lists, and in one only: what `dump_packages` counts for
-- removals, downgrades, new packages and upgrades adds up to the number of changes. Each change
-- installs, removes or replaces a package, the packages have versions, and no package is replaced by
-- itself.
pub matched_sum :
    (cs : List Change)
    → All (λ (c : Change). Shown c.oldpkg c.newpkg) cs
    → matched cmp_remove cs + matched cmp_new cs + matched cmp_downgrade cs + matched cmp_upgrade cs
      ≡ length cs
matched_sum [] h = omega arith
matched_sum (c ∷ cs) (h, a) = omega (arith, matched_sum cs a, headings_once c.oldpkg c.newpkg h)

abbrev is_purging : Verb → Bool
is_purging purging = true
is_purging v = false

abbrev is_installing : Verb → Bool
is_installing installing = true
is_installing v = false

abbrev is_downgrading : Verb → Bool
is_downgrading downgrading = true
is_downgrading v = false

abbrev is_upgrading : Verb → Bool
is_upgrading upgrading = true
is_upgrading v = false

-- The lists in which a change stands are those of its word.
abbrev pub Agrees : Change → Verb → Type 0
Agrees c v =
    (cmp_remove c ≡ is_purging v)
    × (cmp_new c ≡ is_installing v)
    × (cmp_downgrade c ≡ is_downgrading v)
    × (cmp_upgrade c ≡ is_upgrading v)

replace_word :
    (p q : Pkg)
    → Shown (some p) (some q)
    → Agrees (record { oldpkg = some p; newpkg = some q }) (verb_of (some p) (some q))
unfolding cmp_remove cmp_new cmp_downgrade cmp_upgrade verb_of
replace_word p q (ne, (a, e), (b, f)) =
    let other : q.id == p.id ≡ false = ground arith in
    elim (compare_blob-one b a) [
      | inl c ↦ rw (e, f, c) (refl, refl, refl, refl)
      | inr (inl c) ↦ rw (e, f, c, other) (refl, refl, refl, refl)
      | inr (inr c) ↦ rw (e, f, c, other) (refl, refl, refl, refl)
    ]

word-Agrees :
    (old new : Option Pkg)
    → Shown old new
    → Agrees (record { oldpkg = old; newpkg = new }) (verb_of old new)
unfolding cmp_remove cmp_new cmp_downgrade cmp_upgrade verb_of
word-Agrees none none h = absurd h
word-Agrees none (some q) h = (refl, refl, refl, refl)
word-Agrees (some p) none h = (refl, refl, refl, refl)
word-Agrees (some p) (some q) h = replace_word p q h

-- The word that `apk_print_change` shows for a change agrees with the list in which
-- `apk_state_commit` has shown it before: Purging with the removals, Installing with the new
-- packages, Downgrading with the downgrades and Upgrading with the upgrades. The change installs,
-- removes or replaces a package, the packages have versions, and no package is replaced by itself.
pub verb_of-Agrees : (c : Change) → Shown c.oldpkg c.newpkg → Agrees c (verb_of c.oldpkg c.newpkg)
verb_of-Agrees c h = word-Agrees c.oldpkg c.newpkg h
