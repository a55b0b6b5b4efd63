-- ===== src/Database/Links.antt =====
-- Which names depend on a name, as `apk_db_pkg_rdepends` records it.
use mathlib.Core.Path.{fun_ext}
use arianna_method_anchor_pr.Prelude.{
  ℕ, ◌<◌, ◌≡◌, refl, ap, ◌∙◌, Bool, true, false, not, ◌&&◌, ◌||◌, Bool-cases, List, [], ◌∷◌, ◌++◌,
  arith, ltb, ◌==◌, if◌then◌else◌, length, length-set, get_or-set_self, get_or-set_ne, if_either,
  inl, inr,
}
use arianna_method_anchor_pr.Database.Names.{Links, no_links}
use arianna_method_anchor_pr.Database.Packages.{is_listed, rdepends_at, add_rdepend, pkg_rdepends}

-- Those that depend on the name `j` after `n` was added at `i`.
rdepends-add_rdepend :
    (links : List Links) (i j n : ℕ)
    → i < length links
    → rdepends_at (add_rdepend links i n) j
      ≡ (if i == j then rdepends_at links j ++ n ∷ [] else rdepends_at links j)
rdepends-add_rdepend links i j n h = elim (Bool-cases (i == j)) [
  | inl e ↦
      let same : i ≡ j = ground arith in
      rw (e, ← same) (ap (λ (l : Links). l.rdepends) (get_or-set_self links i _ no_links h))
  | inr e ↦
      rw e (ap (λ (l : Links). l.rdepends) (get_or-set_ne links i j _ no_links (λ p. ground arith)))
]

is_listed-append : (n m : ℕ) (xs : List ℕ) → is_listed n (xs ++ m ∷ []) ≡ (is_listed n xs || m == n)
unfolding is_listed
is_listed-append n m [] = ground arith
is_listed-append n m (x ∷ xs) = ground (arith, is_listed-append n m xs)

-- No entry stands twice.
abbrev pub no_repeats : List ℕ → Bool
no_repeats [] = true
no_repeats (x ∷ xs) = not (is_listed x xs) && no_repeats xs

no_repeats-append :
    (n : ℕ) (xs : List ℕ)
    → no_repeats xs ≡ true
    → is_listed n xs ≡ false
    → no_repeats (xs ++ n ∷ []) ≡ true
unfolding is_listed
no_repeats-append n [] h k = refl
no_repeats-append n (x ∷ xs) h k = ground (arith, no_repeats-append n xs, is_listed-append x n xs)

-- The dependencies before the first for which `listed` holds or that stands a second time.
abbrev pub before : (ℕ → Bool) → List ℕ → List ℕ
before listed [] = []
before listed (d ∷ ds) =
    let rest = before (λ j. d == j || listed j) ds in if listed d then [] else d ∷ rest

-- Nothing for which it holds comes before the first such dependency.
before-skips :
    (listed : ℕ → Bool) (ds : List ℕ) (j : ℕ)
    → listed j ≡ true
    → is_listed j (before listed ds) ≡ false
unfolding is_listed
before-skips listed [] j h = refl
before-skips listed (d ∷ ds) j h = ground (arith, before-skips (λ j. d == j || listed j) ds j)

-- The names that list `n`.
abbrev pub lists : List Links → ℕ → ℕ → Bool
lists links n j = is_listed n (rdepends_at links j)

lists-add_rdepend :
    (links : List Links) (d n : ℕ)
    → d < length links
    → lists (add_rdepend links d n) n ≡ (λ j. d == j || lists links n j)
lists-add_rdepend links d n h = fun_ext λ j.
    rw (rdepends-add_rdepend links d j n h) (elim (Bool-cases (d == j)) [
      | inl e ↦ rw (e, is_listed-append) (ground arith)
      | inr e ↦ rw e refl
    ])

-- All entries are nodes of names.
abbrev pub nodes_in : ℕ → List ℕ → Bool
nodes_in size [] = true
nodes_in size (d ∷ ds) = ltb d size && nodes_in size ds

add_once :
    (b c : Bool) (xs : List ℕ) (n : ℕ)
    → (c ≡ true → b ≡ false)
    → (if b then (if c then xs ++ n ∷ [] else xs) ++ n ∷ [] else if c then xs ++ n ∷ [] else xs)
      ≡ (if c || b then xs ++ n ∷ [] else xs)
add_once true true xs n h = absurd (let z = h refl in ground arith)
add_once true false xs n h = refl
add_once false true xs n h = refl
add_once false false xs n h = refl

-- `apk_db_pkg_rdepends` of a package with the name `n`, whose dependencies have nodes, puts `n` at the
-- end of what depends on each name before the first dependency that lists `n` already or stands a
-- second time, and changes no other list: the dependencies behind that one are left out.
pub rdepends-pkg_rdepends :
    (links : List Links) (n : ℕ) (ds : List ℕ) (j : ℕ)
    → nodes_in (length links) ds ≡ true
    → rdepends_at (pkg_rdepends links n ds) j ≡ (
        if is_listed j (before (lists links n) ds)
        then rdepends_at links j ++ n ∷ []
        else rdepends_at links j)
unfolding pkg_rdepends is_listed
rdepends-pkg_rdepends links n [] j h = refl
rdepends-pkg_rdepends links n (d ∷ ds) j h = elim (Bool-cases (lists links n d)) [
  | inl e ↦ rw e refl
  | inr e ↦
      let more = λ (k : ℕ). d == k || lists links n k in
      let ih =
        rdepends-pkg_rdepends (add_rdepend links d n) n ds j (rw length-set (ground arith)) in
      rw e (
        rw
          (
            lists-add_rdepend links d n (ground arith),
            rdepends-add_rdepend links d j n (ground arith),
          )
          at ih
        ∙ add_once (is_listed j (before more ds)) (d == j) (rdepends_at links j) n
            (λ same. before-skips more ds j (ground arith)))
]

-- The test holds for no entry.
abbrev pub none_of : (ℕ → Bool) → List ℕ → Bool
none_of test [] = true
none_of test (d ∷ ds) = not (test d) && none_of test ds

none_of-more :
    (test : ℕ → Bool) (d : ℕ) (ds : List ℕ)
    → none_of test ds ≡ true
    → is_listed d ds ≡ false
    → none_of (λ j. d == j || test j) ds ≡ true
unfolding is_listed
none_of-more test d [] h k = refl
none_of-more test d (x ∷ ds) h k = ground (arith, none_of-more test d ds)

before-all :
    (listed : ℕ → Bool) (ds : List ℕ)
    → none_of listed ds ≡ true
    → no_repeats ds ≡ true
    → before listed ds ≡ ds
before-all listed [] h k = refl
before-all listed (d ∷ ds) h k =
    ground (arith, before-all (λ j. d == j || listed j) ds, none_of-more listed d ds)

-- If the dependencies are different and none of their names lists `n` yet, `n` is added to what
-- depends on each of them, and to nothing else.
pub rdepends_complete :
    (links : List Links) (n : ℕ) (ds : List ℕ) (j : ℕ)
    → nodes_in (length links) ds ≡ true
    → none_of (lists links n) ds ≡ true
    → no_repeats ds ≡ true
    → rdepends_at (pkg_rdepends links n ds) j
      ≡ (if is_listed j ds then rdepends_at links j ++ n ∷ [] else rdepends_at links j)
rdepends_complete links n ds j h k r =
    rdepends-pkg_rdepends links n ds j h ∙ rw (before-all (lists links n) ds k r) refl

-- Adding a package never makes a name stand twice among those that depend on a name.
pub rdepends-no_repeats :
    (links : List Links) (n : ℕ) (ds : List ℕ) (j : ℕ)
    → nodes_in (length links) ds ≡ true
    → no_repeats (rdepends_at links j) ≡ true
    → no_repeats (rdepends_at (pkg_rdepends links n ds) j) ≡ true
rdepends-no_repeats links n ds j h r =
    rw (rdepends-pkg_rdepends links n ds j h) (elim (Bool-cases (lists links n j)) [
      | inl e ↦ rw (before-skips (lists links n) ds j e) r
      | inr e ↦
          if_either (λ (l : List ℕ). no_repeats l ≡ true) (is_listed j (before (lists links n) ds))
            (rdepends_at links j ++ n ∷ []) (rdepends_at links j)
            (no_repeats-append n (rdepends_at links j) r e) r
    ])
