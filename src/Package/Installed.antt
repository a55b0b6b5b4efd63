-- ===== src/Package/Installed.antt =====
-- apk-tools/src/package.c: the list of installed packages.
use arianna_method_anchor_pr.Prelude.{
  ℕ, ◌+◌, ◌-◌, ◌%◌, ◌^◌, ◌<◌, ◌≡◌, refl, Bool, true, false, ◌||◌, Option, none, some, List, [], ◌∷◌,
  ◌++◌, ◌==◌, if◌then◌else◌, replicate, arith,
}

-- `struct apk_installed_package`; the package is the one that it hangs on.
pub record Ipkg : Type 0 where
  pub triggers : List (List ℕ)
  pub pending_triggers : List (List ℕ)
  pub script : List (Option (List ℕ))

-- The lists of the database that a package is in, and its count. A package is named by the number
-- of its node.
pub record Lists : Type 0 where
  pub packages : List ℕ
  pub triggers : List ℕ
  pub count : ℕ

-- `list_del`
unfoldable pub unlink : ℕ → List ℕ → List ℕ
unlink p [] = []
unlink p (q ∷ qs) = let rest = unlink p qs in if p == q then qs else q ∷ rest

-- `apk_pkg_install`, with what `pkg->ipkg` is before and after. A package without a name is not
-- listed.
unfoldable pub pkg_install : Lists → ℕ → Bool → Option Ipkg → Lists × Option Ipkg
pkg_install db p has_name (some i) = (db, some i)
pkg_install db p has_name none =
    let i : Ipkg = record { triggers = []; pending_triggers = []; script = replicate 7 none } in
    if has_name
    then (record db { count = (db.count + 1) % 2 ^ 32; packages = db.packages ++ p ∷ [] }, some i)
    else (db, some i)

abbrev pub has_triggers : Ipkg → Bool
has_triggers i = elim i.triggers [ [] ↦ false | t ∷ ts ↦ true ]

-- `apk_pkg_uninstall`; `has_db` tells that its database is not NULL.
unfoldable pub pkg_uninstall : Bool → Lists → ℕ → Option Ipkg → Lists × Option Ipkg
unfolding unlink
pkg_uninstall has_db db p none = (db, none)
pkg_uninstall has_db db p (some i) = (
  record {
    packages = unlink p db.packages;
    triggers = if has_triggers i then unlink p db.triggers else db.triggers;
    count = if has_db then (db.count + (2 ^ 32 - 1)) % 2 ^ 32 else db.count;
  },
  none,
)

abbrev pub listed : ℕ → List ℕ → Bool
listed p [] = false
listed p (q ∷ qs) = p == q || listed p qs

unlink-last : (p : ℕ) (qs : List ℕ) → listed p qs ≡ false → unlink p (qs ++ p ∷ []) ≡ qs
unfolding unlink
unlink-last p [] h = ground arith
unlink-last p (q ∷ qs) h = ground (arith, unlink-last p qs)

-- Installing a package that is in no list and uninstalling it again leaves the lists and their count
-- as they were, and the package without its installation.
pub uninstall-install :
    (db : Lists) (p : ℕ)
    → listed p db.packages ≡ false
    → db.count < 2 ^ 32
    → let (db', i) = pkg_install db p true none in pkg_uninstall true db' p i ≡ (db, none)
unfolding pkg_install pkg_uninstall
uninstall-install db p h c =
    let count : ((db.count + 1) % 2 ^ 32 + (2 ^ 32 - 1)) % 2 ^ 32 ≡ db.count = omega arith in
    rw (unlink-last p db.packages h, count) refl
