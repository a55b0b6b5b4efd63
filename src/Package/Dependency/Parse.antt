-- ===== src/Package/Dependency/Parse.antt =====
-- A written list of dependencies is parsed back.
use mathlib.Core.List.{append_assoc, append-nil}
use arianna_method_anchor_pr.Prelude.{
  ℕ, ◌≡◌, ◌≢◌, refl, sym, ap, ◌∙◌, true, false, some, List, [], ◌∷◌, ◌++◌, map, ℤ, pos, arith,
}
use arianna_method_anchor_pr.Blob.Slices.{ends_with, for_each_segment}
use arianna_method_anchor_pr.Blob.Split.{
  Apart, joined, Items, run_items, last_item, for_each_segment-Items,
}
use arianna_method_anchor_pr.Package.Dependency.{
  Dependency, dep_from_blob, parse_depend, chop, deps_parse,
}
use arianna_method_anchor_pr.Package.Dependency.Text.{
  IsDependency, dep_text, dep_from_blob-dep_text,
}
use arianna_method_anchor_pr.Package.Dependency.Write.{entry_text, entries_text}

-- A dependency whose text is one line without spaces, and not empty.
pub record IsEntry (d : Dependency) : Type 0 where
  pub well_formed : IsDependency d
  pub no_space : Apart b' ' (dep_text d)
  pub no_newline : Apart b'\n' (dep_text d)
  pub not_empty : dep_text d ≢ []

abbrev pub Entries : List Dependency → Type 0
Entries [] = Unit
Entries (d ∷ ds) = IsEntry d × Entries ds

-- All but the last of `d ∷ ds`, and the last.
abbrev front : Dependency → List Dependency → List Dependency
front d [] = []
front d (e ∷ ds) = d ∷ front e ds

abbrev final : Dependency → List Dependency → Dependency
final d [] = d
final d (e ∷ ds) = final e ds

entries_text-joined :
    (d : Dependency) (ds : List Dependency)
    → entries_text true (d ∷ ds) ≡ joined b' ' (map dep_text (front d ds)) ++ dep_text (final d ds)
unfolding entries_text entry_text
entries_text-joined d [] = append-nil (dep_text d)
entries_text-joined d (e ∷ ds) =
    ap (λ t. dep_text d ++ b' ' ∷ t) (entries_text-joined e ds)
    ∙ sym (append_assoc (dep_text d) _ (dep_text (final e ds)))

front-Items :
    (d : Dependency) (ds : List Dependency)
    → Entries (d ∷ ds)
    → Items b' ' (map dep_text (front d ds)) × IsEntry (final d ds)
front-Items d [] h = (tt, h.0)
front-Items d (e ∷ ds) h = let (a, b) = front-Items e ds h.1 in ((h.0.no_space, a), b)

parse_depend-some :
    (d : Dependency) (acc : List Dependency) (s : List ℕ)
    → dep_from_blob s ≡ some d
    → s ≢ []
    → parse_depend acc s ≡ (pos 0, acc ++ d ∷ [])
unfolding parse_depend
parse_depend-some d acc [] e ne = absurd (ne refl)
parse_depend-some d acc (c ∷ s) e ne = rw (e, parse_depend) refl

parse_depend-entry :
    (d : Dependency) (acc : List Dependency)
    → IsEntry d
    → parse_depend acc (dep_text d) ≡ (pos 0, acc ++ d ∷ [])
parse_depend-entry d acc h =
    parse_depend-some d acc (dep_text d) (dep_from_blob-dep_text d h.well_formed) h.not_empty

last_item-some : (s : List ℕ) → s ≢ [] → last_item s ≡ s ∷ []
last_item-some [] h = absurd (h refl)
last_item-some (c ∷ s) h = refl

run_items-Entries :
    (d : Dependency) (ds acc : List Dependency)
    → Entries (d ∷ ds)
    → run_items parse_depend (map dep_text (front d ds) ++ last_item (dep_text (final d ds))) acc
      ≡ (pos 0, acc ++ d ∷ ds)
unfolding run_items
run_items-Entries d [] acc h =
    rw (last_item-some (dep_text d) h.0.not_empty, run_items)
      (rw (parse_depend-entry d acc h.0) refl)
run_items-Entries d (e ∷ ds) acc h = rw (parse_depend-entry d acc h.0) (
    run_items-Entries e ds (acc ++ d ∷ []) h.1
    ∙ ap (λ (l : List Dependency). (pos 0, l)) (append_assoc acc (d ∷ []) (e ∷ ds)))

ends_with-append : (x : ℕ) (p s : List ℕ) → s ≢ [] → ends_with x (p ++ s) ≡ ends_with x s
unfolding ends_with
ends_with-append x [] s h = refl
ends_with-append x (c ∷ []) [] h = absurd (h refl)
ends_with-append x (c ∷ []) (d ∷ s) h = refl
ends_with-append x (c ∷ d ∷ p) s h = ends_with-append x (d ∷ p) s h

ends_with-Apart : (x : ℕ) (s : List ℕ) → Apart x s → ends_with x s ≡ false
unfolding ends_with
ends_with-Apart x [] a = refl
ends_with-Apart x (c ∷ []) a = ground arith
ends_with-Apart x (c ∷ d ∷ s) a = ends_with-Apart x (d ∷ s) a.1

chop-Entries :
    (d : Dependency) (ds : List Dependency)
    → Entries (d ∷ ds)
    → chop (entries_text true (d ∷ ds)) ≡ entries_text true (d ∷ ds)
unfolding chop
chop-Entries d ds h =
    let last = (front-Items d ds h).1 in
    let text = dep_text (final d ds) in
    rw (entries_text-joined d ds) (
      rw
        (ends_with-append b'\n' (joined b' ' (map dep_text (front d ds))) text last.not_empty
          ∙ ends_with-Apart b'\n' text last.no_newline)
        refl)

-- `apk_deps_parse` takes back, in order and behind those that the array holds already, every
-- dependency of a text that `apk_deps_write` writes, if each has a text of one line without spaces.
pub deps_parse-entries_text :
    (d : Dependency) (ds old : List Dependency)
    → Entries (d ∷ ds)
    → deps_parse old (entries_text true (d ∷ ds)) ≡ old ++ d ∷ ds
unfolding deps_parse
deps_parse-entries_text d ds old h =
    let (items, last) = front-Items d ds h in
    ap (λ (t : List ℕ). (for_each_segment parse_depend b' ' [] t old).1)
      (chop-Entries d ds h ∙ entries_text-joined d ds)
    ∙ ap (λ (r : ℤ × List Dependency). r.1)
        (for_each_segment-Items parse_depend b' ' (map dep_text (front d ds))
            (dep_text (final d ds)) old items last.no_space
          ∙ run_items-Entries d ds old h)
