-- ===== src/Package/Marks.antt =====
-- apk-tools/src/package.c: what reading an index entry does to the marks of the database.
use arianna_method_anchor_pr.Prelude.{
  ℕ, suc, ◌≡◌, ◌≢◌, refl, Bool, true, false, not, ◌&&◌, ◌||◌, Option, none, some, List, [], ◌∷◌,
  ◌==◌, length, arith, Option-cases, inl, inr, Bool-cases,
}
use arianna_method_anchor_pr.Blob.Slices.{for_each_segment}
use arianna_method_anchor_pr.Blob.Hex.{Access, ok, fault}
use arianna_method_anchor_pr.Blob.Checksum.{Checksum, pull_csum}
use arianna_method_anchor_pr.Package.Info.{
  Package, pkg_new, Reading, named, no_file, uninstallable, add_info, dropped, index_line,
  parse_index_entry, unknown_field, with_csum, with_name,
}
use arianna_method_anchor_pr.Blob.Segments.{Safe, each_segment-keeps}

abbrev pub is_uninstallable : Package → Bool
is_uninstallable p = elim p.filename [ no_file ↦ false | uninstallable ↦ true | named s ↦ false ]

abbrev pub implies : Bool → Bool → Bool
implies p q = not p || q

-- Marks are never taken back, and a package that cannot be installed leaves both.
abbrev pub Marked : Reading → Reading → Type 0
Marked r₀ r =
    (implies r₀.notinstallable r.notinstallable ≡ true)
    × (implies r₀.newfeatures r.newfeatures ≡ true)
    × (implies (is_uninstallable r.pkg) (r.notinstallable && r.newfeatures) ≡ true)

unknown_field-Marked : (r₀ r : Reading) (f : ℕ) → Marked r₀ r → Marked r₀ (unknown_field f r)
unfolding unknown_field
unknown_field-Marked r₀ r f h = ground arith

with_csum-Marked :
    (r₀ r : Reading) (a : Access (Option (List ℕ) × Checksum))
    → Marked r₀ r
    → Safe (Marked r₀) (dropped (with_csum r a))
with_csum-Marked r₀ r (ok (none, c)) h = h
with_csum-Marked r₀ r (ok (some s, c)) h = h
with_csum-Marked r₀ r fault h = tt

add_info-Marked :
    (r₀ r : Reading) (f : ℕ) (s : List ℕ)
    → Marked r₀ r
    → Safe (Marked r₀) (dropped (add_info r f s))
unfolding add_info
add_info-Marked r₀ r f s h =
    let c = with_csum-Marked r₀ r (pull_csum (some s) r.pkg.csum) h in
    let u = unknown_field-Marked r₀ r f h in ground arith

index_line-Marked :
    (r₀ : Reading) (a : Access Reading) (s : List ℕ)
    → Safe (Marked r₀) a
    → Safe (Marked r₀) (index_line a s).1
unfolding index_line
index_line-Marked r₀ fault s h = tt
index_line-Marked r₀ (ok r) [] h = h
index_line-Marked r₀ (ok r) (f ∷ []) h = h
index_line-Marked r₀ (ok r) (f ∷ x ∷ []) h = h
index_line-Marked r₀ (ok r) (f ∷ x ∷ c ∷ s) h =
    let a = add_info-Marked r₀ r f (c ∷ s) h in
    elim (Bool-cases (x == b':')) [ inl e ↦ rw e a | inr e ↦ rw e h ]

-- The package that is returned, if any, is the one that was read, and it has a name.
abbrev pub Returned : Option Package → Reading → Type 0
Returned none r = r.pkg.name ≡ none
Returned (some p) r = (p ≡ r.pkg) × (r.pkg.name ≢ none)

abbrev Outcome : Reading → Access (Option Package × Reading) → Type 0
Outcome r₀ (ok (o, r)) = Marked r₀ r × Returned o r
Outcome r₀ fault = Unit

with_name-Outcome :
    (r₀ : Reading) (a : Access Reading) → Safe (Marked r₀) a → Outcome r₀ (with_name a)
with_name-Outcome r₀ fault h = tt
with_name-Outcome r₀ (ok r) h = elim (Option-cases r.pkg.name) [
  | inl e ↦ rw e (h, e)
  | inr (n, e) ↦ rw e (h, (refl, λ q. absurd cc))
]

-- Reading an index entry never takes back a mark of the database, a package that cannot be
-- installed sets both marks, and the package is returned exactly if it has got a name.
pub parse_index_entry-Marked :
    (r₀ r : Reading) (s : List ℕ) (o : Option Package)
    → parse_index_entry r₀ s ≡ ok (o, r)
    → Marked r₀ r × Returned o r
unfolding parse_index_entry for_each_segment
parse_index_entry-Marked r₀ r s o h =
    let r₁ = record r₀ { pkg = pkg_new } in
    let m : Marked r₀ r₁ = ground arith in
    let k =
      each_segment-keeps (Safe (Marked r₀)) index_line b'\n' [] (index_line-Marked r₀)
        (suc (length s)) s (ok r₁) m in
    let w = with_name-Outcome r₀ _ k in rw h at w
