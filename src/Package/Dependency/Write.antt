-- ===== src/Package/Dependency/Write.antt =====
-- Lists of dependencies are read back as they were written.
use mathlib.Core.List.{append_assoc, append-nil}
use native.Mathlib.Nat.{add-zero}
use arianna_method_anchor_pr.Prelude.{
  ℕ, ◌+◌, ◌≤◌, ◌≡◌, inl, inr, ap, ◌∙◌, Bool, true, false, Option, some, List, [], ◌∷◌, ◌++◌, ◌==◌,
  length, length-append, bytes, ℤ, pos, arith, Bool-cases,
}
use arianna_method_anchor_pr.Version.Compare.{op_string}
use arianna_method_anchor_pr.Blob.Cursor.{
  Cursor, buffer, pushed, IsValid, append_within, append_within_twice, push_blob-refines,
}
use arianna_method_anchor_pr.Package.Dependency.{
  Dependency, conflict, require, version_text, push_dep, entry_cursor, write_loop, deps_write,
}
use arianna_method_anchor_pr.Package.Dependency.Text.{
  Plain, dep_text, c_string-Terminated, Plain-Terminated,
}

-- Two pushes, where each keeps a valid buffer and appends its text.
abbrev Appends : ℕ → Option Cursor → Option Cursor → List ℕ → Type 0
Appends size o o' s = IsValid size o' × (pushed size o' ≡ append_within size (pushed size o) s)

Appends-trans :
    (size : ℕ) (o o' o'' : Option Cursor) (s t : List ℕ)
    → Appends size o o' s
    → Appends size o' o'' t
    → Appends size o o'' (s ++ t)
Appends-trans size o o' o'' s t (v, p) (w, q) = (
  w,
  q
      ∙ ap (λ (r : Option (List ℕ)). append_within size r t) p
      ∙ append_within_twice size (pushed size o) s t,
)

-- `apk_blob_push_dep` on a valid buffer keeps it valid and appends the text of the dependency, or
-- makes it NULL exactly when there is no room; a NULL buffer stays NULL.
pub push_dep-refines :
    (size : ℕ) (o : Option Cursor) (d : Dependency)
    → Plain d.name
    → IsValid size o
    → IsValid size (push_dep o d)
      × (pushed size (push_dep o d) ≡ append_within size (pushed size o) (dep_text d))
unfolding push_dep dep_text
push_dep-refines size o d plain v =
    let name = c_string-Terminated d.name (Plain-Terminated d.name plain) in
    rw name (elim (Bool-cases (d.mask == conflict)) [
      | inl e ↦
          let mark = push_blob-refines size o (bytes "!") v in
          rw e (
            Appends-trans size o _ _ (bytes "!") d.name mark
              (push_blob-refines size _ d.name mark.0))
      | inr e ↦ rw e (elim (Bool-cases (d.mask == require)) [
        | inl e' ↦ rw e' (push_blob-refines size o d.name v)
        | inr e' ↦
            let n = push_blob-refines size o d.name v in
            let p = push_blob-refines size _ (op_string d.mask) n.0 in
            let q = push_blob-refines size _ (version_text d.version) p.0 in
            rw e' (
              Appends-trans size o _ _ d.name _ n
                (Appends-trans size _ _ _ (op_string d.mask) _ p q))
      ])
    ])

-- The bytes that one entry adds: a space before each but the first.
unfoldable pub entry_text : Bool → Dependency → List ℕ
unfolding dep_text
entry_text true d = dep_text d
entry_text false d = bytes " " ++ dep_text d

abbrev pub Fits : ℕ → Bool → List Dependency → Type 0
Fits size is_first [] = Unit
Fits size is_first (d ∷ ds) =
    (Plain d.name × (length (entry_text is_first d) ≤ size)) × Fits size false ds

unfoldable pub entries_text : Bool → List Dependency → List ℕ
entries_text is_first [] = []
entries_text is_first (d ∷ ds) = entry_text is_first d ++ entries_text false ds

-- A stream that takes all that it is given.
abbrev pub collect : List ℕ → List ℕ → ℤ × List ℕ
collect out b = (pos (length b), out ++ b)

module _ (tmp : List ℕ) where
  buffer-IsValid : IsValid (length tmp) (buffer tmp)
  buffer-IsValid = omega arith

  pushed-buffer : pushed (length tmp) (buffer tmp) ≡ some []
  unfolding pushed
  pushed-buffer = ground arith

  pushed-entry :
      (is_first : Bool) (d : Dependency)
      → Plain d.name
      → pushed (length tmp) (entry_cursor tmp is_first d)
        ≡ append_within (length tmp) (some []) (entry_text is_first d)
  unfolding entry_cursor entry_text
  pushed-entry true d plain =
      rw (← pushed-buffer) (push_dep-refines (length tmp) (buffer tmp) d plain buffer-IsValid).1
  pushed-entry false d plain =
      let space = push_blob-refines (length tmp) (buffer tmp) (bytes " ") buffer-IsValid in
      rw (← pushed-buffer)
        (Appends-trans (length tmp) (buffer tmp) _ _ (bytes " ") (dep_text d) space
          (push_dep-refines (length tmp) _ d plain space.0)).1

  entry_fits :
      (is_first : Bool) (d : Dependency)
      → Plain d.name
      → length (entry_text is_first d) ≤ length tmp
      → pushed (length tmp) (entry_cursor tmp is_first d) ≡ some (entry_text is_first d)
  unfolding append_within
  entry_fits is_first d plain h = ground (arith, pushed-entry is_first d plain)

  write_loop-entries :
      (is_first : Bool) (n : ℕ) (ds : List Dependency) (out : List ℕ)
      → Fits (length tmp) is_first ds
      → write_loop collect tmp is_first n ds out
        ≡ (pos (n + length (entries_text is_first ds)), out ++ entries_text is_first ds)
  unfolding write_loop entries_text
  write_loop-entries is_first n [] out f = simp (append-nil, add-zero)
  write_loop-entries is_first n (d ∷ ds) out f =
      let e = entry_text is_first d in
      rw (entry_fits is_first d f.0.0 f.0.1, write_loop)
        (ground (
          arith,
          write_loop-entries false (n + length e) ds (out ++ e) f.1,
          length-append e (entries_text false ds),
          append_assoc out e (entries_text false ds),
        ))

  -- On a stream that takes all, `apk_deps_write` of entries that each fit in its buffer with their
  -- space writes their texts with a space between, and returns the number of bytes written.
  pub deps_write-entries :
      (ds : List Dependency)
      → Fits (length tmp) true ds
      → deps_write collect tmp ds [] ≡ (pos (length (entries_text true ds)), entries_text true ds)
  unfolding deps_write
  deps_write-entries ds f = write_loop-entries true 0 ds [] f ∙ ground arith
