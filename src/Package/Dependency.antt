-- ===== src/Package/Dependency.antt =====
-- apk-tools/src/package.c: dependencies, parsed from text, kept in arrays and written.
pub mod Text
pub mod Write
pub mod Parse
pub mod Array
use Prim.Native.Nat.{bit_or, bit_and}
use arianna_method_anchor_pr.Prelude.{
  ℕ, zero, suc, ◌+◌, ◌-◌, Bool, true, false, not, ◌&&◌, Option, none, some, List, [], ◌∷◌, ◌++◌,
  ◌==◌, if◌then◌else◌, length, replicate, bytes, ℤ, pos, negsuc, int_eq,
}
use arianna_method_anchor_pr.Version.Compare.{equal, less, greater, op_string, validate}
use arianna_method_anchor_pr.Blob.Slices.{spn, cspn, cstr, c_string, ends_with, for_each_segment}
use arianna_method_anchor_pr.Blob.Cursor.{Cursor, buffer, push_blob, pushed}

abbrev pub require : ℕ
require = bit_or equal (bit_or less greater)

abbrev pub conflict : ℕ
conflict = 0

-- `struct apk_dependency`. The database keeps one `struct apk_name` for each name, so that a
-- pointer to it is the same as the name's bytes.
pub record Dependency : Type 0 where
  pub name : List ℕ
  pub mask : ℕ
  pub version : Option (List ℕ)

-- `none` is -EINVAL.
abbrev pub operators : List ℕ
operators = bytes "<>="

-- The loop over the operator's characters.
unfoldable pub op_mask : ℕ → List ℕ → ℕ
op_mask mask [] = mask
op_mask mask (c ∷ s) =
    op_mask
      (if c == b'<'
        then bit_or mask less
        else if c == b'>'
        then bit_or mask greater
        else if c == b'='
        then bit_or mask equal
        else mask)
      s

-- The name, and what `spn` makes of the text from the operator on.
versioned : List ℕ → Option (List ℕ × List ℕ) → Option Dependency
unfolding op_mask validate cstr
versioned name none = none
versioned name (some (op, ver)) =
    let mask = op_mask 0 op in
    if bit_and mask (bit_or less greater) == bit_or less greater
    then none
    else if validate ver
    then some (record { name = name; mask = mask; version = some (cstr ver) })
    else none

-- The text behind a `!`, if there is one, with the mask that this gives.
from_name : ℕ → List ℕ → Option (List ℕ × List ℕ) → Option Dependency
unfolding versioned spn
from_name mask s none = some (record { name = s; mask = mask; version = none })
from_name mask s (some (name, op)) = if mask == 0 then none else versioned name (spn op operators)

unfoldable pub dep_from_blob : List ℕ → Option Dependency
unfolding from_name cspn
dep_from_blob [] = from_name require [] (cspn [] operators)
dep_from_blob (c ∷ s) =
    if c == b'!'
    then from_name 0 s (cspn s operators)
    else from_name require (c ∷ s) (cspn (c ∷ s) operators)

-- The callback of `apk_deps_parse`; `ctx` is the array.
unfoldable pub parse_depend : List Dependency → List ℕ → ℤ × List Dependency
parse_depend deps [] = (pos 0, deps)
parse_depend deps (c ∷ s) = elim (dep_from_blob (c ∷ s)) [
  | none ↦ (negsuc 0, deps)
  | some d ↦ (pos 0, deps ++ d ∷ [])
]

-- Without its last byte.
unfoldable pub but_last : List ℕ → List ℕ
but_last [] = []
but_last (c ∷ []) = []
but_last (c ∷ d ∷ s) = c ∷ but_last (d ∷ s)

-- `blob.len--` for a newline at the end.
unfoldable pub chop : List ℕ → List ℕ
unfolding ends_with but_last
chop s = if ends_with b'\n' s then but_last s else s

unfoldable pub deps_parse : List Dependency → List ℕ → List Dependency
deps_parse deps s = (for_each_segment parse_depend b' ' [] (chop s) deps).1

-- `dep->version` is a C string; NULL is an empty blob.
abbrev pub version_text : Option (List ℕ) → List ℕ
version_text none = []
version_text (some v) = c_string v

unfoldable pub push_dep : Option Cursor → Dependency → Option Cursor
unfolding push_blob op_string c_string
push_dep to d =
    let to₁ = if d.mask == conflict then push_blob to (bytes "!") else to in
    let to₂ = push_blob to₁ (c_string d.name) in
    if d.mask == conflict
    then to₂
    else if d.mask == require
    then to₂
    else push_blob (push_blob to₂ (op_string d.mask)) (version_text d.version)

-- The buffer `tmp` with one entry; its old contents are never read.
unfoldable pub entry_cursor : List ℕ → Bool → Dependency → Option Cursor
unfolding push_dep push_blob
entry_cursor tmp is_first d =
    push_dep (if is_first then buffer tmp else push_blob (buffer tmp) (bytes " ")) d

-- `apk_deps_write` on a stream `put`, which returns how much it took. An entry that does not fit in
-- the buffer is an error.
module _ {S : Type 0} (put : S → List ℕ → ℤ × S) (tmp : List ℕ) where
  pub write_loop : Bool → ℕ → List Dependency → S → ℤ × S
  write_loop is_first n [] s = (pos n, s)
  write_loop is_first n (d ∷ ds) s = elim (pushed (length tmp) (entry_cursor tmp is_first d)) [
    | none ↦ (negsuc 0, s)
    | some b ↦
        let (rc, s') = put s b in
        let rest = write_loop false (n + length b) ds s' in
        if int_eq rc (pos (length b)) then rest else (negsuc 0, s')
  ]

  unfoldable pub deps_write : List Dependency → S → ℤ × S
  unfolding write_loop entry_cursor pushed
  deps_write deps s = write_loop true 0 deps s
