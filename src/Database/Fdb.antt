-- ===== src/Database/Fdb.antt =====
-- apk-tools/src/database.c: the lines on the directories and files of a package in the installed
-- database, as `apk_db_write_fdb` pushes them and `apk_db_index_read` takes them apart.
use arianna_method_anchor_pr.Prelude.{
  ℕ, ◌+◌, ◌^◌, ◌<◌, ◌≡◌, refl, ap, Option, none, some, List, [], ◌∷◌, ◌++◌, arith, ◌==◌,
  if◌then◌else◌, length, bytes,
}
use arianna_method_anchor_pr.Blob.Cursor.{Cursor, buffer, push_blob, commit}
use arianna_method_anchor_pr.Blob.Hex.{dx}
use arianna_method_anchor_pr.Blob.Number.{push_uint, uint_text, pull_uint, pull_char}
use arianna_method_anchor_pr.Blob.Number.Laws.{pull_uint-uint_text}
use arianna_method_anchor_pr.Blob.Checksum.{Checksum, push_csum}

-- What a directory instance has for itself.
pub record Meta : Type 0 where
  pub uid : ℕ
  pub gid : ℕ
  pub mode : ℕ

-- The line of a directory and that of its owner and mode.
unfoldable pub push_dir : Option Cursor → List ℕ → Meta → Option Cursor
unfolding push_blob push_uint
push_dir to name m =
    let to₁ = push_blob (push_blob (push_blob to (bytes "F:")) name) (bytes "\nM:") in
    let to₂ = push_blob (push_uint to₁ m.uid 10) (bytes ":") in
    let to₃ = push_blob (push_uint to₂ m.gid 10) (bytes ":") in
    push_blob (push_uint to₃ m.mode 8) (bytes "\n")

-- The line of a file, and that of its checksum if it has one.
unfoldable pub push_file : Option Cursor → List ℕ → Checksum → Option Cursor
unfolding push_blob push_csum
push_file to name csum =
    let to₁ = push_blob (push_blob to (bytes "R:")) name in
    push_blob (if csum.kind == 0 then to₁ else push_csum (push_blob to₁ (bytes "\nZ:")) csum)
      (bytes "\n")

-- `apk_blob_pull_uint` on a blob that may be NULL, which has no bytes.
unfoldable pub pull_number : Option (List ℕ) → ℕ → ℕ × Option (List ℕ)
pull_number none radix = (0, none)
pull_number (some s) radix = let (n, rest) = pull_uint s radix in (n, some rest)

-- The case of `M`: what is stored, and what is left of the line.
unfoldable pub pull_meta : List ℕ → Meta × Option (List ℕ)
pull_meta l =
    let (uid, l₁) = pull_number (some l) 10 in
    let (gid, l₂) = pull_number (pull_char l₁ b':') 10 in
    let (mode, l₃) = pull_number (pull_char l₂ b':') 8 in
    (record { uid = uid; gid = gid; mode = mode }, l₃)

-- The text behind `M:`, less the end of the line.
abbrev pub meta_text : Meta → List ℕ
meta_text m =
    uint_text m.uid 10 ++ (b':' ∷ (uint_text m.gid 10 ++ (b':' ∷ (uint_text m.mode 8 ++ []))))

-- The owner and the mode of a directory are read back from the line that was written for them.
pub pull_meta-meta_text :
    (m : Meta)
    → m.uid < 2 ^ 32
    → m.gid < 2 ^ 32
    → m.mode < 2 ^ 32
    → pull_meta (meta_text m) ≡ (m, some [])
unfolding pull_meta pull_number pull_char dx
pull_meta-meta_text m u g o =
    let t₃ = uint_text m.mode 8 in
    let t₂ = uint_text m.gid 10 ++ (b':' ∷ (t₃ ++ [])) in
    let e₁ = pull_uint-uint_text m.uid 10 (b':' ∷ t₂) (omega arith) (omega arith) u refl in
    let e₂ = pull_uint-uint_text m.gid 10 (b':' ∷ (t₃ ++ [])) (omega arith) (omega arith) g refl in
    let e₃ = pull_uint-uint_text m.mode 8 [] (omega arith) (omega arith) o tt in
    rw (e₁, e₂, e₃) refl

no_room :
    (mem name : List ℕ)
    → length mem < 2 + length name
    → push_blob (push_blob (buffer mem) (bytes "F:")) name ≡ none
unfolding push_blob commit
no_room mem name h = ground arith

-- The name of a directory that has no room in the buffer makes the cursor NULL, whatever is pushed
-- behind it.
pub push_dir-overflow :
    (mem name : List ℕ) (m : Meta)
    → length mem < 2 + length name
    → push_dir (buffer mem) name m ≡ none
unfolding push_dir push_blob push_uint
push_dir-overflow mem name m h =
    let rest : Option Cursor → Option Cursor = λ o.
      let to₁ = push_blob o (bytes "\nM:") in
      let to₂ = push_blob (push_uint to₁ m.uid 10) (bytes ":") in
      let to₃ = push_blob (push_uint to₂ m.gid 10) (bytes ":") in
      push_blob (push_uint to₃ m.mode 8) (bytes "\n") in
    ap rest (no_room mem name h)
