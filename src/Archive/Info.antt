-- ===== src/Archive/Info.antt =====
-- apk-tools/src/archive.c: what a record of a tar archive says of its entry.
use arianna_method_anchor_pr.Prelude.{
  ℕ, suc, ◌+◌, ◌-◌, ◌*◌, ◌%◌, ◌^◌, Bool, true, false, ◌&&◌, ◌||◌, Option, none, some, List, [], ◌∷◌,
  ◌++◌, leb, ◌==◌, if◌then◌else◌, length, take, drop, get_or, ℤ, pos, negsuc, bytes,
}
use arianna_method_anchor_pr.Archive.{TarHeader, get_octal, text_at}
use arianna_method_anchor_pr.Archive.Entry.{TarSum}

-- The bits S_IFMT of the mode; `no_type` is none of them.
pub data FileType : Type 0 where
  no_type : FileType
  regular : FileType
  symlink : FileType
  char_device : FileType
  block_device : FileType
  directory : FileType

-- `struct apk_file_info`: `perms` is the mode without its file type.
pub record FileInfo : Type 0 where
  pub entry_name : Option (List ℕ)
  pub link_target : Option (List ℕ)
  pub owner : List ℕ
  pub group : List ℕ
  pub entry_size : ℤ
  pub owner_id : ℤ
  pub group_id : ℤ
  pub perms : ℕ
  pub file_type : FileType
  pub modified : ℤ
  pub major : ℤ
  pub minor : ℤ
  pub checksum : TarSum

-- An `int` as a `size_t`.
abbrev pub to_size : ℤ → ℕ
to_size (pos n) = n
to_size (negsuc n) = 2 ^ 64 - suc n

abbrev pub no_sum : TarSum
no_sum = record { kind = 0; sum = [] }

abbrev pub same_bytes : List ℕ → List ℕ → Bool
same_bytes [] [] = true
same_bytes (x ∷ xs) (y ∷ ys) = x == y && same_bytes xs ys
same_bytes [] (y ∷ ys) = false
same_bytes (x ∷ xs) [] = false

-- The digest info of which `b` are the bytes: its mark, and its size in two bytes, the lower first.
abbrev pub has_mark : List ℕ → Bool
has_mark b = same_bytes (take 4 b) (bytes "APK2")

abbrev pub info_size : List ℕ → ℕ
info_size b = get_or b 6 0 + 256 * get_or b 7 0

-- The checksum that the field `devmajor` announces.
unfoldable pub device_sum : TarHeader → TarSum
device_sum h =
    if has_mark h.devmajor && leb (info_size h.devmajor) 20
    then record { kind = info_size h.devmajor; sum = h.devminor ++ h.padding }
    else no_sum

-- The checksum that the field `linkname` announces.
unfoldable pub link_sum : TarHeader → Option TarSum
link_sum h =
    let b = drop 3 h.linkname in
    if has_mark b && leb (info_size b) 20
    then some (record { kind = info_size b; sum = take (info_size b) (drop 8 b) })
    else none

-- `mode & 07777`, where a negative number keeps its lower bits.
abbrev pub low_bits : ℤ → ℕ
low_bits (pos n) = n % 4096
low_bits (negsuc n) = 4095 - n % 4096

-- What becomes of an `int` for a user or group and its name: `apk_resolve_uid` and `apk_resolve_gid`.
pub record IdCache : Type 0 where
  pub resolve_uid : List ℕ → ℤ → ℤ
  pub resolve_gid : List ℕ → ℤ → ℤ

module _ (hash : List ℕ → List ℕ) (idc : IdCache) (soft_checksums : Bool) where
  -- The fields of a record, with the name that an earlier record has given.
  unfoldable pub entry_of : TarHeader → Option (List ℕ) → FileInfo
  unfolding get_octal device_sum text_at
  entry_of h name = record {
    entry_name = name;
    link_target = none;
    owner = text_at h 265;
    group = text_at h 297;
    entry_size = get_octal h.size;
    owner_id = idc.resolve_uid (text_at h 265) (get_octal h.uid);
    group_id = idc.resolve_gid (text_at h 297) (get_octal h.gid);
    perms = low_bits (get_octal h.mode);
    file_type = no_type;
    modified = get_octal h.mtime;
    major = get_octal h.devmajor;
    minor = get_octal h.devminor;
    checksum = device_sum h;
  }

  abbrev pub typed : FileType → FileInfo → FileInfo
  typed t e = record e { file_type = t }

  -- A regular file, and whether its checksum has to be computed while it is read.
  abbrev pub regular_entry : TarHeader → FileInfo → FileInfo × Bool
  regular_entry h e =
      if e.checksum.kind == 0
      then elim (link_sum h) [
        | some c ↦ (record e { file_type = regular; checksum = c }, false)
        | none ↦ (typed regular e, soft_checksums)
      ]
      else (typed regular e, false)

  abbrev pub symlink_entry : TarHeader → FileInfo → FileInfo
  symlink_entry h e =
      let target = text_at h 157 in
      let e' = record e { file_type = symlink; link_target = some target } in
      let c : TarSum = record { kind = length (hash target); sum = hash target } in
      if e.checksum.kind == 0 && soft_checksums then record e' { checksum = c } else e'

  -- The switch over the type flag, but for the long names.
  unfoldable pub by_typeflag : TarHeader → FileInfo → FileInfo × Bool
  unfolding link_sum text_at
  by_typeflag h e =
      let f = h.typeflag in
      if f == b'0' || f == b'7'
      then regular_entry h e
      else if f == b'1'
      then (record e { file_type = regular; link_target = some (text_at h 157) }, false)
      else if f == b'2'
      then (symlink_entry h e, false)
      else if f == b'3'
      then (typed char_device e, false)
      else if f == b'4'
      then (typed block_device e, false)
      else if f == b'5'
      then (typed directory e, false)
      else (e, false)
