-- ===== src/Archive/Write.antt =====
-- apk-tools/src/archive.c: `apk_tar_write_entry` and `apk_tar_write_padding`.
use arianna_method_anchor_pr.Prelude.{
  ℕ, ◌+◌, ◌-◌, ◌%◌, Bool, true, false, Option, none, some, List, [], ◌∷◌, ◌++◌, ◌==◌, if◌then◌else◌,
  length, take, replicate, ℤ, pos, negsuc, int_eq, bytes,
}
use arianna_method_anchor_pr.Archive.{TarHeader, put_octal, bytes_of}
use arianna_method_anchor_pr.Archive.Info.{FileType, regular}

-- What is written of a `struct apk_file_info`.
pub record TarEntry : Type 0 where
  pub name : Option (List ℕ)
  pub uname : Option (List ℕ)
  pub gname : Option (List ℕ)
  pub size : ℕ
  pub uid : ℕ
  pub gid : ℕ
  pub perms : ℕ
  pub file_type : FileType
  pub mtime : ℕ

-- `strncpy` of a text into `n` bytes that are 0.
unfoldable pub put_text : ℕ → List ℕ → List ℕ
put_text n s = take n s ++ replicate (n - length s) 0

abbrev pub or_root : Option (List ℕ) → List ℕ
or_root none = bytes "root"
or_root (some s) = s

abbrev pub or_empty : Option (List ℕ) → List ℕ
or_empty none = []
or_empty (some s) = s

abbrev pub or_now : ℕ → ℕ → ℕ
or_now now mtime = if mtime == 0 then now else mtime

-- The record before its checksum is known.
unfoldable pub unsummed : ℕ → TarEntry → TarHeader
unfolding put_octal put_text
unsummed now ae = record {
  name = put_text 100 (or_empty ae.name);
  mode = put_octal 8 (ae.perms % 4096);
  uid = put_octal 8 ae.uid;
  gid = put_octal 8 ae.gid;
  size = put_octal 12 ae.size;
  mtime = put_octal 12 (or_now now ae.mtime);
  chksum = replicate 8 b' ';
  typeflag = b'0';
  linkname = replicate 100 0;
  magic = bytes "ustar  " ++ 0 ∷ [];
  uname = put_text 32 (or_root ae.uname);
  gname = put_text 32 (or_root ae.gname);
  devmajor = replicate 8 0;
  devminor = replicate 8 0;
  prefix = replicate 155 0;
  padding = replicate 12 0;
}

abbrev pub sum_bytes : List ℕ → ℕ
sum_bytes [] = 0
sum_bytes (c ∷ s) = c + sum_bytes s

unfoldable pub header_for : ℕ → TarEntry → TarHeader
unfolding unsummed
header_for now ae =
    let h = unsummed now ae in
    record h { chksum = put_octal 7 (sum_bytes (bytes_of h)) ++ b' ' ∷ [] }

abbrev pub is_regular : FileType → Bool
is_regular regular = true
is_regular t = false

-- `write` is `os->write`: the number of bytes that it has taken, or an error.
module _ {ℓ} {O : Type ℓ} (write : O → List ℕ → ℤ × O) where
  abbrev pub write_all : O → List ℕ → (O → ℤ × O) → ℤ × O
  write_all o b k =
      let (r, o') = write o b in if int_eq r (pos (length b)) then k o' else (negsuc 0, o')

  abbrev pub write_done : O → ℤ × O
  write_done o = (pos 0, o)

  -- `apk_tar_write_padding`
  unfoldable pub write_padding : O → ℕ → ℤ × O
  write_padding o size =
      let pad = 512 - size % 512 in
      if pad == 512 then (pos 0, o) else write_all o (replicate pad 0) write_done

  abbrev pub write_data : ℕ → Option (List ℕ) → O → ℤ × O
  write_data size none o = (pos 0, o)
  write_data size (some d) o = write_all o (take size d) (λ o'. write_padding o' size)

  -- `apk_tar_write_entry` for an entry, with its data where they are given, which have its size.
  unfoldable pub write_entry : ℕ → O → TarEntry → Option (List ℕ) → ℤ × O
  unfolding header_for write_padding
  write_entry now o ae d =
      if is_regular ae.file_type
      then write_all o (bytes_of (header_for now ae)) (write_data ae.size d)
      else (negsuc 0, o)

  -- Without an entry, it writes the end of the archive.
  unfoldable pub write_end : O → ℤ × O
  write_end o = write_all o (replicate 512 0) (λ o'. write_all o' (replicate 512 0) write_done)
