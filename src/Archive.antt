-- ===== src/Archive.antt =====
-- apk-tools/src/archive.c: the records of a tar archive, and the streams that they are read from.
pub mod Entry
pub mod Info
pub mod Parse
pub mod Octal
pub mod Skips
pub mod Position
pub mod Finish
pub mod Write
pub mod Layout
pub mod Back
pub mod Overrun
pub mod Written
use arianna_method_anchor_pr.Prelude.{
  ℕ, zero, suc, ◌+◌, ◌-◌, ◌*◌, ◌/◌, ◌%◌, ◌^◌, Bool, true, false, Option, none, some, List, [], ◌∷◌,
  ◌++◌, ltb, ◌==◌, if◌then◌else◌, length, take, drop, get_or, replicate, ℤ, pos, negsuc, signed32,
}
use arianna_method_anchor_pr.Blob.Number.{pull_uint}

-- `struct tar_header`, with the bytes of each field.
pub record TarHeader : Type 0 where
  pub name : List ℕ
  pub mode : List ℕ
  pub uid : List ℕ
  pub gid : List ℕ
  pub size : List ℕ
  pub mtime : List ℕ
  pub chksum : List ℕ
  pub typeflag : ℕ
  pub linkname : List ℕ
  pub magic : List ℕ
  pub uname : List ℕ
  pub gname : List ℕ
  pub devmajor : List ℕ
  pub devminor : List ℕ
  pub prefix : List ℕ
  pub padding : List ℕ

-- `n` bytes of the record from the offset `i`.
abbrev pub bytes_at : List ℕ → ℕ → ℕ → List ℕ
bytes_at b i n = take n (drop i b)

-- The record that 512 bytes are.
abbrev pub header_of : List ℕ → TarHeader
header_of b = record {
  name = bytes_at b 0 100;
  mode = bytes_at b 100 8;
  uid = bytes_at b 108 8;
  gid = bytes_at b 116 8;
  size = bytes_at b 124 12;
  mtime = bytes_at b 136 12;
  chksum = bytes_at b 148 8;
  typeflag = get_or b 156 0;
  linkname = bytes_at b 157 100;
  magic = bytes_at b 257 8;
  uname = bytes_at b 265 32;
  gname = bytes_at b 297 32;
  devmajor = bytes_at b 329 8;
  devminor = bytes_at b 337 8;
  prefix = bytes_at b 345 155;
  padding = bytes_at b 500 12;
}

-- The record as bytes.
abbrev pub laid_out : List (List ℕ) → List ℕ
laid_out [] = []
laid_out (x ∷ xs) = x ++ laid_out xs

abbrev pub fields_of : TarHeader → List (List ℕ)
fields_of h =
    h.name
    ∷ h.mode
    ∷ h.uid
    ∷ h.gid
    ∷ h.size
    ∷ h.mtime
    ∷ h.chksum
    ∷ (h.typeflag ∷ [])
    ∷ h.linkname
    ∷ h.magic
    ∷ h.uname
    ∷ h.gname
    ∷ h.devmajor
    ∷ h.devminor
    ∷ h.prefix
    ∷ h.padding
    ∷ []

abbrev pub bytes_of : TarHeader → List ℕ
bytes_of h = laid_out (fields_of h)

-- The bytes in front of the first NUL.
abbrev pub text_of : List ℕ → List ℕ
text_of [] = []
text_of (c ∷ s) = let rest = text_of s in if c == 0 then [] else c ∷ rest

-- The text that begins at the offset `i`; nothing but a NUL ends it at the end of its field.
unfoldable pub text_at : TarHeader → ℕ → List ℕ
text_at h i = text_of (drop i (bytes_of h))

-- `get_octal`: the number is read as an `unsigned int` and returned as an `int`.
unfoldable pub get_octal : List ℕ → ℤ
unfolding pull_uint
get_octal s = signed32 (pull_uint s 8).0

-- The loop that fills what is left with zeros.
abbrev pub zero_loop : ℕ → List ℕ → List ℕ
zero_loop zero s = s
zero_loop (suc n) s = zero_loop n (b'0' ∷ s)

-- The loop over the digits, where `n` bytes are left in front of `s`.
unfoldable pub octal_loop : ℕ → ℕ → List ℕ → List ℕ
octal_loop zero value s = s
octal_loop (suc n) value s =
    let more = octal_loop n (value / 8) ((b'0' + value % 8) ∷ s) in
    if value == 0 then zero_loop (suc n) s else more

-- `put_octal` into `l` bytes.
unfoldable pub put_octal : ℕ → ℕ → List ℕ
unfolding octal_loop
put_octal l value = octal_loop (l - 1) value (0 ∷ [])

-- A stream: the bytes that are still to come, and the error that a read behind them returns, or 0.
pub record Stream : Type 0 where
  pub left : List ℕ
  pub error : ℕ

abbrev pub end_status : ℕ → ℤ
end_status zero = pos 0
end_status (suc e) = negsuc e

-- `is->read` of at most `n` bytes: its status, the bytes, and the stream behind them.
abbrev pub read_left : List ℕ → ℕ → Stream → ℤ × List ℕ × Stream
read_left [] n s = (end_status s.error, [], s)
read_left (b ∷ bs) n s =
    let got = take n (b ∷ bs) in (pos (length got), got, record s { left = drop n (b ∷ bs) })

unfoldable pub read : Stream → ℕ → ℤ × List ℕ × Stream
read s n = read_left s.left n s
