-- ===== src/Tests/Archives.antt =====
-- Archives of apk-tools/src/archive.c that can be followed in the source.
use arianna_method_anchor_pr.Prelude.{
  ℕ, zero, suc, ◌+◌, ◌%◌, ◌<◌, ◌≡◌, refl, false, Option, none, some, List, [], ◌∷◌, ◌++◌, length,
  drop, replicate, bytes, ℤ, pos, arith,
}
use arianna_method_anchor_pr.Archive.{header_of, bytes_of, text_at, get_octal}
use arianna_method_anchor_pr.Archive.Entry.{Reader, leave, ask}
use arianna_method_anchor_pr.Archive.Info.{FileInfo, regular, to_size, IdCache}
use arianna_method_anchor_pr.Archive.Parse.{
  Tar, tar_entry, Parsed, parsed, overrun, unfinished, tar_parse,
}
use arianna_method_anchor_pr.Archive.Skips.{padded}
use arianna_method_anchor_pr.Blob.Hex.{ok, fault}
use arianna_method_anchor_pr.Archive.Position.{tar_entry_position}
use arianna_method_anchor_pr.Archive.Finish.{Ends, tar_parse_ends}
use arianna_method_anchor_pr.Archive.Write.{TarEntry, header_for, write_entry}
use arianna_method_anchor_pr.Archive.Written.{sink, written, write_entry-padded}
use arianna_method_anchor_pr.Archive.Back.{IsText}
use arianna_method_anchor_pr.Archive.Overrun.{name_reads_on}

abbrev hello : TarEntry
hello = record {
  name = some (bytes "hello");
  uname = none;
  gname = none;
  size = 5;
  uid = 0;
  gid = 0;
  perms = 420;
  file_type = regular;
  mtime = 1000;
}

abbrev no_hash : List ℕ → List ℕ
no_hash s = []

abbrev ids : IdCache
ids = record { resolve_uid = λ n d. d; resolve_gid = λ n d. d }

-- The callback reads two bytes and counts the entry.
abbrev counting : ℕ → FileInfo → Reader ℕ
counting n e = ask 2 (λ r b c. leave (pos 0) (n + 1))

abbrev hello_tar : List ℕ
hello_tar =
    (bytes_of (header_for 0 hello) ++ (bytes "world" ++ replicate 507 0)) ++ replicate 1024 0

abbrev outcome : Parsed no_hash ids false counting → Option (ℤ × ℕ)
outcome (parsed r t) = some (r, t.ctx)
outcome overrun = none
outcome unfinished = none

-- One entry is found, and the end behind it, although the callback leaves most of it unread.
parse_run :
    outcome (tar_parse no_hash ids false counting 0 (record { left = hello_tar; error = 0 }))
    ≡ some (pos 0, 1)
unfolding tar_parse header_for
parse_run = refl

abbrev at_entry : Tar no_hash ids false counting
at_entry = record {
  ctx = 0;
  offset = 512;
  end = false;
  long_name = none;
  is = record { left = bytes "world" ++ replicate 507 0; error = 0 };
}

abbrev behind_entry : Tar no_hash ids false counting
behind_entry = record at_entry { ctx = 1; offset = 1024; is = record { left = []; error = 0 } }

entry_run :
    tar_entry no_hash ids false counting at_entry (header_for 0 hello) ≡ ok (pos 0, behind_entry)
unfolding tar_entry header_for
entry_run = refl

tar_entry_position_example :
    (behind_entry.offset % 512 ≡ 0)
    × (behind_entry.is.left
        ≡ drop (padded (to_size (get_octal (header_for 0 hello).size))) at_entry.is.left)
unfolding get_octal header_for
tar_entry_position_example =
    tar_entry_position no_hash ids false counting at_entry behind_entry (header_for 0 hello) refl
      (omega arith) entry_run

-- A long name of negative size has no memory.
overrun_run :
    tar_entry no_hash ids false counting at_entry
      (record (header_for 0 hello) { typeflag = b'L'; size = bytes "37777777777" ++ 0 ∷ [] })
    ≡ fault
unfolding tar_entry header_for
overrun_run = refl

tar_parse_ends_example :
    Ends no_hash ids false counting
      (tar_parse no_hash ids false counting 0 (record { left = 1 ∷ 2 ∷ 3 ∷ []; error = 5 }))
tar_parse_ends_example =
    tar_parse_ends no_hash ids false counting 0 (record { left = 1 ∷ 2 ∷ 3 ∷ []; error = 5 })

letters-IsText : (n : ℕ) → IsText (replicate n b'a')
letters-IsText zero = tt
letters-IsText (suc n) = (omega arith, letters-IsText n)

abbrev long_named : TarEntry
long_named = record hello { name = some (replicate 100 b'a') }

name_reads_on_example : 100 < length (text_at (header_of (bytes_of (header_for 0 long_named))) 0)
name_reads_on_example = name_reads_on 0 long_named (letters-IsText 100) (omega arith)

write_entry-padded_example :
    (write_entry sink 0 [] hello (some (bytes "world"))
      ≡ (pos 0, written [] (bytes_of (header_for 0 hello)) (bytes "world") 5))
    × (length (written [] (bytes_of (header_for 0 hello)) (bytes "world") 5) % 512 ≡ 0)
write_entry-padded_example = write_entry-padded 0 [] hello (bytes "world") refl refl refl
