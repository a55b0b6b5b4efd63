-- ===== src/Archive/Parse.antt =====
-- apk-tools/src/archive.c: `apk_tar_parse`.
use arianna_method_anchor_pr.Prelude.{
  ℕ, zero, suc, ◌+◌, ◌-◌, ◌%◌, ◌^◌, Bool, true, false, Option, none, some, List, [], ◌==◌,
  if◌then◌else◌, length, get_or, ℤ, pos, negsuc, int_eq, is_negative,
}
use arianna_method_anchor_pr.Blob.Hex.{Access, ok, fault}
use arianna_method_anchor_pr.Archive.{TarHeader, header_of, text_at, text_of, Stream, read}
use arianna_method_anchor_pr.Archive.Entry.{Teis, Reader, run_reader}
use arianna_method_anchor_pr.Archive.Info.{
  FileType, no_type, FileInfo, to_size, IdCache, entry_of, by_typeflag,
}

abbrev pub is_typed : FileType → Bool
is_typed no_type = false
is_typed t = true

-- The bytes up to the next record, behind an entry of which `n` bytes are not read, as a `size_t`.
abbrev pub toskip : ℕ → ℕ → ℕ
toskip offset n =
    let past = (offset + n) % 2 ^ 64 % 512 in if past == 0 then n else (n + (512 - past)) % 2 ^ 64

-- The lines behind the callback, for an entry of `size` bytes.
unfoldable pub skip_rest : ℕ → ℕ → Teis → ℕ × Stream
unfolding read
skip_rest offset size t =
    let o = (offset + (size - t.bytes_left)) % 2 ^ 64 in
    let n = toskip o t.bytes_left in
    ((o + n) % 2 ^ 64, if n == 0 then t.tar_is else (read t.tar_is n).2)

module _ (hash : List ℕ → List ℕ) (idc : IdCache) (soft_checksums : Bool) where
  module _ {ℓ} {C : Type ℓ} (parser : C → FileInfo → Reader C) where
    -- The state between two records: the context of the callback, `offset`, `end`, the long name
    -- that waits for its entry, and the stream.
    pub record Tar : Type ℓ where
      pub ctx : C
      pub offset : ℕ
      pub end : Bool
      pub long_name : Option (List ℕ)
      pub is : Stream

    abbrev pub start_entry : FileInfo → Bool → Stream → Teis
    start_entry e hashing s = record {
      tar_is = s;
      bytes_left = to_size e.entry_size;
      hashed = if hashing then some [] else none;
      csum = e.checksum;
    }

    -- The long name, or the name in the record.
    abbrev pub name_of : TarHeader → Option (List ℕ) → List ℕ
    name_of h none = text_at h 0
    name_of h (some n) = n

    -- The callback, for an entry that has a file type.
    unfoldable pub call_parser : C → TarHeader → FileInfo × Bool → Stream → ℤ × C × Teis
    unfolding run_reader text_at
    call_parser c h (e, hashing) s =
        run_reader hash (parser c (record e { entry_name = some (name_of h e.entry_name) }))
          (start_entry e hashing s)

    abbrev pub after_entry : Tar → FileInfo → Option (List ℕ) → ℤ × C × Teis → ℤ × Tar
    after_entry t e name (r, c, teis) =
        let (o, s) = skip_rest t.offset (to_size e.entry_size) teis in
        if int_eq r (pos 0)
        then (pos 0, record t { ctx = c; offset = o; long_name = name; is = s })
        else (r, record t { ctx = c; long_name = name; is = teis.tar_is })

    -- An entry of any type but a long name.
    unfoldable pub plain_entry : Tar → TarHeader → FileInfo × Bool → ℤ × Tar
    unfolding call_parser skip_rest
    plain_entry t h (e, hashing) =
        if is_typed e.file_type
        then after_entry t e none (call_parser t.ctx h (e, hashing) t.is)
        else after_entry t e e.entry_name (pos 0, t.ctx, start_entry e false t.is)

    -- An entry of the type L: the name of the next entry, which has to have an end. A negative size has
    -- no memory: the name is written outside of it, or through NULL.
    unfoldable pub long_entry : Tar → TarHeader → Access (ℤ × Tar)
    unfolding entry_of skip_rest
    long_entry t h =
        let e = entry_of hash idc soft_checksums h t.long_name in
        let n = to_size e.entry_size in
        let (r, name, s) = read t.is n in
        let e' = record e { entry_size = pos 0 } in
        let (o, s') = skip_rest ((t.offset + n) % 2 ^ 64) 0 (start_entry e' false s) in
        if is_negative e.entry_size
        then fault
        else ok (pos 0, record t { offset = o; long_name = some (text_of name); is = s' })

    -- What follows a record that is not empty.
    unfoldable pub tar_entry : Tar → TarHeader → Access (ℤ × Tar)
    unfolding long_entry plain_entry by_typeflag entry_of
    tar_entry t h =
        if h.typeflag == b'L'
        then long_entry t h
        else ok (
            plain_entry t h (
              by_typeflag hash idc soft_checksums h
                (entry_of hash idc soft_checksums h t.long_name)))

    -- The end of the parse, a write outside of the memory of a name, or no fuel left.
    pub data Parsed : Type ℓ where
      parsed : ℤ → Tar → Parsed
      overrun : Parsed
      unfinished : Parsed

    abbrev pub ebadmsg : ℤ
    ebadmsg = negsuc 73

    -- What a short read means: an error of the stream, its end, or a part of a record.
    abbrev pub short_read : ℤ → Tar → Parsed
    short_read (pos zero) t = parsed (pos 0) t
    short_read (pos (suc n)) t = parsed ebadmsg t
    short_read (negsuc e) t = parsed (negsuc e) t

    -- The records behind the end of the archive.
    unfoldable pub rest_loop : ℕ → Tar → Parsed
    unfolding read
    rest_loop zero t = unfinished
    rest_loop (suc fuel) t =
        let (r, b, s) = read t.is 512 in
        let t' = record t { is = s } in
        let rest = rest_loop fuel t' in
        if int_eq r (pos 512)
        then if get_or b 0 0 == 0 then rest else parsed ebadmsg t'
        else short_read r t'

    abbrev pub parsed_on : Access (ℤ × Tar) → (Tar → Parsed) → Parsed
    parsed_on fault k = overrun
    parsed_on (ok (r, t)) k = if int_eq r (pos 0) then k t else parsed r t

    -- The loop of `apk_tar_parse`.
    unfoldable pub tar_loop : ℕ → Tar → Parsed
    unfolding tar_entry rest_loop
    tar_loop zero t = unfinished
    tar_loop (suc fuel) t =
        let (r, b, s) = read t.is 512 in
        let t' = record t { offset = (t.offset + 512) % 2 ^ 64; is = s } in
        if int_eq r (pos 512)
        then if get_or b 0 0 == 0
          then if t.end then rest_loop fuel t' else tar_loop fuel (record t' { end = true })
          else parsed_on (tar_entry t' (header_of b)) (λ u. tar_loop fuel u)
        else short_read r t'

    -- `apk_tar_parse`; each round takes a record from the stream.
    unfoldable pub tar_parse : C → Stream → Parsed
    unfolding tar_loop
    tar_parse c s =
        tar_loop (suc (length s.left))
          (record { ctx = c; offset = 0; end = false; long_name = none; is = s })
