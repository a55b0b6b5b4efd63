-- ===== src/Archive/Finish.antt =====
-- apk-tools/src/archive.c: `apk_tar_parse` comes to an end.
use Prim.Native.Nat.{min}
use arianna_method_anchor_pr.Prelude.{
  ℕ, zero, suc, ◌+◌, ◌-◌, ◌%◌, ◌^◌, ◌<◌, ◌≡◌, refl, ap, ◌∙◌, ◌⊎◌, is_negative, Bool, true, false,
  Option, none, some, List, [], ◌∷◌, ◌==◌, if◌then◌else◌, length, take, drop, get_or, ℤ, pos,
  negsuc, int_eq, arith, if_either, Bool-cases, inl, inr, length-take, length-drop,
}
use arianna_method_anchor_pr.Archive.{
  TarHeader, header_of, get_octal, Stream, end_status, read_left, read,
}
use arianna_method_anchor_pr.Archive.Entry.{Teis, Reader}
use arianna_method_anchor_pr.Archive.Info.{FileInfo, to_size, IdCache, entry_of, by_typeflag}
use arianna_method_anchor_pr.Archive.Parse.{
  Tar, tar_entry, Parsed, parsed, overrun, unfinished, is_typed, start_entry, name_of, call_parser,
  after_entry, plain_entry, long_entry, short_read, rest_loop, parsed_on, tar_loop, tar_parse,
}
use arianna_method_anchor_pr.Archive.Skips.{
  skip_rest-drop, drop-drop, read_position, run_reader-Consumes,
}
use arianna_method_anchor_pr.Archive.Position.{ok_or_fault, returned}
use arianna_method_anchor_pr.Blob.Hex.{Access, ok, fault}
use mathlib.Core.Path.{subst}

-- A full record has left the stream.
end_short : (e : ℕ) → int_eq (end_status e) (pos 512) ≡ false
end_short zero = refl
end_short (suc e) = refl

pos_same : (k n : ℕ) → int_eq (pos k) (pos n) ≡ true → k ≡ n
pos_same k n h = ground arith

full_count : (k d n : ℕ) → k ≡ 512 → k ≡ min 512 n → d ≡ n - 512 → d + 512 ≡ n
full_count k d n e a b = omega arith

full_read :
    (xs : List ℕ) (s : Stream)
    → int_eq (read_left xs 512 s).0 (pos 512) ≡ true
    → length (read_left xs 512 s).2.left + 512 ≡ length xs
full_read [] s h = absurd (let f : false ≡ true = rw (end_short s.error) at h in cc)
full_read (x ∷ xs) s h =
    full_count (length (take 512 (x ∷ xs))) (length (drop 512 (x ∷ xs))) (length (x ∷ xs))
      (pos_same (length (take 512 (x ∷ xs))) 512 h) (length-take 512 (x ∷ xs))
      (length-drop 512 (x ∷ xs))

read_shrinks :
    (s : Stream)
    → int_eq (read s 512).0 (pos 512) ≡ true
    → length (read s 512).2.left + 512 ≡ length s.left
unfolding read
read_shrinks s h = full_read s.left s h

module _ (hash : List ℕ → List ℕ) (idc : IdCache) (soft_checksums : Bool) where
  module _ {ℓ} {C : Type ℓ} (parser : C → FileInfo → Reader C) where
    abbrev TarHere : Type ℓ
    TarHere = Tar hash idc soft_checksums parser

    abbrev ParsedHere : Type ℓ
    ParsedHere = Parsed hash idc soft_checksums parser

    abbrev IsDone : ParsedHere → Type 0
    IsDone (parsed r t) = Unit
    IsDone overrun = Unit
    IsDone unfinished = ⊥

    -- No bytes were put back.
    abbrev Falls : TarHere → TarHere → Type 0
    Falls t t' = (k : ℕ) × (t'.is.left ≡ drop k t.is.left)

    after_entry-Falls :
        (t : TarHere) (e : FileInfo) (name : Option (List ℕ)) (r : ℤ) (c : C) (teis : Teis) (k : ℕ)
        → teis.tar_is.left ≡ drop k t.is.left
        → Falls t (after_entry hash idc soft_checksums parser t e name (r, c, teis)).1
    after_entry-Falls t e name r c teis k l =
        let (m, f) = skip_rest-drop t.offset (to_size e.entry_size) teis in
        elim (Bool-cases (int_eq r (pos 0))) [
          | inl z ↦ rw z (k + m, f ∙ ap (drop m) l ∙ drop-drop m k t.is.left)
          | inr z ↦ rw z (k, l)
        ]

    plain_entry-Falls :
        (t : TarHere) (h : TarHeader) (e : FileInfo) (hashing : Bool)
        → Falls t (plain_entry hash idc soft_checksums parser t h (e, hashing)).1
    unfolding plain_entry call_parser
    plain_entry-Falls t h e hashing =
        let u = start_entry hash idc soft_checksums parser e hashing t.is in
        let v = start_entry hash idc soft_checksums parser e false t.is in
        let o = call_parser hash idc soft_checksums parser t.ctx h (e, hashing) t.is in
        let (k, _, _, l) =
          run_reader-Consumes hash
            (parser t.ctx (record e {
              entry_name = some (name_of hash idc soft_checksums parser h e.entry_name);
            }))
            u in
        if_either (λ (o : ℤ × TarHere). Falls t o.1) (is_typed e.file_type)
          (after_entry hash idc soft_checksums parser t e none o)
          (after_entry hash idc soft_checksums parser t e e.entry_name (pos 0, t.ctx, v))
          (after_entry-Falls t e none o.0 o.1 o.2 k l)
          (after_entry-Falls t e e.entry_name (pos 0) t.ctx v 0 refl)

    long_entry-Falls :
        (t t' : TarHere) (h : TarHeader) (r : ℤ)
        → long_entry hash idc soft_checksums parser t h ≡ ok (r, t')
        → Falls t t'
    unfolding long_entry entry_of
    long_entry-Falls t t' h r f =
        let n = to_size (get_octal h.size) in
        let e = entry_of hash idc soft_checksums h t.long_name in
        let u =
          start_entry hash idc soft_checksums parser (record e { entry_size = pos 0 }) false
            (read t.is n).2 in
        let (m, g) = skip_rest-drop ((t.offset + n) % 2 ^ 64) 0 u in
        let l = g ∙ ap (drop m) (read_position t.is n) ∙ drop-drop m n t.is.left in
        elim (Bool-cases (is_negative (get_octal h.size))) [
          | inl y ↦ absurd (ok_or_fault (rw y at f))
          | inr y ↦
              subst (λ (o : ℤ × TarHere). Falls t o.1)
                (returned hash idc soft_checksums parser _ (r, t') (rw y at f)) (n + m, l)
        ]

    tar_entry-Falls :
        (t t' : TarHere) (h : TarHeader) (r : ℤ)
        → tar_entry hash idc soft_checksums parser t h ≡ ok (r, t')
        → Falls t t'
    unfolding tar_entry
    tar_entry-Falls t t' h r f =
        let (e, hashing) =
          by_typeflag hash idc soft_checksums h (entry_of hash idc soft_checksums h t.long_name) in
        elim (Bool-cases (h.typeflag == b'L')) [
          | inl y ↦ long_entry-Falls t t' h r (rw y at f)
          | inr y ↦
              subst (λ (o : ℤ × TarHere). Falls t o.1)
                (returned hash idc soft_checksums parser _ (r, t') (rw y at f))
                (plain_entry-Falls t h e hashing)
        ]

    short_read-IsDone :
        (r : ℤ) (t : TarHere) → IsDone (short_read hash idc soft_checksums parser r t)
    short_read-IsDone (pos zero) t = tt
    short_read-IsDone (pos (suc n)) t = tt
    short_read-IsDone (negsuc e) t = tt

    rest_loop-IsDone :
        (fuel : ℕ) (t : TarHere)
        → length t.is.left < fuel
        → IsDone (rest_loop hash idc soft_checksums parser fuel t)
    unfolding rest_loop
    rest_loop-IsDone zero t h = absurd (omega arith)
    rest_loop-IsDone (suc fuel) t h =
        let r = (read t.is 512).0 in
        let t' : TarHere = record t { is = (read t.is 512).2 } in
        elim (Bool-cases (int_eq r (pos 512))) [
          | inl z ↦
              let m = read_shrinks t.is z in
              rw z (
                if_either IsDone (get_or (read t.is 512).1 0 0 == 0)
                  (rest_loop hash idc soft_checksums parser fuel t') (parsed (negsuc 73) t')
                  (rest_loop-IsDone fuel t' (omega arith)) tt)
          | inr z ↦ rw z (short_read-IsDone r t')
        ]

    parsed_on-IsDone :
        (o : Access (ℤ × TarHere)) (k : TarHere → ParsedHere)
        → ((r : ℤ) (t : TarHere) → o ≡ ok (r, t) → IsDone (k t))
        → IsDone (parsed_on hash idc soft_checksums parser o k)
    parsed_on-IsDone fault k h = tt
    parsed_on-IsDone (ok (r, t)) k h = elim (Bool-cases (int_eq r (pos 0))) [
      | inl z ↦ rw z (h r t refl)
      | inr z ↦ rw z tt
    ]

    tar_loop-IsDone :
        (fuel : ℕ) (t : TarHere)
        → length t.is.left < fuel
        → IsDone (tar_loop hash idc soft_checksums parser fuel t)
    unfolding tar_loop
    tar_loop-IsDone zero t h = absurd (omega arith)
    tar_loop-IsDone (suc fuel) t h =
        let r = (read t.is 512).0 in
        let b = (read t.is 512).1 in
        let t' : TarHere = record t {
          offset = (t.offset + 512) % 2 ^ 64;
          is = (read t.is 512).2;
        } in
        let u : TarHere = record t' { end = true } in
        let o = tar_entry hash idc soft_checksums parser t' (header_of b) in
        elim (Bool-cases (int_eq r (pos 512))) [
          | inl z ↦
              let m = read_shrinks t.is z in
              rw z (
                if_either IsDone (get_or b 0 0 == 0)
                  (if t.end
                    then rest_loop hash idc soft_checksums parser fuel t'
                    else tar_loop hash idc soft_checksums parser fuel u)
                  (parsed_on hash idc soft_checksums parser o
                    (λ v. tar_loop hash idc soft_checksums parser fuel v))
                  (if_either IsDone t.end (rest_loop hash idc soft_checksums parser fuel t')
                    (tar_loop hash idc soft_checksums parser fuel u)
                    (rest_loop-IsDone fuel t' (omega arith)) (tar_loop-IsDone fuel u (omega arith)))
                  (parsed_on-IsDone o (λ v. tar_loop hash idc soft_checksums parser fuel v)
                    (λ r v y.
                      let (n, l) = tar_entry-Falls t' v (header_of b) r y in
                      let c : length v.is.left ≡ length t'.is.left - n =
                        rw l (length-drop n t'.is.left) in
                      tar_loop-IsDone fuel v (omega arith))))
          | inr z ↦ rw z (short_read-IsDone r t')
        ]

    -- An end, or a write outside of the memory of a name.
    abbrev pub Ends : ParsedHere → Type ℓ
    Ends o = ((r : ℤ) × (t : TarHere) × (o ≡ parsed r t)) ⊎ (o ≡ overrun)

    done : (o : ParsedHere) → IsDone o → Ends o
    done (parsed r t) h = inl (r, t, refl)
    done overrun h = inr refl
    done unfinished h = absurd h

    -- `apk_tar_parse` comes to an end on every stream of finitely many bytes, whatever these are, for
    -- every callback that does: each round takes a record from the stream, and none puts bytes back. The
    -- end is a result, or the undefined write for a long name of negative size.
    pub tar_parse_ends : (c : C) (s : Stream) → Ends (tar_parse hash idc soft_checksums parser c s)
    unfolding tar_parse
    tar_parse_ends c s =
        let t : TarHere = record { ctx = c; offset = 0; end = false; long_name = none; is = s } in
        done _ (tar_loop-IsDone (suc (length s.left)) t (omega arith))
