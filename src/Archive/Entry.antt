-- ===== src/Archive/Entry.antt =====
-- apk-tools/src/archive.c: the stream of one entry, which the callback reads as far as it likes.
use arianna_method_anchor_pr.Prelude.{
  ℕ, ◌-◌, Option, none, some, List, [], ◌++◌, ltb, ◌==◌, if◌then◌else◌, length, ℤ, pos, negsuc,
}
use arianna_method_anchor_pr.Archive.{Stream, read}

-- `struct apk_checksum`; its type is the length of the digest, or 0.
pub record TarSum : Type 0 where
  pub kind : ℕ
  pub sum : List ℕ

-- `struct apk_tar_entry_istream`: `hashed` is what `mdctx` has got, if `csum` is not NULL, and `csum`
-- what it points to.
pub record Teis : Type 0 where
  pub tar_is : Stream
  pub bytes_left : ℕ
  pub hashed : Option (List ℕ)
  pub csum : TarSum

-- What a callback does with the stream of its entry: it returns, or it asks for some bytes and goes
-- on with their status, the bytes, and the checksum as it then is.
pub data Reader {ℓ} (C : Type ℓ) : Type ℓ where
  leave : ℤ → C → Reader C
  ask : ℕ → (ℤ → List ℕ → TarSum → Reader C) → Reader C

-- `digest` is the digest of `apk_checksum_default` of all bytes.
module _ (digest : List ℕ → List ℕ) where
  abbrev pub hash_more : List ℕ → Teis → Option (List ℕ) → Teis
  hash_more bs t none = t
  hash_more bs t (some h) =
      let all = h ++ bs in
      let c : TarSum = record { kind = length (digest all); sum = digest all } in
      record t { hashed = some all; csum = if t.bytes_left == 0 then c else t.csum }

  -- What follows the read.
  abbrev pub after_read : Teis → ℤ × List ℕ × Stream → ℤ × List ℕ × Teis
  after_read t (negsuc e, bs, s) = (negsuc e, bs, record t { tar_is = s })
  after_read t (pos k, bs, s) =
      (pos k, bs, hash_more bs (record t { tar_is = s; bytes_left = t.bytes_left - k }) t.hashed)

  -- `tar_entry_read`
  unfoldable pub entry_read : Teis → ℕ → ℤ × List ℕ × Teis
  unfolding read
  entry_read t size =
      let n = if ltb t.bytes_left size then t.bytes_left else size in
      if n == 0 then (pos 0, [], t) else after_read t (read t.tar_is n)

  -- The callback at work.
  unfoldable pub run_reader {ℓ} : {C : Type ℓ} → Reader C → Teis → ℤ × C × Teis
  unfolding entry_read
  run_reader (leave r c) t = (r, c, t)
  run_reader (ask n k) t = let (r, bs, t') = entry_read t n in run_reader (k r bs t'.csum) t'
