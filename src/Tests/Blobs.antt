-- ===== src/Tests/Blobs.antt =====
-- Blobs that are cut, written and read.
use arianna_method_anchor_pr.Prelude.{
  ℕ, ◌≡◌, refl, inr, Option, some, List, [], ◌∷◌, ◌++◌, length, replicate, bytes, arith, ℤ, pos,
  ◌==◌, if◌then◌else◌,
}
use arianna_method_anchor_pr.Blob.Slices.{split, for_each_segment}
use arianna_method_anchor_pr.Blob.Split.{for_each_segment-Items, run_items}
use arianna_method_anchor_pr.Blob.Cursor.{Cursor, buffer, pushed, IsValid, append_within}
use arianna_method_anchor_pr.Blob.Hex.{ok, pull_hexdump}
use arianna_method_anchor_pr.Blob.Base64.{pull_base64}
use arianna_method_anchor_pr.Blob.Checksum.{Checksum, sha1, digest, stored, push_csum, pull_csum}
use arianna_method_anchor_pr.Blob.Checksum.Laws.{
  IsChecksum, csum_text, push_csum-refines, pull_csum-csum_text,
}

hello : pull_base64 (some (bytes "aGVsbG8=!")) (replicate 5 0) ≡ (some (bytes "!"), bytes "hello")
unfolding pull_base64
hello = refl

dump : pull_hexdump (some (bytes "4aF0-")) (replicate 2 0) ≡ ok (some (bytes "-"), 0x4a ∷ 0xf0 ∷ [])
unfolding pull_hexdump
dump = refl

-- The callback keeps the segments and stops behind one of two bytes.
abbrev keep : List (List ℕ) → List ℕ → ℤ × List (List ℕ)
keep seen s = ((if length s == 2 then pos 7 else pos 0), seen ++ s ∷ [])

segments :
    for_each_segment keep b' ' [] (bytes "a bcd ef g") []
    ≡ (pos 7, bytes "a" ∷ bytes "bcd" ∷ bytes "ef" ∷ [])
unfolding for_each_segment split
segments = refl

for_each_segment-Items_example :
    for_each_segment keep b' ' [] (bytes "a b c") []
    ≡ run_items keep (bytes "a" ∷ bytes "b" ∷ bytes "c" ∷ []) []
for_each_segment-Items_example =
    for_each_segment-Items keep b' ' (bytes "a" ∷ bytes "b" ∷ []) (bytes "c") [] (omega arith)
      (omega arith)

abbrev small : Option Cursor
small = buffer (replicate 8 0)

abbrev sum : Checksum
sum = record { data_bytes = bytes "abcdefghijklmnopqrst"; kind = sha1 }

sum-IsChecksum : IsChecksum sum
sum-IsChecksum = record { size = refl; known = inr refl; all_bytes = omega arith }

push_csum-refines_example :
    IsValid 8 (push_csum small sum)
    × (pushed 8 (push_csum small sum) ≡ append_within 8 (pushed 8 small) (csum_text sum))
push_csum-refines_example = push_csum-refines 8 small sum sum-IsChecksum (omega arith)

pull_csum-csum_text_example :
    pull_csum (some (csum_text sum ++ bytes "x")) (record { data_bytes = replicate 20 0; kind = 0 })
    ≡ ok (
      some (bytes "x"),
      stored (record { data_bytes = replicate 20 0; kind = 0 }) sha1 (digest sum),
    )
pull_csum-csum_text_example =
    pull_csum-csum_text sum (record { data_bytes = replicate 20 0; kind = 0 }) (bytes "x")
      sum-IsChecksum refl
