-- ===== src/Tests/Tables.antt =====
-- The theorems on the hash table at texts that are their own keys.
use arianna_method_anchor_pr.Prelude.{
  ℕ, ◌+◌, ◌≡◌, refl, true, some, none, List, bytes, arith, if◌then◌else◌, length, ap, sym, ◌<◌, ℤ,
  pos, negsuc, int_eq,
}
use arianna_method_anchor_pr.Blob.Slices.{hash, compare}
use arianna_method_anchor_pr.Blob.Order.{compare_iff}
use arianna_method_anchor_pr.Hash.{Ops, Hash, init, get, insert, delete, answers, hash_of_item}
use arianna_method_anchor_pr.Hash.Laws.{IsLawful, get-insert, delete-total, total}

abbrev texts : Ops (List ℕ) (List ℕ)
texts = record {
  get_key = λ x. x;
  hash_key = hash;
  hash_item = none;
  compare = compare;
  compare_item = none;
}

answers-eq : (x key : List ℕ) → answers texts x key ≡ true → key ≡ x
unfolding answers
answers-eq x key h = (compare_iff key x).0 (zero_of (compare key x) h)
  where
    zero_of : (n : ℤ) → int_eq n (pos 0) ≡ true → n ≡ pos 0
    zero_of (pos n) e = ground arith
    zero_of (negsuc n) e = ground arith

texts-IsLawful : IsLawful texts
unfolding hash_of_item
texts-IsLawful = record { same_hash = λ x key h. ap hash (sym (answers-eq x key h)) }

abbrev fresh : Hash (List ℕ)
fresh = init 4

fresh-buckets : 0 < length fresh.buckets
unfolding init
fresh-buckets = omega arith

abbrev one : Hash (List ℕ)
one = insert texts fresh (bytes "apk")

one-buckets : 0 < length one.buckets
unfolding init insert hash
one-buckets = omega arith

get-insert_example : get texts one (bytes "apk") ≡ (
    if answers texts (bytes "apk") (bytes "apk")
    then some (bytes "apk")
    else get texts fresh (bytes "apk"))
get-insert_example = get-insert texts texts-IsLawful fresh fresh-buckets (bytes "apk") (bytes "apk")

apk_answers : answers texts (bytes "apk") (bytes "apk") ≡ true
unfolding answers compare
apk_answers = refl

delete-total_example :
    (total texts (delete texts one (bytes "apk")).buckets + 1 ≡ total texts one.buckets)
    × ((delete texts one (bytes "apk")).num_items ≡ one.num_items)
unfolding get insert init hash compare answers
delete-total_example = delete-total texts one one-buckets (bytes "apk") (bytes "apk") refl
