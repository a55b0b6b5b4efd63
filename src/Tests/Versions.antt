-- ===== src/Tests/Versions.antt =====
-- Versions that are compared and validated.
use arianna_method_anchor_pr.Prelude.{◌+◌, ◌*◌, ◌≡◌, refl, true, false, some, repeat, bytes}
use arianna_method_anchor_pr.Version.{get_token}
use arianna_method_anchor_pr.Version.Compare.{
  less, greater, start, agree, validate, compare_loop, compare_strings, verdict, compare_blob,
}
use arianna_method_anchor_pr.Version.Order.{compare_blob-swap, compare_loop_ends, converse}

prerelease : compare_blob (some (bytes "1.2_rc3")) (some (bytes "1.2")) ≡ less
unfolding compare_blob compare_strings compare_loop repeat verdict get_token
prerelease = refl

revision_counts : compare_blob (some (bytes "1.2-r10")) (some (bytes "1.2-r9")) ≡ greater
unfolding compare_blob compare_strings compare_loop repeat verdict get_token
revision_counts = refl

leading_zeros : compare_blob (some (bytes "1.002")) (some (bytes "1.02")) ≡ less
unfolding compare_blob compare_strings compare_loop repeat verdict get_token
leading_zeros = refl

valid_version : validate (bytes "0.9.8k_p2-r3") ≡ true
unfolding validate repeat get_token
valid_version = refl

-- The empty text and a dot at the end are accepted too.
valid_dot : validate (bytes "1.") ≡ true
unfolding validate repeat get_token
valid_dot = refl

valid_empty : validate (bytes "") ≡ true
unfolding validate repeat get_token
valid_empty = refl

invalid_suffix : validate (bytes "1.0_foo") ≡ false
unfolding validate repeat get_token
invalid_suffix = refl

compare_blob-swap_example :
    compare_blob (some (bytes "1.2")) (some (bytes "1.2a"))
    ≡ converse (compare_blob (some (bytes "1.2a")) (some (bytes "1.2")))
compare_blob-swap_example = compare_blob-swap (some (bytes "1.2a")) (some (bytes "1.2"))

compare_loop_ends_example :
    (agree (compare_loop (2 * 3 + 2 * 3 + 6) (start (bytes "1.2"), start (bytes "1.3"))) ≡ false)
    × (compare_loop (2 * 3 + 2 * 3 + 6 + 5) (start (bytes "1.2"), start (bytes "1.3"))
        ≡ compare_loop (2 * 3 + 2 * 3 + 6) (start (bytes "1.2"), start (bytes "1.3")))
compare_loop_ends_example = compare_loop_ends (bytes "1.2") (bytes "1.3") 5
