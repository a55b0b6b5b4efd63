-- ===== src/Database/Repos/Choice.antt =====
-- Which repository a package is taken from.
use Prim.Native.Nat.{bit_and}
use arianna_method_anchor_pr.Prelude.{
  ℕ, zero, suc, ◌+◌, ◌^◌, ◌<◌, ◌≤◌, ◌≡◌, refl, sym, ap, ◌∙◌, Bool, true, false, not, ◌&&◌, ◌||◌,
  none, some, arith, leb, ◌==◌, if◌then◌else◌, Bool-cases, inl, inr, has_bit, complement, bit_test,
  bit_test-eq, has_bit-bit_and, has_bit-complement,
}
use arianna_method_anchor_pr.Database.Repos.{
  Repos, cache_repo, nth, max_repos, usable, first_bit, db_select_repo,
}

first_bit_set :
    (n repos i : ℕ)
    → let k = first_bit n repos i in
      (i ≤ k) × (k ≤ i + n) × ((has_bit repos k || leb (i + n) k) ≡ true)
unfolding first_bit
first_bit_set zero repos i = (omega arith, omega arith, ground arith)
first_bit_set (suc n) repos i = elim (Bool-cases (has_bit repos i)) [
  | inl e ↦ rw (bit_test-eq i repos, e) (omega arith, omega arith, rw e refl)
  | inr e ↦
      let (a, b, c) = first_bit_set n repos (suc i) in
      rw (bit_test-eq i repos, e) (omega arith, omega arith, ground arith)
]

first_bit_least : (n repos i j : ℕ) → i ≤ j → j < first_bit n repos i → has_bit repos j ≡ false
unfolding first_bit
first_bit_least zero repos i j h k = absurd (omega arith)
first_bit_least (suc n) repos i j h k = elim (Bool-cases (has_bit repos i)) [
  | inl e ↦ absurd (let z = rw (bit_test-eq i repos, e) at k in omega arith)
  | inr e ↦
      let z = rw (bit_test-eq i repos, e) at k in
      elim (Bool-cases (i == j)) [
        | inl y ↦ let same : i ≡ j = ground arith in sym (ap (λ (x : ℕ). has_bit repos x) same) ∙ e
        | inr ne ↦ first_bit_least n repos (suc i) j (ground arith) z
      ]
]

has_bit-zero : (i : ℕ) → has_bit 0 i ≡ false
has_bit-zero zero = refl
has_bit-zero (suc i) = has_bit-zero i

both : (a b : Bool) → (a && b) ≡ true → (a ≡ true) × (b ≡ true)
both true b h = (refl, h)
both false b h = absurd (ground arith)

unless : (a b : Bool) → a ≡ false → (not a || b) ≡ true
unless true b h = absurd (ground arith)
unless false b h = refl

-- A repository of the package that is not bad.
abbrev pub is_good : Repos → ℕ → ℕ → Bool
is_good db repos i = has_bit repos i && not (has_bit db.bad_repos i)

-- The good repositories, by their bits.
good_bits :
    (db : Repos) (repos i : ℕ)
    → i < 32
    → db.bad_repos < 2 ^ 32
    → has_bit (bit_and repos (complement db.bad_repos)) i ≡ is_good db repos i
good_bits db repos i h k =
    has_bit-bit_and i repos (complement db.bad_repos)
    ∙ ap (λ (b : Bool). has_bit repos i && b) (has_bit-complement i db.bad_repos h k)

-- A usable repository is good, and local if any good one is.
usable_bits :
    (db : Repos) (repos i j : ℕ)
    → i < 32
    → j < 32
    → db.bad_repos < 2 ^ 32
    → has_bit (usable db repos) i ≡ true
    → (is_good db repos i ≡ true)
      × ((not (is_good db repos j && has_bit db.local_repos j) || has_bit db.local_repos i) ≡ true)
unfolding usable
usable_bits db repos i j h k b set =
    let good = bit_and repos (complement db.bad_repos) in
    let near = bit_and good db.local_repos in
    let good_i = good_bits db repos i h b in
    let near_i = has_bit-bit_and i good db.local_repos in
    let near_j = has_bit-bit_and j good db.local_repos in
    let good_j = good_bits db repos j k b in
    elim (Bool-cases (near == 0)) [
      | inl e ↦
          let set' = rw e at set in
          let none : has_bit near j ≡ false =
            ap (λ (x : ℕ). has_bit x j) (ground arith) ∙ has_bit-zero j in
          (
            sym good_i ∙ set',
            unless (is_good db repos j && has_bit db.local_repos j) (has_bit db.local_repos i)
                (ap (λ (x : Bool). x && has_bit db.local_repos j) (sym good_j) ∙ sym near_j ∙ none),
          )
      | inr e ↦
          let set' = rw e at set in
          let (g, l) = both (has_bit good i) (has_bit db.local_repos i) (sym near_i ∙ set') in
          (sym good_i ∙ g, rw l (ground arith))
    ]

chosen_inv :
    (no_network cached l : Bool) (i k : ℕ)
    → (if (leb max_repos i || (not l && no_network)) && not cached
        then none
        else if leb max_repos i
        then some cache_repo
        else some (nth i))
      ≡ some (nth k)
    → (i < max_repos) × (i ≡ k) × ((l || not no_network || cached) ≡ true)
chosen_inv no_network cached l i k e = ground arith

-- The `k`th repository, if `apk_db_select_repo` chooses one, with `j` any other: it is one of the
-- APK_MAX_REPOS, has the package, and is not bad; it is local if any such repository is; and it can be
-- reached, or the package is in the cache.
pub db_select_repo_good :
    (no_network cached : Bool) (db : Repos) (repos k j : ℕ)
    → db.bad_repos < 2 ^ 32
    → j < max_repos
    → db_select_repo no_network cached db repos ≡ some (nth k)
    → (k < max_repos)
      × (is_good db repos k ≡ true)
      × ((not (is_good db repos j && has_bit db.local_repos j) || has_bit db.local_repos k) ≡ true)
      × ((has_bit db.local_repos k || not no_network || cached) ≡ true)
unfolding db_select_repo
db_select_repo_good no_network cached db repos k j b less e =
    let i = first_bit max_repos (usable db repos) 0 in
    let (_, _, found) = first_bit_set max_repos (usable db repos) 0 in
    let (small, same, reach) = chosen_inv no_network cached (bit_test db.local_repos i) i k e in
    let bit : has_bit (usable db repos) i ≡ true = ground arith in
    let bit_k = ap (λ (x : ℕ). has_bit (usable db repos) x) (sym same) ∙ bit in
    let less_k : k < max_repos = omega arith in
    let (good, near) = usable_bits db repos k j less_k less b bit_k in
    (less_k, good, near, rw (bit_test-eq i db.local_repos, same) at reach)

-- The repository that `apk_db_select_repo` chooses is the first of those that it looks through.
pub db_select_repo_first :
    (no_network cached : Bool) (db : Repos) (repos k j : ℕ)
    → db_select_repo no_network cached db repos ≡ some (nth k)
    → j < k
    → has_bit (usable db repos) j ≡ false
unfolding db_select_repo
db_select_repo_first no_network cached db repos k j e less =
    let i = first_bit max_repos (usable db repos) 0 in
    let (_, same, _) = chosen_inv no_network cached (bit_test db.local_repos i) i k e in
    first_bit_least max_repos (usable db repos) 0 j (omega arith) (omega arith)
