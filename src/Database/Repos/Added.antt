-- ===== src/Database/Repos/Added.antt =====
-- What `apk_db_add_repository` returns.
use mathlib.Core.Path.{subst}
use arianna_method_anchor_pr.Prelude.{
  ◌⊎◌, sym, ℕ, zero, suc, ◌+◌, ◌<◌, ◌≡◌, ◌≢◌, ◌≤◌, refl, Bool, true, false, length, length-set,
  Option, none, some, List, [], ◌∷◌, arith, leb, ◌==◌, ℤ, pos, negsuc, bytes, Bool-cases, inl, inr,
  ap, ◌∙◌,
}
use arianna_method_anchor_pr.Blob.Slices.{c_string}
use arianna_method_anchor_pr.Blob.Hex.{Access, ok, fault}
use arianna_method_anchor_pr.Database.Repos.{Repository, Repos, max_repos, opened_path}
use arianna_method_anchor_pr.Database.Repos.Add.{
  World, Index, no_index, mark_bad, opens, pick_index, cached_name, cached_index, local_index, load,
  loaded, place, new_repository, add_repository,
}

-- The marks of a repository whose index was loaded or not.
loaded_ok :
    {S : Type 0} (db db' : Repos) (o : ℤ × S) (rc : ℤ) (s' : S)
    → loaded db o ≡ ok (rc, db', s')
    → (rc ≡ pos 0) × (db'.num_repos ≡ db.num_repos) × (db'.repos ≡ db.repos)
unfolding loaded mark_bad
loaded_ok db db' (pos zero, s) rc s' h = ground (arith, h)
loaded_ok db db' (pos (suc n), s) rc s' h = ground (arith, h)
loaded_ok db db' (negsuc n, s) rc s' h = ground (arith, h)

-- An index that cannot be read ends in an undefined shift.
loaded_bad : {S : Type 0} (db : Repos) (n : ℕ) (s : S) → loaded db (negsuc n, s) ≡ fault
unfolding loaded mark_bad
loaded_bad db n s = refl

nothing_opens :
    (can : List ℕ → Bool) (o : Option (List ℕ))
    → ((t : List ℕ) → can t ≡ false)
    → opens can o ≡ false
nothing_opens can none h = refl
nothing_opens can (some t) h = h t

nothing_picked : (a b : Bool) → a ≡ false → b ≡ false → pick_index a b ≡ no_index
nothing_picked a b h k = ground (arith, h, k)

-- What holds when `apk_db_add_repository` returns.
abbrev pub AddResult : {S : Type 0} → Repos → Repos → S → S → ℤ → Type 0
AddResult db db' s s' rc =
    (db'.num_repos ≤ max_repos)
    × (length db'.repos ≡ length db.repos)
    × ((rc ≡ pos 0) ⊎ ((rc ≡ negsuc 0) × (db' ≡ db) × (s' ≡ s) × (db.num_repos ≡ max_repos)))

parts :
    {S : Type 0} (rc rc' : ℤ) (db db' : Repos) (s s' : S)
    → ◌≡◌ {A = Access (ℤ × Repos × S)} (ok (rc, db, s)) (ok (rc', db', s'))
    → (rc' ≡ rc) × (db' ≡ db) × (s' ≡ s)
parts rc rc' db db' s s' e = (cc, cc, cc)

kept_bounded :
    {S : Type 0} (db db' : Repos) (s s' : S) (rc : ℤ)
    → db.num_repos ≤ max_repos
    → ◌≡◌ {A = Access (ℤ × Repos × S)} (ok (pos 0, db, s)) (ok (rc, db', s'))
    → AddResult db db' s s' rc
kept_bounded db db' s s' rc h e =
    let (z, d, _) = parts (pos 0) rc db db' s s' e in
    (
      subst (λ (x : Repos). x.num_repos ≤ max_repos) (sym d) h,
      ap (λ (x : Repos). length x.repos) d,
      inl z,
    )

full_bounded :
    {S : Type 0} (db db' : Repos) (s s' : S) (rc : ℤ)
    → db.num_repos ≤ max_repos
    → leb max_repos db.num_repos ≡ true
    → ◌≡◌ {A = Access (ℤ × Repos × S)} (ok (negsuc 0, db, s)) (ok (rc, db', s'))
    → AddResult db db' s s' rc
full_bounded db db' s s' rc h full e =
    let (z, d, same) = parts (negsuc 0) rc db db' s s' e in
    (
      subst (λ (x : Repos). x.num_repos ≤ max_repos) (sym d) h,
      ap (λ (x : Repos). length x.repos) d,
      inr (z, d, same, ground arith),
    )

module _ {S : Type 0} (w : World S) (no_network update_cache : Bool) where
  place_more :
      (db : Repos) (s : S) (t : List ℕ)
      → let (db', s', i) = place w no_network update_cache db s t in
        (db'.num_repos ≡ db.num_repos + 1) × (length db'.repos ≡ length db.repos)
  unfolding place
  place_more db s t = elim (Bool-cases (w.is_local (c_string t))) [
    | inl e ↦ rw e (refl, length-set db.repos db.num_repos _)
    | inr e ↦ rw e (refl, length-set db.repos db.num_repos _)
  ]

  cached_nothing :
      (s : S) (repo : Repository)
      → ((s : S) (t : List ℕ) → w.in_cache s t ≡ false)
      → cached_index w s repo ≡ no_index
  unfolding cached_index
  cached_nothing s repo h =
      nothing_picked _ _ (nothing_opens (w.in_cache s) (cached_name repo 0) (h s))
        (nothing_opens (w.in_cache s) (cached_name repo 1) (h s))

  local_nothing :
      (s : S) (repo : Repository)
      → ((s : S) (t : List ℕ) → w.in_repository s t ≡ false)
      → local_index w no_network s repo ≡ no_index
  unfolding local_index
  local_nothing s repo h =
      let path = opened_path no_network repo in
      nothing_picked _ _ (nothing_opens (w.in_repository s) (path (bytes "APKINDEX.tar.gz")) (h s))
        (nothing_opens (w.in_repository s) (path (bytes "APK_INDEX.gz")) (h s))

  place_nothing :
      (db : Repos) (s : S) (t : List ℕ)
      → ((s : S) (t : List ℕ) → w.in_cache s t ≡ false)
      → ((s : S) (t : List ℕ) → w.in_repository s t ≡ false)
      → (place w no_network update_cache db s t).2 ≡ no_index
  unfolding place
  place_nothing db s t no_cache no_file = elim (Bool-cases (w.is_local (c_string t))) [
    | inl e ↦ rw e (local_nothing s _ no_file)
    | inr e ↦ rw e (cached_nothing _ _ no_cache)
  ]

  -- A repository that is not a comment and has a place, but none of whose indexes can be opened, is
  -- not marked as bad: the code shifts by the error, which is negative and undefined.
  pub add_repository-fault :
      (db : Repos) (s : S) (c : ℕ) (t : List ℕ)
      → db.num_repos < max_repos
      → c ≢ b'#'
      → ((s : S) (t : List ℕ) → w.in_cache s t ≡ false)
      → ((s : S) (t : List ℕ) → w.in_repository s t ≡ false)
      → add_repository w no_network update_cache db s (c ∷ t) ≡ fault
  unfolding add_repository new_repository load loaded
  add_repository-fault db s c t room comment no_cache no_file =
      let (db', s', i) = place w no_network update_cache db s (c ∷ t) in
      let e = place_nothing db s (c ∷ t) no_cache no_file in
      let z : new_repository w no_network update_cache db s (c ∷ t) ≡ fault =
        ap (λ (x : Index). loaded db' (load w x db.num_repos s')) e in
      ground (arith, z)

  -- When `apk_db_add_repository` returns, there are at most APK_MAX_REPOS repositories, if there were
  -- no more before, and their array is as long as before; it returns 0, or -1 with nothing changed when
  -- there were already as many.
  pub add_repository_bounded :
      (db db' : Repos) (s s' : S) (t : List ℕ) (rc : ℤ)
      → db.num_repos ≤ max_repos
      → add_repository w no_network update_cache db s t ≡ ok (rc, db', s')
      → AddResult db db' s s' rc
  unfolding add_repository new_repository
  add_repository_bounded db db' s s' [] rc h e = kept_bounded db db' s s' rc h e
  add_repository_bounded db db' s s' (c ∷ t) rc h e =
      let (mid, s'', i) = place w no_network update_cache db s (c ∷ t) in
      let (n, l) = place_more db s (c ∷ t) in
      elim (Bool-cases (c == b'#')) [
        | inl y ↦ kept_bounded db db' s s' rc h (rw y at e)
        | inr m ↦ elim (Bool-cases (leb max_repos db.num_repos)) [
          | inl y ↦ full_bounded db db' s s' rc h y (rw (m, y) at e)
          | inr o ↦
              let (z, k, r) =
                loaded_ok mid db' (load w i db.num_repos s'') rc s' (rw (m, o) at e) in
              (ground arith, ap (λ (x : List Repository). length x) r ∙ l, inl z)
        ]
      ]
