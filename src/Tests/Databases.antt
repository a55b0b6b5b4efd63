-- ===== src/Tests/Databases.antt =====
-- Databases of apk-tools/src/database.c that can be followed in the source.
use arianna_method_anchor_pr.Prelude.{
  ℕ, suc, ◌<◌, ◌≡◌, refl, Bool, true, false, not, ◌&&◌, ◌||◌, none, some, List, [], ◌∷◌, arith,
  replicate, bytes, pos, has_bit, bit_test,
}
use arianna_method_anchor_pr.Blob.Slices.{c_string}
use arianna_method_anchor_pr.Blob.Hex.{ok, fault}
use arianna_method_anchor_pr.Blob.Checksum.{Checksum, digest}
use arianna_method_anchor_pr.Hash.{init}
use arianna_method_anchor_pr.Hash.Laws.{get-init}
use arianna_method_anchor_pr.Package.Info.{no_file}
use arianna_method_anchor_pr.Database.Names.{
  NameItem, Names, Links, no_links, name_ops, query_name, get_name,
}
use arianna_method_anchor_pr.Database.Names.Table
use arianna_method_anchor_pr.Database.Packages.{
  Info, Packages, info_ops, rdepends_at, pkg_rdepends, is_listed, get_pkg, pkg_add,
}
use arianna_method_anchor_pr.Database.Links.{rdepends-pkg_rdepends}
use arianna_method_anchor_pr.Database.Merge
use arianna_method_anchor_pr.Database.Repos.{
  Repos, no_csum, nth, max_repos, db_select_repo, cache_repo, usable, first_bit, opened_path,
}
use arianna_method_anchor_pr.Database.Repos.Choice.{is_good, db_select_repo_good}
use arianna_method_anchor_pr.Database.Repos.Add.{
  World, add_repository, new_repository, loaded, load, place, local_index,
}
use arianna_method_anchor_pr.Database.Repos.Added.{
  AddResult, add_repository-fault, add_repository_bounded,
}

-- No names yet.
abbrev no_names : Names
no_names = record { table = init 4; name_id = 0; links = [] }

no_names-IsValid : Table.IsValid no_names
unfolding query_name
no_names-IsValid = record {
  some_buckets = unfold init in omega arith;
  counted = refl;
  in_range = omega arith;
  fits =
      λ s n found. let missing = get-init name_ops 4 s in absurd (ground (arith, missing, found));
  apart = λ s t m n found _ _.
      let missing = get-init name_ops 4 s in absurd (ground (arith, missing, found));
}

get_name-IsValid_example :
    let (o, db') = get_name true no_names (bytes "musl") in
    (n : NameItem) × (o ≡ some n)
    × (query_name db' (bytes "musl") ≡ some n)
    × (get_name false db' (bytes "musl") ≡ (some n, db'))
    × Table.Fits db' (bytes "musl") n
    × Table.IsValid db'
unfolding c_string
get_name-IsValid_example =
    Table.get_name-IsValid no_names (bytes "musl") false no_names-IsValid (omega arith) refl

-- The names 0, 1 and 2, of which 1 is known to be needed by 0.
abbrev three : List Links
three = no_links ∷ record { pkgs = []; rdepends = 0 ∷ [] } ∷ no_links ∷ []

-- A second version of the package 0 needs 1 and 2 too: that 2 is needed by 0 is lost.
rdepends-pkg_rdepends_example : rdepends_at (pkg_rdepends three 0 (1 ∷ 2 ∷ [])) 2 ≡ []
unfolding is_listed
rdepends-pkg_rdepends_example = rdepends-pkg_rdepends three 0 (1 ∷ 2 ∷ []) 2 refl

-- In the other order it is kept.
rdepends_run : rdepends_at (pkg_rdepends three 0 (2 ∷ 1 ∷ [])) 2 ≡ 0 ∷ []
unfolding pkg_rdepends is_listed
rdepends_run = refl

abbrev some_csum : Checksum
some_csum = record { data_bytes = 7 ∷ replicate 19 0; kind = 20 }

abbrev no_packages : Packages
no_packages = record { table = init 4; infos = []; links = three }

abbrev musl : Info
musl = record { name = 0; depends = 1 ∷ 2 ∷ []; repos = 1; filename = no_file; ipkg = none }

no_packages-IsValid : Merge.IsValid no_packages
unfolding get_pkg
no_packages-IsValid = record {
  some_buckets = unfold init in omega arith;
  placed = λ c i found.
      let missing = get-init info_ops 4 (digest c) in absurd (ground (arith, missing, found));
}

get_pkg-pkg_add_example :
    let (i, db') = pkg_add no_packages some_csum musl in
    (get_pkg db' some_csum ≡ some i)
    × (Merge.info_at db' i ≡ Merge.outcome no_packages (get_pkg no_packages some_csum) musl)
    × Merge.IsValid db'
get_pkg-pkg_add_example = Merge.get_pkg-pkg_add no_packages some_csum musl no_packages-IsValid

-- Two repositories, of which the second is local.
abbrev two_repos : Repos
two_repos = record { repos = []; num_repos = 2; local_repos = 2; bad_repos = 0 }

local_first : db_select_repo true false two_repos 3 ≡ some (nth 1)
unfolding db_select_repo usable first_bit bit_test
local_first = refl

db_select_repo_good_example :
    (1 < max_repos)
    × (is_good two_repos 3 1 ≡ true)
    × ((not (is_good two_repos 3 0 && has_bit 2 0) || has_bit 2 1) ≡ true)
    × ((has_bit 2 1 || not true || false) ≡ true)
db_select_repo_good_example =
    db_select_repo_good true false two_repos 3 1 0 (omega arith) (omega arith) local_first

-- A package of no repository is taken from the cache only.
cache_run :
    (db_select_repo false true two_repos 0 ≡ some cache_repo)
    × (db_select_repo false false two_repos 0 ≡ none)
unfolding db_select_repo usable first_bit bit_test
cache_run = (refl, refl)

abbrev no_repos : Repos
no_repos = record {
  repos = replicate 32 (record { url = []; csum = no_csum; description = none });
  num_repos = 0;
  local_repos = 0;
  bad_repos = 0;
}

-- A world where files can be opened or not, and indexes are loaded.
abbrev world : Bool → World ℕ
world can_open = record {
  is_local = λ s. true;
  checksum = λ s. no_csum;
  update = λ r s. s;
  in_cache = λ s t. can_open;
  in_repository = λ s t. can_open;
  load_index = λ targz r s. (pos 0, suc s);
}

add_repository-fault_example :
    add_repository (world false) false false no_repos 0 (bytes "/a") ≡ fault
add_repository-fault_example =
    add_repository-fault (world false) false false no_repos 0 b'/' (bytes "a") (omega arith)
      (λ e. absurd (omega (arith, e))) (λ s t. refl) (λ s t. refl)

abbrev added : Repos
added = record {
  repos =
      record { url = bytes "/a"; csum = no_csum; description = none }
      ∷ replicate 31 (record { url = []; csum = no_csum; description = none });
  num_repos = 1;
  local_repos = 1;
  bad_repos = 0;
}

add_run : add_repository (world true) false false no_repos 0 (bytes "/a") ≡ ok (pos 0, added, 1)
unfolding add_repository new_repository loaded load place local_index opened_path c_string
add_run = refl

add_repository_bounded_example : AddResult {S = ℕ} no_repos added 0 1 (pos 0)
add_repository_bounded_example =
    add_repository_bounded (world true) false false no_repos added 0 1 (bytes "/a") (pos 0)
      (omega arith) add_run
