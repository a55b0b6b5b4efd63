-- ===== src/Solver.antt =====
-- apk-tools/src/state.c, apk_state.h: the names of a solution, and how a dependency prunes their
-- candidates.
pub mod Lock
pub mod Weight
pub mod Prune
pub mod Pick
pub mod Candidates
pub mod Ends
pub mod Broken
pub mod Calls
pub mod Total
pub mod Clean
pub mod Commit
pub mod Count
pub mod Apply
pub mod Headings
use Prim.Native.Nat.{bit_and}
use arianna_method_anchor_pr.Prelude.{
  ℕ, suc, ◌+◌, Bool, true, false, not, ◌&&◌, ◌||◌, Option, none, some, List, [], ◌∷◌, ◌++◌, ltb,
  leb, ◌==◌, if◌then◌else◌, length, get_or, set, take, ◌%◌, ◌^◌, replicate, ℤ, pos, negsuc, keep_if,
}
use arianna_method_anchor_pr.Version.Compare.{compare_blob}
use arianna_method_anchor_pr.Package.Dependency.{require, conflict}
use arianna_method_anchor_pr.Package.Info.{Filename, no_file, uninstallable, named}

-- `struct apk_dependency`, where the name is the `id` of its `struct apk_name`.
pub record Dep : Type 0 where
  pub name : ℕ
  pub mask : ℕ
  pub version : Option (List ℕ)

-- What the solver reads of a `struct apk_package`: `id` stands for its address, and `installed`
-- says that `ipkg` is not NULL.
pub record Pkg : Type 0 where
  pub id : ℕ
  pub name : ℕ
  pub version : Option (List ℕ)
  pub depends : List Dep
  pub installed : Bool
  pub installed_size : ℕ
  pub repos : ℕ
  pub filename : Filename

-- `struct apk_name` with its flags.
pub record Name : Type 0 where
  pub toplevel : Bool
  pub reinstall : Bool
  pub toplevel_override : Bool
  pub pkgs : List Pkg
  pub rdepends : List ℕ

-- What the solver reads of the database: its names by their `id`, and whether
-- `apk_db_select_repo` finds a repository for a package.
pub record Db : Type 0 where
  pub names : List Name
  pub world : List Dep
  pub select_repo : Pkg → Bool

abbrev pub no_name : Name
no_name = record {
  toplevel = false;
  reinstall = false;
  toplevel_override = false;
  pkgs = [];
  rdepends = [];
}

abbrev pub name_at : Db → ℕ → Name
name_at db i = get_or db.names i no_name

-- What `apk_name_state_t` is behind NULL: the candidates, or a package with APK_NS_LOCKED and with
-- or without APK_NS_PENDING and APK_NS_ERROR. No two states share candidates: `refs` is 1.
pub data Visited : Type 0 where
  choices : List Pkg → Visited
  locked : Bool → Bool → Option Pkg → Visited

pub data NameState : Type 0 where
  empty : NameState
  visited : Visited → NameState

pub record Change : Type 0 where
  pub oldpkg : Option Pkg
  pub newpkg : Option Pkg

pub record State : Type 0 where
  pub names : List NameState
  pub missing : List ℕ
  pub conflicts : List Pkg
  pub changes : List Change

-- `apk_state_new`
abbrev pub state_new : ℕ → State
state_new name_id = record {
  names = replicate name_id empty;
  missing = [];
  conflicts = [];
  changes = [];
}

abbrev pub at : State → ℕ → NameState
at s i = get_or s.names i empty

abbrev pub put : State → ℕ → Visited → State
put s i v = record s { names = set s.names i (visited v) }

-- `apk_version_compare(pkg->version, dep->version) & dep->result_mask`
unfoldable pub matches : Dep → Pkg → Bool
unfolding compare_blob
matches d p = not (bit_and (compare_blob p.version d.version) d.mask == 0)

unfoldable pub installable : Pkg → Bool
installable p = elim p.filename [ uninstallable ↦ false | no_file ↦ true | named s ↦ true ]

-- The loop over the global dependencies.
unfoldable pub world_loop : List Dep → ℕ → List Pkg → List Pkg
unfolding keep_if matches
world_loop [] i c = c
world_loop (d ∷ ds) i c = world_loop ds i (if d.name == i then keep_if (matches d) c else c)

-- `ns_from_choices` of `name_choices_new`; `num` is an `unsigned short`, which is set to the number of
-- packages.
unfoldable pub candidates : Db → ℕ → Visited
unfolding keep_if installable world_loop
candidates db i =
    let name = name_at db i in
    let c = keep_if installable (take (length name.pkgs % 2 ^ 16) name.pkgs) in
    if length name.pkgs == 0
    then locked true false none
    else if name.toplevel_override
    then choices c
    else choices (world_loop db.world i c)

unfoldable pub is_available : Db → Pkg → Bool
is_available db p =
    p.installed
    || p.installed_size == 0
    || elim p.filename [ no_file ↦ false | uninstallable ↦ true | named s ↦ true ]
    || db.select_repo p

abbrev pub missed : State → ℕ → State
missed s i = record s { missing = s.missing ++ i ∷ [] }

-- What follows the pruning of candidates.
unfoldable pub settle : Db → State → ℕ → List Pkg → ℤ × State
unfolding is_available
settle db s i [] = (negsuc 0, missed (put s i (locked true false none)) i)
settle db s i (p ∷ []) =
    if is_available db p
    then (pos 1, put s i (locked true false (some p)))
    else (negsuc 0, missed (put s i (locked true false none)) i)
settle db s i (p ∷ q ∷ c) = (pos (length (p ∷ q ∷ c)), put s i (choices (p ∷ q ∷ c)))

abbrev pub pending_status : Bool → ℤ
pending_status pending = if pending then pos 1 else pos 0

-- The dependency against what is known of its name.
unfoldable pub prune_visited : Db → State → Dep → Visited → ℤ × State
unfolding settle matches keep_if
prune_visited db s d (choices c) = settle db s d.name (keep_if (matches d) c)
prune_visited db s d (locked pending true p) = (negsuc 0, s)
prune_visited db s d (locked pending false none) =
    if d.mask == conflict
    then (pending_status pending, s)
    else if pending
    then (negsuc 0, missed (put s d.name (locked false false none)) d.name)
    else (negsuc 0, s)
prune_visited db s d (locked pending false (some p)) =
    if matches d p then (pending_status pending, s) else (negsuc 0, s)

unfoldable pub prune_at : Db → State → Dep → NameState → ℤ × State
unfolding prune_visited candidates
prune_at db s d empty =
    let v = candidates db d.name in
    if d.mask == conflict
    then (pos 1, put s d.name (locked true false none))
    else prune_visited db (put s d.name v) d v
prune_at db s d (visited v) = prune_visited db s d v

-- `apk_state_prune_dependency`
unfoldable pub prune_dependency : Db → State → Dep → ℤ × State
unfolding prune_at
prune_dependency db s d =
    if leb (length s.names) d.name then (negsuc 0, s) else prune_at db s d (at s d.name)
