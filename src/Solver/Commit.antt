-- ===== src/Solver/Commit.antt =====
-- apk-tools/src/state.c: what a solution comes to, and its changes made one by one.
use arianna_method_anchor_pr.Prelude.{
  ℕ, zero, suc, ◌+◌, ◌%◌, ◌^◌, Bool, true, false, not, ◌&&◌, ◌||◌, Option, none, some, List, [],
  ◌∷◌, ◌==◌, if◌then◌else◌, ℤ, pos, negsuc, int_eq, fill_from_end,
}
use Prim.Native.Nat.{bit_and, bit_or}
use arianna_method_anchor_pr.Version.Compare.{compare_blob, less, greater, equal}
use arianna_method_anchor_pr.Solver.{Dep, Pkg, Name, Db, Change, State, name_at}
use arianna_method_anchor_pr.Solver.Lock.{Outcome, ran, crash, spent, Flags}
use arianna_method_anchor_pr.Solver.Clean.{autoclean}

-- `struct apk_stats`, in 32-bit numbers.
pub record Stats : Type 0 where
  pub bytes : ℕ
  pub packages : ℕ

abbrev pub no_stats : Stats
no_stats = record { bytes = 0; packages = 0 }

abbrev pub with_new : Option Pkg → Stats → Stats
with_new none t = t
with_new (some p) t = record {
  bytes = (t.bytes + p.installed_size) % 2 ^ 32;
  packages = (t.packages + 1) % 2 ^ 32;
}

abbrev pub with_old : Option Pkg → Stats → Stats
with_old none t = t
with_old (some p) t = record t { packages = (t.packages + 1) % 2 ^ 32 }

-- `apk_count_change`
abbrev pub count_change : Change → Stats → Stats
count_change c t = with_old c.oldpkg (with_new c.newpkg t)

abbrev pub compare_pkgs : Pkg → Pkg → ℕ
compare_pkgs p q = compare_blob p.version q.version

-- `cmp_remove`, `cmp_new`, `cmp_downgrade` and `cmp_upgrade`
unfoldable pub cmp_remove : Change → Bool
cmp_remove c = elim c.newpkg [ none ↦ true | some p ↦ false ]

unfoldable pub cmp_new : Change → Bool
cmp_new c = elim c.oldpkg [ none ↦ true | some p ↦ false ]

abbrev pub both : (Pkg → Pkg → Bool) → Option Pkg → Option Pkg → Bool
both f (some p) (some q) = f p q
both f (some p) none = false
both f none q = false

unfoldable pub cmp_downgrade : Change → Bool
unfolding compare_blob
cmp_downgrade c = both (λ p q. not (bit_and (compare_pkgs p q) less == 0)) c.newpkg c.oldpkg

unfoldable pub cmp_upgrade : Change → Bool
unfolding compare_blob
cmp_upgrade c =
    both (λ p q. not (bit_and (compare_pkgs p q) (bit_or greater equal) == 0) && not (p.id == q.id))
      c.newpkg c.oldpkg

-- The matches that `dump_packages` counts.
abbrev pub matched : (Change → Bool) → List Change → ℕ
matched cmp [] = 0
matched cmp (c ∷ cs) = (if cmp c then 1 else 0) + matched cmp cs

-- The word that `apk_print_change` shows for a change, which may be none.
pub data Verb : Type 0 where
  installing : Verb
  purging : Verb
  downgrading : Verb
  reinstalling : Verb
  upgrading : Verb
  unnamed : Verb

unfoldable pub verb_of : Option Pkg → Option Pkg → Verb
unfolding compare_blob
verb_of none new = installing
verb_of (some p) none = purging
verb_of (some p) (some q) =
    let r = compare_pkgs q p in
    if r == less
    then downgrading
    else if r == equal && q.id == p.id
    then reinstalling
    else if r == equal || r == greater
    then upgrading
    else unnamed

-- What the first loop of `apk_state_commit` finds out.
pub record Plan : Type 0 where
  pub numpkg : ℕ
  pub toplevel : Bool
  pub deleteonly : Bool
  pub total : Stats

abbrev pub no_plan : Plan
no_plan = record { numpkg = 0; toplevel = false; deleteonly = true; total = no_stats }

-- A count over, a pointer used that is none, or no fuel left.
pub data Counted : Type 0 where
  counted : Plan → State → Counted
  lost : Counted
  unfinished : Counted

abbrev pub change_at : List Change → ℕ → Option Change
change_at [] i = none
change_at (c ∷ cs) zero = some c
change_at (c ∷ cs) (suc i) = change_at cs i

module _ (db : Db) where
  -- The package of a top-level name.
  abbrev pub is_toplevel : Option Pkg → Bool
  is_toplevel none = false
  is_toplevel (some p) = (name_at db p.name).toplevel

  -- A removal of such a package.
  unfoldable pub drops_toplevel : Change → Bool
  unfolding cmp_remove
  drops_toplevel c = cmp_remove c && is_toplevel c.oldpkg

  unfoldable pub note : Plan → Change → Plan
  unfolding drops_toplevel cmp_remove
  note plan c = record {
    numpkg = plan.numpkg + 1;
    toplevel = plan.toplevel || drops_toplevel c;
    deleteonly = plan.deleteonly && cmp_remove c;
    total = count_change c plan.total;
  }

-- `oldpkg->name` is read where there is no new package.
abbrev pub reads_none : Option Pkg → Option Pkg → Bool
reads_none none none = true
reads_none (some p) new = false
reads_none none (some q) = false

module _ (db : Db) (flags : Flags) where
  abbrev pub clean_old : State → Option Pkg → Outcome
  clean_old s none = ran (pos 0) s
  clean_old s (some p) = autoclean db flags s p

  abbrev pub counted_on : Outcome → (State → Counted) → Counted
  counted_on (ran r s) k = k s
  counted_on crash k = lost
  counted_on spent k = unfinished

  -- The first loop, at the change `i`; autocleaning may add changes at the end of the list that it
  -- goes through. The status of `apk_state_autoclean` is dropped.
  unfoldable pub count_loop : ℕ → ℕ → Plan → State → Counted
  unfolding autoclean note
  count_loop zero i plan s = unfinished
  count_loop (suc fuel) i plan s = elim (change_at s.changes i) [
    | none ↦ counted plan s
    | some c ↦
        if reads_none c.oldpkg c.newpkg
        then lost
        else counted_on (clean_old s c.oldpkg) (λ t. count_loop fuel (suc i) (note db plan c) t)
  ]

-- The flags of the command line that decide about a commit, and the answer of the user, which is
-- none at the end of the input.
pub record Wishes : Type 0 where
  pub interactive : Bool
  pub recursive_delete : Bool
  pub simulate : Bool
  pub answer : Option ℕ

abbrev pub is_yes : Option ℕ → Bool
is_yes none = false
is_yes (some c) = c == 121 || c == 89 || c == 10

-- `apk_deps_del` for the global dependencies.
unfoldable pub world_del : List Dep → ℕ → List Dep
unfolding fill_from_end
world_del [] i = []
world_del (d ∷ ds) i =
    let rest = world_del ds i in if d.name == i then fill_from_end ds else d ∷ rest

-- APK_NAME_TOPLEVEL taken from a name.
abbrev pub clear_toplevel : List Name → ℕ → List Name
clear_toplevel [] i = []
clear_toplevel (n ∷ ns) zero = record n { toplevel = false } ∷ ns
clear_toplevel (n ∷ ns) (suc i) = n ∷ clear_toplevel ns i

-- `apk_db_install_pkg`, `apk_db_run_triggers` and `apk_db_write_config` of database.c on what they
-- change, a `W`.
pub record Disk {ℓ} (W : Type ℓ) : Type ℓ where
  pub install_pkg : Option Pkg → Option Pkg → W → ℤ × W
  pub run_triggers : W → W
  pub write_config : List Dep → W → W

-- The database, the count of what is done, and the disk.
pub record Work {ℓ} (W : Type ℓ) : Type ℓ where
  pub db : Db
  pub done_so_far : Stats
  pub disk : W

module _ {ℓ} {W : Type ℓ} (on : Disk W) (wishes : Wishes) where
  abbrev pub forget : Db → Option Pkg → Db
  forget db none = db
  forget db (some p) = record db {
    names = clear_toplevel db.names p.name;
    world = world_del db.world p.name;
  }

  -- A package that is removed is no longer asked for.
  abbrev pub after_install : Change → Work W → Work W
  after_install c w = record w { db = if drops_toplevel w.db c then forget w.db c.oldpkg else w.db }

  abbrev pub do_change : Change → Work W → ℤ × Work W
  do_change c w =
      if wishes.simulate
      then (pos 0, w)
      else let (r, disk') = on.install_pkg c.oldpkg c.newpkg w.disk in
        let w' = record w { disk = disk' } in
        if int_eq r (pos 0) then (r, after_install c w') else (r, w')

  abbrev pub finished : Change → Work W → Work W
  finished c w = record w { done_so_far = count_change c w.done_so_far }

  -- The loop over the changes, which an error ends.
  unfoldable pub apply_loop : List Change → Work W → ℤ × Work W
  unfolding drops_toplevel
  apply_loop [] w = (pos 0, w)
  apply_loop (c ∷ cs) w =
      let (r, w') = do_change c w in
      let rest = apply_loop cs (finished c w') in if int_eq r (pos 0) then rest else (r, w')

  -- The lines at `update_state`.
  abbrev pub update_state : Work W → Work W
  update_state w = record w { disk = on.write_config w.db.world (on.run_triggers w.disk) }

  abbrev pub updated : ℤ × Work W → ℤ × Work W
  updated (r, w) = (r, update_state w)

  -- What follows the count.
  unfoldable pub carry_out : Plan → List Change → Work W → ℤ × Work W
  unfolding apply_loop
  carry_out plan cs w =
      if plan.toplevel && not (wishes.interactive || wishes.recursive_delete)
      then if plan.deleteonly then updated (pos 0, w) else (negsuc 0, w)
      else if wishes.interactive && not (is_yes wishes.answer)
      then (negsuc 0, w)
      else updated (apply_loop cs w)

  -- The way on from the count, where there is one.
  abbrev pub committed : Work W → Counted → Option (ℤ × State × Work W)
  committed w (counted plan s) = let (r, w') = carry_out plan s.changes w in some (r, s, w')
  committed w lost = none
  committed w unfinished = none

  -- `apk_state_commit`
  unfoldable pub state_commit : ℕ → Flags → State → Work W → Option (ℤ × State × Work W)
  unfolding count_loop carry_out
  state_commit fuel flags s w =
      committed (record w { done_so_far = no_stats }) (count_loop w.db flags fuel 0 no_plan s)
