-- ===== src/Tests/Solutions.antt =====
-- Runs of the solver of apk-tools/src/state.c, and its theorems, for two packages of which the one
-- needs the other.
use arianna_method_anchor_pr.Prelude.{
  ℕ, zero, suc, ◌+◌, ◌≡◌, refl, true, false, not, ◌&&◌, ◌||◌, Option, none, some, List, [], ◌∷◌,
  length, ℤ, pos, arith, ◌⊎◌, ◌≤◌, kept, repeat,
}
use mathlib.Core.List.{Perm}
use arianna_method_anchor_pr.Package.Dependency.{require}
use arianna_method_anchor_pr.Version.{get_token}
use arianna_method_anchor_pr.Version.Compare.{compare_strings, verdict, compare_loop}
use arianna_method_anchor_pr.Package.Info.{no_file}
use arianna_method_anchor_pr.Solver.{
  Dep, Pkg, Db, choices, locked, empty, visited, Change, State, state_new, at, installable,
  candidates, prune_dependency,
}
use arianna_method_anchor_pr.Solver.Lock.{Outcome, ran, Flags, lock_dependency, lock_name, depth}
use arianna_method_anchor_pr.Solver.Weight.{is_locked, IsClosed, IsSound, Extends}
use arianna_method_anchor_pr.Solver.Candidates.{
  meets_world, candidates-perm, Meets, prune_dependency-Meets,
}
use arianna_method_anchor_pr.Solver.Total.{Gives, lock_dependency_returns, lock_name_removes}
use arianna_method_anchor_pr.Solver.Clean.{autoclean, autoclean_succeeds}
use arianna_method_anchor_pr.Solver.Commit.{
  verb_of, no_stats, cmp_remove, cmp_new, cmp_downgrade, cmp_upgrade, matched, drops_toplevel, Plan,
  no_plan, counted, count_loop, Wishes, Disk, Work, state_commit, world_del,
}
use arianna_method_anchor_pr.Solver.Count.{rounds, Tells, some_of, count_loop_ends}
use arianna_method_anchor_pr.Solver.Apply.{
  Untouched, Progress, commit_keeps_toplevel, commit_progresses,
}
use arianna_method_anchor_pr.Solver.Headings.{matched_sum, Agrees, verb_of-Agrees}

abbrev needs_b : Dep
needs_b = record { name = 1; mask = require; version = none }

-- Version 1 of the name 0, and versions 1 and 2 of the name 1.
abbrev a_one : Pkg
a_one = record {
  id = 1;
  name = 0;
  version = some (49 ∷ []);
  depends = needs_b ∷ [];
  installed = true;
  installed_size = 100;
  repos = 1;
  filename = no_file;
}

abbrev b_one : Pkg
b_one = record {
  id = 2;
  name = 1;
  version = some (49 ∷ []);
  depends = [];
  installed = true;
  installed_size = 20;
  repos = 1;
  filename = no_file;
}

abbrev b_two : Pkg
b_two = record b_one { id = 3; version = some (50 ∷ []); installed = false }

abbrev two_names : Db
two_names = record {
  names =
      record {
        toplevel = true;
        reinstall = false;
        toplevel_override = false;
        pkgs = a_one ∷ [];
        rdepends = [];
      }
      ∷ record {
        toplevel = false;
        reinstall = false;
        toplevel_override = false;
        pkgs = b_one ∷ b_two ∷ [];
        rdepends = 0 ∷ [];
      }
      ∷ [];
  world = record { name = 0; mask = require; version = none } ∷ [];
  select_repo = λ p. true;
}

abbrev upgrading : Flags
upgrading = record { upgrade = true; prefer_available = false }

two_names-IsClosed : IsClosed 2 two_names
two_names-IsClosed zero = ((refl, tt), tt, ((omega arith, tt), tt))
two_names-IsClosed (suc zero) = ((refl, (refl, tt)), (omega arith, tt), (tt, (tt, tt)))
two_names-IsClosed (suc (suc i)) = (tt, tt, tt)

state_new-IsSound : IsSound (state_new 2)
state_new-IsSound zero = tt
state_new-IsSound (suc zero) = tt
state_new-IsSound (suc (suc i)) = tt

-- The removal of the package that needs the other.
abbrev removal : State
removal = record (state_new 2) {
  names = visited (locked false false none) ∷ empty ∷ [];
  changes = record { oldpkg = some a_one; newpkg = none } ∷ [];
}

removal-IsSound : IsSound removal
removal-IsSound zero = tt
removal-IsSound (suc zero) = tt
removal-IsSound (suc (suc i)) = tt

-- The disk as the number of packages installed or removed.
abbrev tally : Disk ℕ
tally = record {
  install_pkg = λ old new n. (pos 0, n + 1);
  run_triggers = λ n. n;
  write_config = λ world n. n;
}

abbrev quiet : Wishes
quiet = record { interactive = false; recursive_delete = false; simulate = false; answer = none }

abbrev start : Work ℕ
start = record { db = two_names; done_so_far = no_stats; disk = 0 }

abbrev outcome_of : Option (ℤ × State × Work ℕ) → Option (ℤ × ℕ × ℕ × ℕ)
outcome_of none = none
outcome_of (some (r, s, w)) = some (r, length s.changes, w.disk, length w.db.world)

abbrev status_of : Outcome → Option (ℤ × ℕ)
status_of (ran r s) = some (r, length s.changes)
status_of o = none

-- The dependency on the name 1 brings its version 2.
lock_run :
    status_of (
      lock_dependency two_names upgrading
        (lock_name two_names upgrading (depth two_names upgrading (state_new 2)))
        (state_new 2)
        needs_b)
    ≡ some (pos 0, 1)
unfolding lock_dependency lock_name compare_strings verdict compare_loop repeat get_token
lock_run = refl

-- A package of a top-level name stays, and nothing is done.
keep_run :
    outcome_of (state_commit tally quiet (rounds removal) upgrading removal start)
    ≡ some (pos 0, 2, 0, 1)
unfolding state_commit
keep_run = refl

-- With recursive deletion it goes, with what it alone needs.
delete_run :
    outcome_of (
      state_commit tally
        (record quiet { recursive_delete = true })
        (rounds removal)
        upgrading
        removal
        start)
    ≡ some (pos 0, 2, 2, 0)
unfolding state_commit world_del
delete_run = refl

lock_dependency_returns_example :
    Gives
      (λ r t.
        (length t.names ≡ 2)
        × (length t.changes ≤ 4)
        × ((i : ℕ) → (not (is_locked (at (state_new 2) i)) || is_locked (at t i)) ≡ true)
        × IsSound t)
      (lock_dependency two_names upgrading (lock_name two_names upgrading 4) (state_new 2) needs_b)
lock_dependency_returns_example =
    lock_dependency_returns two_names upgrading (state_new 2) needs_b two_names-IsClosed
      state_new-IsSound

lock_name_removes_example :
    (t : State) × (lock_name two_names upgrading 4 (state_new 2) 1 none ≡ ran (pos 0) t)
    × (is_locked (at t 1) ≡ true)
lock_name_removes_example =
    lock_name_removes two_names upgrading (state_new 2) 1 two_names-IsClosed state_new-IsSound
      (omega arith) (omega arith)

candidates-perm_example :
    (c : List Pkg) × (candidates two_names 1 ≡ choices c)
    × Perm c (kept (λ p. installable p && meets_world two_names.world 1 p) (b_one ∷ b_two ∷ []))
candidates-perm_example = candidates-perm two_names 1 (λ e. cc) (omega arith)

prune_dependency-Meets_example :
    Meets needs_b (at (prune_dependency two_names (state_new 2) needs_b).1 1)
unfolding prune_dependency
prune_dependency-Meets_example = prune_dependency-Meets needs_b two_names (state_new 2) refl

autoclean_succeeds_example :
    (t : State) × (autoclean two_names upgrading removal a_one ≡ ran (pos 0) t)
    × (length t.names ≡ 2)
    × ((i : ℕ) → (not (is_locked (at removal i)) || is_locked (at t i)) ≡ true)
    × IsSound t
    × Extends removal.changes t.changes
    × (length t.changes ≤ 5)
autoclean_succeeds_example =
    autoclean_succeeds two_names upgrading removal a_one two_names-IsClosed removal-IsSound
      (omega arith, tt)

count_loop_ends_example :
    (plan : Plan) × (t : State) × (count_loop two_names upgrading 6 0 no_plan removal
      ≡ counted plan t)
    × Extends removal.changes t.changes
    × Tells two_names plan t.changes
count_loop_ends_example =
    count_loop_ends two_names upgrading removal two_names-IsClosed removal-IsSound
      ((omega arith, tt), tt)

commit_keeps_toplevel_example :
    (r : ℤ) × (t : State) × (w' : Work ℕ) × (state_commit tally quiet 6 upgrading removal start
      ≡ some (r, t, w'))
    × ((some_of (drops_toplevel two_names) t.changes ≡ false) ⊎ Untouched tally quiet start w')
commit_keeps_toplevel_example =
    commit_keeps_toplevel tally quiet upgrading removal start two_names-IsClosed removal-IsSound
      ((omega arith, tt), tt) refl

commit_progresses_example :
    (r : ℤ) × (t : State) × (w' : Work ℕ) × (state_commit tally quiet 6 upgrading removal start
      ≡ some (r, t, w'))
    × Extends removal.changes t.changes
    × Progress tally quiet
        (some_of (drops_toplevel two_names) t.changes)
        t.changes
        start.disk
        (r, w')
commit_progresses_example =
    commit_progresses tally quiet upgrading removal start two_names-IsClosed removal-IsSound
      ((omega arith, tt), tt)

abbrev upgrade_and_removal : List Change
upgrade_and_removal =
    record { oldpkg = some b_one; newpkg = some b_two }
    ∷ record { oldpkg = some a_one; newpkg = none }
    ∷ []

matched_sum_example :
    matched cmp_remove upgrade_and_removal
      + matched cmp_new upgrade_and_removal
      + matched cmp_downgrade upgrade_and_removal
      + matched cmp_upgrade upgrade_and_removal
    ≡ 2
matched_sum_example =
    matched_sum upgrade_and_removal
      (((λ e. absurd (omega arith)), (49 ∷ [], refl), (50 ∷ [], refl)), (tt, tt))

abbrev upgrade_b : Change
upgrade_b = record { oldpkg = some b_one; newpkg = some b_two }

verb_of-Agrees_example : Agrees upgrade_b (verb_of (some b_one) (some b_two))
verb_of-Agrees_example =
    verb_of-Agrees upgrade_b ((λ e. absurd (omega arith)), (49 ∷ [], refl), (50 ∷ [], refl))
