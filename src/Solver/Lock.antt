-- ===== src/Solver/Lock.antt =====
-- apk-tools/src/state.c: a name is locked to a package, with all that follows for other names.
use arianna_method_anchor_pr.Prelude.{
  ℕ, zero, suc, ◌*◌, Bool, true, false, not, ◌&&◌, ◌||◌, Option, none, some, List, [], ◌∷◌, ◌++◌,
  leb, ◌==◌, if◌then◌else◌, length, ℤ, pos, negsuc, int_eq,
}
use arianna_method_anchor_pr.Version.Compare.{compare_blob, greater}
use arianna_method_anchor_pr.Package.Dependency.{require, conflict}
use arianna_method_anchor_pr.Solver.{
  Dep, Pkg, Db, choices, locked, NameState, empty, visited, State, name_at, at, put, matches,
  is_available, prune_dependency,
}

-- A call returns a status and the new state, or uses a pointer that is none, or has no fuel left.
pub data Outcome : Type 0 where
  ran : ℤ → State → Outcome
  crash : Outcome
  spent : Outcome

abbrev pub go_on : Outcome → (ℤ → State → Outcome) → Outcome
go_on (ran r s) k = k r s
go_on crash k = crash
go_on spent k = spent

-- `if (r != 0) return r`
abbrev pub unless_failed : Outcome → (State → Outcome) → Outcome
unless_failed o k = go_on o (λ r s. if int_eq r (pos 0) then k s else ran r s)

-- Two of the flags of the command line.
pub record Flags : Type 0 where
  pub upgrade : Bool
  pub prefer_available : Bool

module _ (db : Db) (flags : Flags) where
  -- The better of the latest candidate so far and another.
  unfoldable pub newer : Bool → Pkg → Pkg → Pkg
  unfolding compare_blob
  newer by_repo l p =
      if by_repo && not (l.repos == 0) && p.repos == 0
      then l
      else if by_repo && l.repos == 0 && not (p.repos == 0)
      then p
      else if compare_blob p.version l.version == greater
      then p
      else l

  -- The loop over the candidates, with `installed` and `latest` so far.
  unfoldable pub pick_loop : Bool → List Pkg → Option Pkg → Option Pkg → Option Pkg × Option Pkg
  unfolding newer is_available
  pick_loop by_repo [] inst latest = (inst, latest)
  pick_loop by_repo (p ∷ c) inst latest =
      pick_loop by_repo c (if p.installed then some p else inst) (
        if not p.installed && not (is_available db p)
        then latest
        else elim latest [ none ↦ some p | some l ↦ some (newer by_repo l p) ])

  -- The installed candidate, if it may stay.
  abbrev pub staying : Bool → Option Pkg → Option Pkg → Option Pkg
  staying reinstall none latest = latest
  staying reinstall (some q) latest = if not (q.repos == 0) || not reinstall then some q else latest

  unfoldable pub pick : ℕ → List Pkg → Option Pkg
  unfolding pick_loop
  pick i c =
      let name = name_at db i in
      let (inst, latest) = pick_loop (flags.prefer_available || name.reinstall) c none none in
      if flags.upgrade then latest else staying name.reinstall inst latest

  -- `rec` is `apk_state_lock_name` in all that it calls.
  module _ (rec : State → ℕ → Option Pkg → Outcome) where
    abbrev pub lock_chosen : State → ℕ → Option Pkg → Outcome
    lock_chosen s i none = ran (negsuc 0) s
    lock_chosen s i (some p) = rec s i (some p)

    -- The lines behind the pruning, where the name is pending or has candidates.
    unfoldable pub lock_open : State → ℕ → NameState → Outcome
    unfolding pick
    lock_open s i (visited (locked true error p)) = rec s i p
    lock_open s i (visited (choices c)) = lock_chosen s i (pick i c)
    lock_open s i (visited (locked false error p)) = crash
    lock_open s i empty = crash

    abbrev pub after_prune : Dep → ℤ × State → Outcome
    after_prune d (pos zero, s) = ran (pos 0) s
    after_prune d (pos (suc n), s) = lock_open s d.name (at s d.name)
    after_prune d (negsuc n, s) = ran (negsuc n) s

    -- `apk_state_lock_dependency`
    unfoldable pub lock_dependency : State → Dep → Outcome
    unfolding prune_dependency lock_open
    lock_dependency s d = after_prune d (prune_dependency db s d)

    unfoldable pub fix_loop : ℤ → List Dep → State → Outcome
    unfolding lock_dependency
    fix_loop ret [] s = ran ret s
    fix_loop ret (d ∷ ds) s =
        go_on (lock_dependency s d)
          (λ r s'. fix_loop (if int_eq r (pos 0) then ret else negsuc 0) ds s')

    -- `apk_state_fix_package`
    unfoldable pub fix_package : State → Option Pkg → Outcome
    unfolding fix_loop
    fix_package s none = ran (pos 0) s
    fix_package s (some p) = fix_loop (pos 0) p.depends s

    -- `delete_broken_package`
    abbrev pub delete_broken : State → Pkg → Outcome
    delete_broken s p = rec s p.name none

    -- `reinstall_broken_package`
    abbrev pub reinstall_broken : State → Pkg → Outcome
    reinstall_broken s p =
        lock_dependency s (record { name = p.name; mask = require; version = none })

  -- A dependency on the name that the package selected for it does not meet.
  unfoldable pub is_broken : ℕ → Option Pkg → Dep → Bool
  unfolding matches
  is_broken i none d = d.name == i && not (d.mask == conflict)
  is_broken i (some q) d = d.name == i && not (matches d q)

  unfoldable pub any_broken : ℕ → Option Pkg → List Dep → Bool
  unfolding is_broken
  any_broken i q [] = false
  any_broken i q (d ∷ ds) = is_broken i q d || any_broken i q ds

  -- `ns_to_pkg`; there is no package in a pointer to candidates.
  abbrev pub selected : NameState → Option (Option Pkg)
  selected empty = some none
  selected (visited (choices c)) = none
  selected (visited (locked pending error p)) = some p

  -- `call_if_dependency_broke`; the callbacks that change the state read the package only.
  unfoldable pub call_if_broke : (State → Pkg → Outcome) → State → Pkg → ℕ → Outcome
  unfolding any_broken
  call_if_broke cb s p i = elim (selected (at s i)) [
    | none ↦ crash
    | some q ↦ if any_broken i q p.depends then cb s p else ran (pos 0) s
  ]

  abbrev pub first_installed : List Pkg → Option Pkg
  first_installed [] = none
  first_installed (p ∷ ps) = let rest = first_installed ps in if p.installed then some p else rest

  -- The package of a name that is or will be in place.
  unfoldable pub holder : ℕ → NameState → Option Pkg
  holder j empty = first_installed (name_at db j).pkgs
  holder j (visited (choices c)) = first_installed c
  holder j (visited (locked pending error p)) = p

  abbrev pub call_holder : (State → Pkg → Outcome) → State → Option Pkg → ℕ → Outcome
  call_holder cb s none i = ran (pos 0) s
  call_holder cb s (some p) i = call_if_broke cb s p i

  -- `for_each_broken_reverse_depency`; a name that the state has no room for is read past its end.
  unfoldable pub each_broken : (State → Pkg → Outcome) → ℕ → List ℕ → State → Outcome
  unfolding call_if_broke holder
  each_broken cb i [] s = ran (pos 0) s
  each_broken cb i (j ∷ js) s =
      let rest = λ (s' : State). each_broken cb i js s' in
      if leb (length s.names) j
      then crash
      else unless_failed (call_holder cb s (holder j (at s j)) i) rest

  -- The loop for `oldpkg`, with the one found so far.
  unfoldable pub installed_of : ℕ → List Pkg → Option Pkg → Option Pkg
  installed_of i [] old = old
  installed_of i (p ∷ ps) old =
      installed_of i ps (if p.name == i && p.installed then some p else old)

  -- `apk_state_record_conflict`, which reads `pkg->name`, and the status that is returned behind it.
  unfoldable pub record_conflict : State → Option Pkg → ℤ → Outcome
  record_conflict s none r = crash
  record_conflict s (some p) r =
      if leb (length s.names) p.name
      then crash
      else let s' = put s p.name (locked false true (some p)) in
        ran r (record s' { conflicts = s.conflicts ++ p ∷ [] })

  abbrev pub or_conflict : Outcome → Option Pkg → (State → Outcome) → Outcome
  or_conflict o new k = go_on o (λ r s. if int_eq r (pos 0) then k s else record_conflict s new r)

  abbrev pub same_pkg : Option Pkg → Option Pkg → Bool
  same_pkg none none = true
  same_pkg (some p) (some q) = p.id == q.id
  same_pkg none (some q) = false
  same_pkg (some p) none = false

  abbrev pub stays : Option Pkg → Bool
  stays none = true
  stays (some p) = not (name_at db p.name).reinstall

  -- The lines from "If the chosen package is installed" on.
  unfoldable pub track_change : Option Pkg → Option Pkg → State → Outcome
  track_change old new s =
      if same_pkg old new && stays new
      then ran (pos 0) s
      else ran (pos 0)
          (record s { changes = s.changes ++ record { oldpkg = old; newpkg = new } ∷ [] })

  abbrev pub callback : (State → ℕ → Option Pkg → Outcome) → Option Pkg → State → Pkg → Outcome
  callback rec none s p = delete_broken rec s p
  callback rec (some q) s p = reinstall_broken rec s p

  abbrev pub fix_dependants :
      (State → ℕ → Option Pkg → Outcome) → Option Pkg → Option Pkg → ℕ → State → Outcome
  fix_dependants rec none new i s = ran (pos 0) s
  fix_dependants rec (some q) new i s = each_broken (callback rec new) i (name_at db i).rdepends s

  -- One call of `apk_state_lock_name`.
  unfoldable pub lock_step : (State → ℕ → Option Pkg → Outcome) → State → ℕ → Option Pkg → Outcome
  unfolding fix_package each_broken installed_of record_conflict track_change
  lock_step rec s i new =
      let old = installed_of i (name_at db i).pkgs none in
      let s₁ = put s i (locked false false new) in
      if leb (length s.names) i
      then ran (negsuc 0) s
      else or_conflict (fix_dependants rec old new i s₁) new
          (λ s₂. or_conflict (fix_package rec s₂ new) new (track_change old new))

  -- `apk_state_lock_name`, with a bound on the depth of its calls.
  unfoldable pub lock_name : ℕ → State → ℕ → Option Pkg → Outcome
  unfolding lock_step
  lock_name zero s i new = spent
  lock_name (suc fuel) s i new = lock_step (lock_name fuel) s i new

  -- Each call inside another has one name less that is still open or has a package, counted twice
  -- for the open ones.
  abbrev pub depth : State → ℕ
  depth s = 2 * length s.names
