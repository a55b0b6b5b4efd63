-- ===== src/Solver/Clean.antt =====
-- apk-tools/src/state.c: `apk_state_autoclean`, which never fails.
use arianna_method_anchor_pr.Prelude.{
  ℕ, ◌+◌, ◌*◌, ◌≤◌, ◌<◌, ◌≡◌, refl, true, false, not, ◌||◌, Option, none, some, List, [], ◌∷◌, leb,
  if◌then◌else◌, length, set, pos, arith, int_eq, if_either, Bool-cases, inl, inr, length-set,
  set-set, set-get_or, set,
}
use arianna_method_anchor_pr.Solver.{
  Dep, Pkg, Db, Visited, choices, locked, NameState, empty, visited, State, name_at, at, put,
}
use arianna_method_anchor_pr.Solver.Lock.{
  Outcome, ran, crash, spent, go_on, unless_failed, Flags, any_broken, call_if_broke, holder,
  call_holder, each_broken, lock_name, depth,
}
use arianna_method_anchor_pr.Solver.Weight.{
  All, weigh, weight_bound, is_locked, IsClosed, IsKnown, IsSound, Later, Later-refl, Extends,
  at-put_self,
}
use arianna_method_anchor_pr.Solver.Ends.{Ensures, Goal, go_on-Goal}
use arianna_method_anchor_pr.Solver.Calls.{lock_name-Returns}
use arianna_method_anchor_pr.Solver.Total.{Ensures-Gives, rise}

-- `fail_if_something_broke`
abbrev pub something_broke : State → Pkg → Outcome
something_broke s p = ran (pos 1) s

-- `oldns` is put back.
abbrev pub restore : State → ℕ → NameState → State
restore s i x = record s { names = set s.names i x }

module _ (db : Db) (flags : Flags) where
  -- A dependency's name goes if nothing breaks without it.
  unfoldable pub clean_name : State → ℕ → Outcome
  unfolding each_broken lock_name
  clean_name s i =
      go_on
        (each_broken db flags something_broke i (name_at db i).rdepends
          (put s i (locked true false none)))
        (λ r t.
          let t' = restore t i (at s i) in
          if int_eq r (pos 0)
          then lock_name db flags (depth db flags s) t' i none
          else ran (pos 0) t')

  unfoldable pub autoclean_loop : List Dep → State → Outcome
  unfolding clean_name
  autoclean_loop [] s = ran (pos 0) s
  autoclean_loop (d ∷ ds) s =
      if leb (length s.names) d.name
      then crash
      else go_on
          (if is_locked (at s d.name) || (name_at db d.name).toplevel
            then ran (pos 0) s
            else clean_name s d.name)
          (λ r t. let rest = autoclean_loop ds t in if int_eq r (pos 0) then rest else ran r t)

  -- `apk_state_autoclean`
  unfoldable pub autoclean : State → Pkg → Outcome
  unfolding autoclean_loop
  autoclean s p = autoclean_loop p.depends s

-- The call returns a status, and nothing is changed.
abbrev Looks : State → Outcome → Type 0
Looks s o = Ensures (λ r t. t ≡ s) o

unless_failed-Looks :
    (s : State) (o : Outcome) (k : State → Outcome)
    → Looks s o
    → Looks s (k s)
    → Looks s (unless_failed o k)
unless_failed-Looks s (ran r t) k e g = elim (Bool-cases (int_eq r (pos 0))) [
  | inl z ↦ rw (z, e) g
  | inr z ↦ rw z e
]
unless_failed-Looks s crash k e g = e
unless_failed-Looks s spent k e g = e

module _ (db : Db) (flags : Flags) where
  call_selected-Looks :
      (s : State) (p : Pkg) (i : ℕ) (x : NameState)
      → at s i ≡ x
      → is_locked x ≡ true
      → Looks s (call_if_broke db flags something_broke s p i)
  unfolding call_if_broke
  call_selected-Looks s p i (visited (locked pending error q)) e l =
      rw (e, call_if_broke)
        (if_either (Looks s) (any_broken db flags i q p.depends) (something_broke s p)
          (ran (pos 0) s) refl refl)
  call_selected-Looks s p i (visited (choices c)) e l = cc
  call_selected-Looks s p i empty e l = cc

  call_holder-Looks :
      (s : State) (p : Option Pkg) (i : ℕ)
      → is_locked (at s i) ≡ true
      → Looks s (call_holder db flags something_broke s p i)
  call_holder-Looks s none i l = refl
  call_holder-Looks s (some p) i l = call_selected-Looks s p i (at s i) refl l

  each_broken-Looks :
      (i : ℕ) (js : List ℕ) (s : State)
      → All (λ (j : ℕ). j < length s.names) js
      → is_locked (at s i) ≡ true
      → Looks s (each_broken db flags something_broke i js s)
  unfolding each_broken
  each_broken-Looks i [] s a l = refl
  each_broken-Looks i (j ∷ js) s (h, a) l =
      let inside : leb (length s.names) j ≡ false = ground arith in
      rw inside (
        unless_failed-Looks s
          (call_holder db flags something_broke s (holder db flags j (at s j)) i)
          (λ t. each_broken db flags something_broke i js t)
          (call_holder-Looks s (holder db flags j (at s j)) i l) (each_broken-Looks i js s a l))

  restore-put : (s t : State) (i : ℕ) (v : Visited) → t ≡ put s i v → restore t i (at s i) ≡ s
  restore-put s t i v e =
      let q : set (set s.names i (visited v)) i (at s i) ≡ s.names =
        rw (set-set s.names i (visited v) (at s i)) (set-get_or s.names i empty) in
      rw e (rw q refl)

  after_look-Goal :
      (s : State) (o : Outcome) (i : ℕ) (v : Visited)
      → Looks (put s i v) o
      → IsSound s
      → Goal (λ r. r ≡ pos 0) s (lock_name db flags (depth db flags s) s i none)
      → Goal
          (λ r. r ≡ pos 0)
          s
          (go_on o (λ r t.
            let t' = restore t i (at s i) in
            if int_eq r (pos 0)
            then lock_name db flags (depth db flags s) t' i none
            else ran (pos 0) t'))
  after_look-Goal s (ran r t) i v e sound g = rw (restore-put s t i v e) (
      if_either (Goal (λ r. r ≡ pos 0) s) (int_eq r (pos 0))
        (lock_name db flags (depth db flags s) s i none) (ran (pos 0) s) g
        (Later-refl s sound, refl))
  after_look-Goal s crash i v e sound g = e
  after_look-Goal s spent i v e sound g = e

  module _ (size : ℕ) (closed : IsClosed size db) where
    clean_name-Goal :
        (s : State) (i : ℕ)
        → length s.names ≡ size
        → i < size
        → IsSound s
        → weigh (at s i) ≡ 2
        → Goal (λ r. r ≡ pos 0) s (clean_name db flags s i)
    unfolding clean_name
    clean_name-Goal s i n h sound w =
        let v = locked true false none in
        let h' : i < length s.names = rw n h in
        let m = length-set s.names i (visited v) in
        after_look-Goal s _ i v
          (each_broken-Looks i (name_at db i).rdepends (put s i v) (rw (m, n) (closed i).1)
            (rw (at-put_self s i v h') refl))
          sound
          (lock_name-Returns db flags size closed (depth db flags s) s i none
            (n, weight_bound s, sound) h tt (rw w (omega arith)))

    open_weigh : (x : NameState) → is_locked x ≡ false → weigh x ≡ 2
    open_weigh empty e = refl
    open_weigh (visited (choices c)) e = refl
    open_weigh (visited (locked pending error p)) e = cc

    clean_dep-Goal :
        (s : State) (i : ℕ)
        → length s.names ≡ size
        → i < size
        → IsSound s
        → Goal
            (λ r. r ≡ pos 0)
            s
            (if is_locked (at s i) || (name_at db i).toplevel
              then ran (pos 0) s
              else clean_name db flags s i)
    clean_dep-Goal s i n h sound = elim (Bool-cases (is_locked (at s i))) [
      | inl e ↦ rw e (Later-refl s sound, refl)
      | inr e ↦ rw e (
          if_either (Goal (λ r. r ≡ pos 0) s) (name_at db i).toplevel (ran (pos 0) s)
            (clean_name db flags s i) (Later-refl s sound, refl)
            (clean_name-Goal s i n h sound (open_weigh (at s i) e)))
    ]

    pub autoclean_loop-Goal :
        (ds : List Dep) (s : State)
        → length s.names ≡ size
        → All (λ (d : Dep). d.name < size) ds
        → IsSound s
        → Goal (λ r. r ≡ pos 0) s (autoclean_loop db flags ds s)
    unfolding autoclean_loop
    autoclean_loop-Goal [] s n a sound = (Later-refl s sound, refl)
    autoclean_loop-Goal (d ∷ ds) s n (h, a) sound =
        let inside : leb (length s.names) d.name ≡ false = rw n (ground arith) in
        rw inside (
          go_on-Goal (λ r. r ≡ pos 0) (λ r. r ≡ pos 0) s _ _ (clean_dep-Goal s d.name n h sound)
            (λ r t l z. rw z (autoclean_loop-Goal ds t (rw l.0 n) a l.4)))

-- Cleaning up behind a package always succeeds: `apk_state_autoclean` returns 0, so that nothing is
-- lost where `apk_state_commit` drops its status. It adds no names, takes back no lock, keeps under
-- each name only packages of this name, and only appends changes, as many as the undecided names
-- allow. The names that the package depends on have a place in the state, and the state is of a
-- database where each name has only packages of this name and all names that depend on it or are
-- dependencies of its packages have a place, too.
pub autoclean_succeeds :
    (db : Db) (flags : Flags) (s : State) (p : Pkg)
    → IsClosed (length s.names) db
    → IsSound s
    → IsKnown (length s.names) p
    → (t : State) × (autoclean db flags s p ≡ ran (pos 0) t)
      × (length t.names ≡ length s.names)
      × ((i : ℕ) → (not (is_locked (at s i)) || is_locked (at t i)) ≡ true)
      × IsSound t
      × Extends s.changes t.changes
      × (length t.changes ≤ length s.changes + 2 * length s.names)
unfolding autoclean
autoclean_succeeds db flags s p closed sound known =
    let (r, t, e, ((n, w, b, k, h, _, x), z)) =
      Ensures-Gives (λ r t. Later s t × (r ≡ pos 0)) _
        (autoclean_loop-Goal db flags (length s.names) closed p.depends s refl known sound) in
    let total = weight_bound s in
    (t, rw z at e, n, λ i. rise (is_locked (at s i)) (is_locked (at t i)) (k i), h, x, omega arith)
