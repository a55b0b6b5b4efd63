-- ===== src/Solver/Calls.antt =====
-- apk-tools/src/state.c: every call of `apk_state_lock_name` inside another returns.
use arianna_method_anchor_pr.Prelude.{
  ℕ, zero, suc, ◌+◌, ◌≤◌, ◌<◌, ◌≡◌, refl, true, false, ◌&&◌, Option, none, some, List, [], ◌∷◌,
  ◌++◌, leb, ◌==◌, if◌then◌else◌, length, get_or, ℤ, pos, arith, int_eq, if_either, Bool-cases, inl,
  inr, length-append, length-set,
}
use arianna_method_anchor_pr.Solver.{
  Pkg, Db, locked, NameState, empty, visited, Change, State, name_at, at, put,
}
use arianna_method_anchor_pr.Solver.Lock.{
  Outcome, ran, crash, spent, Flags, fix_package, installed_of, record_conflict, or_conflict,
  track_change, callback, fix_dependants, lock_step, lock_name, same_pkg, stays,
}
use arianna_method_anchor_pr.Solver.Weight.{
  All, All-append, Real, AllReal, sum, weigh, weight, is_locked, Of, IsClosed, IsKnown, Extends,
  Extends-refl, Extends-trans, IsSound, Later, Later-refl, at-put_self, sum-set, put-IsSound,
  put-keeps,
}
use arianna_method_anchor_pr.Solver.Ends.{
  Ensures, Goal, IsReady, Status, Fine, Fine-Later, Returns, fix_package-Goal,
}
use arianna_method_anchor_pr.Solver.Broken.{each_broken-Goal, callback-Goal}

-- What one call makes of the state in which its name is written: at most one step back, for a
-- conflict or a change.
abbrev pub Nearly : State → State → Type 0
Nearly s t =
    (length t.names ≡ length s.names)
    × (weight t ≤ weight s + 1)
    × (weight t + length t.changes ≤ weight s + length s.changes + 1)
    × ((i : ℕ) → is_locked (at s i) ≡ true → is_locked (at t i) ≡ true)
    × IsSound t
    × (AllReal (length s.names) s.changes → AllReal (length t.names) t.changes)
    × Extends s.changes t.changes

abbrev pub Step : (ℤ → Type 0) → State → Outcome → Type 0
Step Q s o = Ensures (λ r t. Nearly s t × Q r) o

Step-after : (Q : ℤ → Type 0) (s t : State) (o : Outcome) → Later s t → Step Q t o → Step Q s o
Step-after Q s t (ran r u) (n, w, b, k, _, a, x) ((n', w', b', k', h, a', y), q) = (
  (
    omega arith,
    omega arith,
    omega arith,
    λ i e. k' i (k i e),
    h,
    λ r. a' (a r),
    Extends-trans s.changes t.changes u.changes x y,
  ),
  q,
)
Step-after Q s t crash l g = g
Step-after Q s t spent l g = g

zero-Status : (p : Option Pkg) → Status p (pos 0)
zero-Status none = refl
zero-Status (some p) = tt

module _ (db : Db) (flags : Flags) where
  track-Real-Step :
      (old new : Option Pkg) (s : State)
      → Real (length s.names) old new
      → IsSound s
      → Step (Status new) s (track_change db flags old new s)
  unfolding track_change
  track-Real-Step old new s real h =
      let c : Change = record { oldpkg = old; newpkg = new } in
      if_either (Step (Status new) s) (same_pkg db flags old new && stays db flags new)
        (ran (pos 0) s) (ran (pos 0) (record s { changes = s.changes ++ c ∷ [] }))
        (
          (refl, omega arith, omega arith, λ i e. e, h, λ a. a, Extends-refl s.changes),
          zero-Status new,
        )
        (
          (
            refl,
            omega arith,
            omega (arith, length-append s.changes (c ∷ [])),
            λ i e. e,
            h,
            λ a.
                All-append (λ (k : Change). Real (length s.names) k.oldpkg k.newpkg) s.changes
                  (c ∷ []) a (real, tt),
            (c ∷ [], refl),
          ),
          zero-Status new,
        )

  -- The package that the change takes away has its dependencies in the state.
  abbrev OldKnown : ℕ → Option Pkg → Type 0
  OldKnown n none = Unit
  OldKnown n (some p) = IsKnown n p

  installed_of-OldKnown :
      (n i : ℕ) (ps : List Pkg) (old : Option Pkg)
      → All (IsKnown n) ps
      → OldKnown n old
      → OldKnown n (installed_of db flags i ps old)
  unfolding installed_of
  installed_of-OldKnown n i [] old a h = h
  installed_of-OldKnown n i (p ∷ ps) old (k, a) h =
      installed_of-OldKnown n i ps (if p.name == i && p.installed then some p else old) a
        (if_either (OldKnown n) (p.name == i && p.installed) (some p) old k h)

  track_change-Step :
      (old new : Option Pkg) (s : State)
      → OldKnown (length s.names) old
      → IsSound s
      → Step (Status new) s (track_change db flags old new s)
  unfolding track_change
  track_change-Step none none s k h =
      ((refl, omega arith, omega arith, λ i e. e, h, λ a. a, Extends-refl s.changes), refl)
  track_change-Step none (some q) s k h = track-Real-Step none (some q) s tt h
  track_change-Step (some p) new s k h = track-Real-Step (some p) new s k h

  record_conflict-Step :
      (s : State) (new : Option Pkg) (i : ℕ) (r : ℤ)
      → i < length s.names
      → Of i new
      → Status new r
      → int_eq r (pos 0) ≡ false
      → IsSound s
      → Step (Status new) s (record_conflict db flags s new r)
  unfolding record_conflict
  record_conflict-Step s none i r h o q e sound = absurd (let f : true ≡ false = rw q at e in cc)
  record_conflict-Step s (some p) i r h o q e sound =
      let v = locked false true (some p) in
      let inside : leb (length s.names) p.name ≡ false = rw o (ground arith) in
      let h' : p.name < length s.names = rw o h in
      let w = sum-set s.names p.name (visited v) h' in
      rw inside (
        (
          length-set s.names p.name (visited v),
          omega arith,
          omega arith,
          put-keeps s p.name v h' (λ l. refl),
          put-IsSound s p.name v h' refl sound,
          λ a. rw (length-set s.names p.name (visited v)) a,
          Extends-refl s.changes,
        ),
        tt,
      )

  or_conflict-Step :
      (s : State) (o : Outcome) (new : Option Pkg) (i : ℕ) (k : State → Outcome)
      → i < length s.names
      → Of i new
      → Goal (Status new) s o
      → ((t : State) → Later s t → Step (Status new) t (k t))
      → Step (Status new) s (or_conflict db flags o new k)
  or_conflict-Step s (ran r t) new i k h o (l, q) next = elim (Bool-cases (int_eq r (pos 0))) [
    | inl e ↦ rw e (Step-after (Status new) s t (k t) l (next t l))
    | inr e ↦
        rw e (Step-after (Status new) s t _ l (record_conflict-Step t new i r (rw l.0 h) o q e l.4))
  ]
  or_conflict-Step s crash new i k h o g next = g
  or_conflict-Step s spent new i k h o g next = g

pub weigh_le_sum :
    (xs : List NameState) (i : ℕ) → i < length xs → weigh (get_or xs i empty) ≤ sum xs
weigh_le_sum [] i h = absurd (omega arith)
weigh_le_sum (x ∷ xs) zero h = omega arith
weigh_le_sum (x ∷ xs) (suc i) h = omega (arith, weigh_le_sum xs i (omega arith))

Step-Goal :
    (Q : ℤ → Type 0) (s : State) (i : ℕ) (p : Option Pkg) (o : Outcome)
    → i < length s.names
    → IsReady s i p
    → Step Q (put s i (locked false false p)) o
    → Goal Q s o
Step-Goal Q s i p (ran r t) h ready ((n, w, b, k, sound, a, x), q) =
    let v = locked false false p in
    let e = sum-set s.names i (visited v) h in
    let size = length-set s.names i (visited v) in
    (
      (
        omega arith,
        omega arith,
        omega arith,
        λ j l. k j (put-keeps s i v h (λ x. refl) j l),
        sound,
        λ c. a (rw size c),
        x,
      ),
      q,
    )
Step-Goal Q s i p crash h ready g = g
Step-Goal Q s i p spent h ready g = g

module _ (db : Db) (flags : Flags) (size : ℕ) (closed : IsClosed size db) where
  module _ (f : ℕ) (rec : State → ℕ → Option Pkg → Outcome)
      (returns : Returns db flags size f closed rec) where
    fix_dependants-Goal :
        (old new : Option Pkg) (i : ℕ) (s : State)
        → is_locked (at s i) ≡ true
        → Fine db flags size f closed rec s
        → Goal (Status new) s (fix_dependants db flags rec old new i s)
    fix_dependants-Goal none new i s l fine = (Later-refl s fine.2, zero-Status new)
    fix_dependants-Goal (some q) new i s l fine =
        each_broken-Goal db flags size f closed rec returns (Status new) (zero-Status new)
          (callback db flags rec new) (callback-Goal db flags size f closed rec returns new) i
          (name_at db i).rdepends s (closed i).1 l fine

    pub lock_step-Step :
        (s : State) (i : ℕ) (new : Option Pkg)
        → i < size
        → length s.names ≡ size
        → Of i new
        → Fine db flags size f closed rec (put s i (locked false false new))
        → Step (Status new) (put s i (locked false false new)) (lock_step db flags rec s i new)
    unfolding lock_step
    lock_step-Step s i new h n o fine =
        let s₁ = put s i (locked false false new) in
        let old = installed_of db flags i (name_at db i).pkgs none in
        let h' : i < length s.names = rw n h in
        let inside : leb (length s.names) i ≡ false = ground arith in
        let l : is_locked (at s₁ i) ≡ true =
          rw (at-put_self s i (locked false false new) h') refl in
        rw inside (
          or_conflict-Step db flags s₁ (fix_dependants db flags rec old new i s₁) new i _
            (rw fine.0 h) o (fix_dependants-Goal old new i s₁ l fine)
            (λ s₂ l₂.
              let fine₂ = Fine-Later db flags size f closed rec s₁ s₂ fine l₂ in
              or_conflict-Step db flags s₂ (fix_package db flags rec s₂ new) new i
                (track_change db flags old new) (rw fine₂.0 h) o
                (fix_package-Goal db flags size f closed rec returns s₂ new fine₂)
                (λ s₃ l₃.
                  track_change-Step db flags old new s₃
                    (rw (l₃.0, fine₂.0)
                      (installed_of-OldKnown db flags size i (name_at db i).pkgs none (closed i).2
                        tt))
                    l₃.4)))

  pub lock_name-Returns : (f : ℕ) → Returns db flags size f closed (lock_name db flags f)
  unfolding lock_name
  lock_name-Returns zero s i p fine h o ready =
      let w = weigh_le_sum s.names i (rw fine.0 h) in absurd (omega arith)
  lock_name-Returns (suc f) s i p fine h o ready =
      let v = locked false false p in
      let h' : i < length s.names = rw fine.0 h in
      let e = sum-set s.names i (visited v) h' in
      let n = length-set s.names i (visited v) in
      Step-Goal (Status p) s i p _ h' ready (
        lock_step-Step f (lock_name db flags f) (lock_name-Returns f) s i p h fine.0 o
          (omega arith, omega arith, put-IsSound s i v h' o fine.2))
