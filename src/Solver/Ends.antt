-- ===== src/Solver/Ends.antt =====
-- apk-tools/src/state.c: every call of the solver returns.
use arianna_method_anchor_pr.Prelude.{
  ℕ, zero, suc, ◌≤◌, ◌<◌, ◌≡◌, refl, true, false, Option, none, some, List, [], ◌∷◌, if◌then◌else◌,
  length, get_or, ℤ, pos, negsuc, arith, int_eq, Bool-cases, inl, inr,
}
use arianna_method_anchor_pr.Solver.{
  Dep, Pkg, Db, choices, locked, NameState, empty, visited, State, at, prune_dependency,
}
use arianna_method_anchor_pr.Solver.Lock.{
  Outcome, ran, crash, spent, go_on, unless_failed, Flags, pick, lock_chosen, lock_open,
  after_prune, lock_dependency, fix_loop, fix_package,
}
use arianna_method_anchor_pr.Solver.Weight.{
  All, weigh, weight, Of, IsClosed, IsSound, Later, Later-refl, Later-trans,
}
use arianna_method_anchor_pr.Solver.Prune.{is_open, Pruned, prune-Pruned}
use arianna_method_anchor_pr.Solver.Pick.{pick-Of}

-- The call returns a status and a state as described.
abbrev pub Ensures : (ℤ → State → Type 0) → Outcome → Type 0
Ensures P (ran r s) = P r s
Ensures P crash = ⊥
Ensures P spent = ⊥

abbrev pub Goal : (ℤ → Type 0) → State → Outcome → Type 0
Goal Q s o = Ensures (λ r s'. Later s s' × Q r) o

pub Goal-weaken :
    (Q Q' : ℤ → Type 0) (s : State) (o : Outcome)
    → Goal Q s o
    → ((r : ℤ) → Q r → Q' r)
    → Goal Q' s o
Goal-weaken Q Q' s (ran r s') (l, q) h = (l, h r q)
Goal-weaken Q Q' s crash g h = g
Goal-weaken Q Q' s spent g h = g

pub Goal-after : (Q : ℤ → Type 0) (s t : State) (o : Outcome) → Later s t → Goal Q t o → Goal Q s o
Goal-after Q s t (ran r u) l (m, q) = (Later-trans s t u l m, q)
Goal-after Q s t crash l g = g
Goal-after Q s t spent l g = g

-- A call and what follows it.
pub go_on-Goal :
    (Q Q' : ℤ → Type 0) (s : State) (o : Outcome) (k : ℤ → State → Outcome)
    → Goal Q s o
    → ((r : ℤ) (t : State) → Later s t → Q r → Goal Q' t (k r t))
    → Goal Q' s (go_on o k)
go_on-Goal Q Q' s (ran r t) k (l, q) h = Goal-after Q' s t (k r t) l (h r t l q)
go_on-Goal Q Q' s crash k g h = g
go_on-Goal Q Q' s spent k g h = g

pub unless_failed-Goal :
    (Q : ℤ → Type 0) (s : State) (o : Outcome) (k : State → Outcome)
    → Goal Q s o
    → ((t : State) → Later s t → Goal Q t (k t))
    → Goal Q s (unless_failed o k)
unless_failed-Goal Q s (ran r t) k (l, q) h = elim (Bool-cases (int_eq r (pos 0))) [
  | inl e ↦ rw e (Goal-after Q s t (k t) l (h t l))
  | inr e ↦ rw e (l, q)
]
unless_failed-Goal Q s crash k g h = g
unless_failed-Goal Q s spent k g h = g

-- A call for which the name has to lose weight.
abbrev pub IsReady : State → ℕ → Option Pkg → Type 0
IsReady s i p = weigh (visited (locked false false p)) < weigh (at s i)

-- Removals succeed.
abbrev pub Status : Option Pkg → ℤ → Type 0
Status none r = r ≡ pos 0
Status (some p) r = Unit

open_in_range : (xs : List NameState) (i : ℕ) → is_open (get_or xs i empty) ≡ true → i < length xs
open_in_range [] i h = cc
open_in_range (x ∷ xs) zero h = omega arith
open_in_range (x ∷ xs) (suc i) h = omega (arith, open_in_range xs i h)

-- Calls one level down: they return for a state of this size and weight.
module _ (db : Db) (flags : Flags) (size f : ℕ) (closed : IsClosed size db)
    (rec : State → ℕ → Option Pkg → Outcome) where
  abbrev pub Fine : State → Type 0
  Fine s = (length s.names ≡ size) × (weight s ≤ f) × IsSound s

  pub Fine-Later : (s t : State) → Fine s → Later s t → Fine t
  Fine-Later s t (n, w, _) (n', w', _, _, h, _, _) = (omega arith, omega arith, h)

  abbrev pub Returns : Type 0
  Returns =
      (s : State) (i : ℕ) (p : Option Pkg)
      → Fine s
      → i < size
      → Of i p
      → IsReady s i p
      → Goal (Status p) s (rec s i p)

  module _ (returns : Returns) where
    open-IsReady : (s : State) (i : ℕ) (p : Option Pkg) → weigh (at s i) ≡ 2 → IsReady s i p
    open-IsReady s i none w = rw w (omega arith)
    open-IsReady s i (some p) w = rw w (omega arith)

    rec-Goal :
        (s : State) (i : ℕ) (p : Option Pkg)
        → Fine s
        → i < size
        → Of i p
        → weigh (at s i) ≡ 2
        → Goal (λ r. Unit) s (rec s i p)
    rec-Goal s i p fine h o w =
        Goal-weaken (Status p) (λ r. Unit) s (rec s i p)
          (returns s i p fine h o (open-IsReady s i p w)) (λ r q. tt)

    lock_chosen-Goal :
        (s : State) (i : ℕ) (p : Option Pkg)
        → Fine s
        → i < size
        → Of i p
        → weigh (at s i) ≡ 2
        → Goal (λ r. Unit) s (lock_chosen db flags rec s i p)
    lock_chosen-Goal s i none fine h o w = (Later-refl s fine.2, tt)
    lock_chosen-Goal s i (some p) fine h o w = rec-Goal s i (some p) fine h o w

    lock_open-Goal :
        (s : State) (i : ℕ) (x : NameState)
        → at s i ≡ x
        → is_open x ≡ true
        → Fine s
        → i < size
        → Goal (λ r. Unit) s (lock_open db flags rec s i x)
    unfolding lock_open
    lock_open-Goal s i (visited (locked true e p)) q o fine h =
        let fits : Of i p = rw q at (fine.2 i) in rec-Goal s i p fine h fits (rw q refl)
    lock_open-Goal s i (visited (choices c)) q o fine h =
        let fits : All (λ (k : Pkg). k.name ≡ i) c = rw q at (fine.2 i) in
        lock_chosen-Goal s i (pick db flags i c) fine h (pick-Of db flags i i c fits) (rw q refl)
    lock_open-Goal s i (visited (locked false e p)) q o fine h = cc
    lock_open-Goal s i empty q o fine h = cc

    after_prune-Goal :
        (s : State) (d : Dep) (o : ℤ × State)
        → Fine s
        → Pruned db s d.name o
        → Goal (λ r. Unit) s (after_prune db flags rec d o)
    after_prune-Goal s d (pos zero, t) fine (l, o) = (l, tt)
    after_prune-Goal s d (negsuc n, t) fine (l, o) = (l, tt)
    after_prune-Goal s d (pos (suc n), t) fine (l, o) =
        let fine' = Fine-Later s t fine l in
        let h = open_in_range t.names d.name (o refl) in
        Goal-after (λ r. Unit) s t _ l
          (lock_open-Goal t d.name (at t d.name) refl (o refl) fine' (rw fine'.0 at h))

    pub lock_dependency-Goal :
        (s : State) (d : Dep) → Fine s → Goal (λ r. Unit) s (lock_dependency db flags rec s d)
    unfolding lock_dependency
    lock_dependency-Goal s d fine =
        after_prune-Goal s d (prune_dependency db s d) fine
          (prune-Pruned db s d (rw fine.0 closed) fine.2)

    fix_loop-Goal :
        (ret : ℤ) (ds : List Dep) (s : State)
        → Fine s
        → Goal (λ r. Unit) s (fix_loop db flags rec ret ds s)
    unfolding fix_loop
    fix_loop-Goal ret [] s fine = (Later-refl s fine.2, tt)
    fix_loop-Goal ret (d ∷ ds) s fine =
        go_on-Goal (λ r. Unit) (λ r. Unit) s (lock_dependency db flags rec s d) _
          (lock_dependency-Goal s d fine)
          (λ r t l q.
            fix_loop-Goal (if int_eq r (pos 0) then ret else negsuc 0) ds t (Fine-Later s t fine l))

    pub fix_package-Goal :
        (s : State) (p : Option Pkg) → Fine s → Goal (Status p) s (fix_package db flags rec s p)
    unfolding fix_package
    fix_package-Goal s none fine = (Later-refl s fine.2, refl)
    fix_package-Goal s (some p) fine = fix_loop-Goal (pos 0) p.depends s fine
