-- ===== src/Solver/Total.antt =====
-- apk-tools/src/state.c: every call of the solver returns.
use arianna_method_anchor_pr.Prelude.{
  ℕ, zero, suc, ◌+◌, ◌*◌, ◌≤◌, ◌<◌, ◌≡◌, refl, Bool, true, false, not, ◌||◌, none, length, ℤ, pos,
  arith, length-set,
}
use arianna_method_anchor_pr.Solver.{Dep, Db, locked, visited, State, at, put}
use arianna_method_anchor_pr.Solver.Lock.{
  Outcome, ran, crash, spent, Flags, lock_dependency, lock_step, lock_name, depth,
}
use arianna_method_anchor_pr.Solver.Weight.{
  weigh, weight, weight_bound, is_locked, IsClosed, IsSound, Later, at-put_self, sum-set,
  put-IsSound,
}
use arianna_method_anchor_pr.Solver.Ends.{Ensures, Status, lock_dependency-Goal}
use arianna_method_anchor_pr.Solver.Calls.{Step, lock_step-Step, lock_name-Returns, weigh_le_sum}

pub rise : (p q : Bool) → (p ≡ true → q ≡ true) → (not p || q) ≡ true
rise true q h = h refl
rise false q h = refl

-- The call returns `r` in `t`.
abbrev pub Gives : (ℤ → State → Type 0) → Outcome → Type 0
Gives P o = (r : ℤ) × (t : State) × (o ≡ ran r t) × P r t

pub Ensures-Gives : (P : ℤ → State → Type 0) (o : Outcome) → Ensures P o → Gives P o
Ensures-Gives P (ran r t) h = (r, t, refl, h)
Ensures-Gives P crash h = absurd h
Ensures-Gives P spent h = absurd h

-- With the depth that the state allows, `apk_state_lock_dependency` returns for every dependency: it
-- neither calls itself without end nor uses a pointer that is none. It adds no names, takes back no
-- lock, keeps under each name only packages of this name, and notes at most twice as many changes as
-- there are names. The state is of a database where each name has only packages of this name, and
-- where the names that depend on it have a place in the state.
pub lock_dependency_returns :
    (db : Db) (flags : Flags) (s : State) (d : Dep)
    → IsClosed (length s.names) db
    → IsSound s
    → Gives
        (λ r t.
          (length t.names ≡ length s.names)
          × (length t.changes ≤ length s.changes + 2 * length s.names)
          × ((i : ℕ) → (not (is_locked (at s i)) || is_locked (at t i)) ≡ true)
          × IsSound t)
        (lock_dependency db flags (lock_name db flags (depth db flags s)) s d)
lock_dependency_returns db flags s d closed sound =
    let size = length s.names in
    let f = depth db flags s in
    let rec = lock_name db flags f in
    let (r, t, e, ((n, w, b, k, h, _, _), _)) =
      Ensures-Gives (λ r t. Later s t × Unit {0}) _
        (lock_dependency-Goal db flags size f closed rec (lock_name-Returns db flags size closed f)
          s d (refl, weight_bound s, sound)) in
    let total = weight_bound s in
    (r, t, e, (n, omega arith, λ i. rise (is_locked (at s i)) (is_locked (at t i)) (k i), h))

Step-locked :
    (s : State) (i : ℕ) (o : Outcome)
    → is_locked (at s i) ≡ true
    → Step (Status none) s o
    → Ensures (λ r t. (r ≡ pos 0) × (is_locked (at t i) ≡ true)) o
Step-locked s i (ran r t) l ((n, w, b, k, h, a, x), q) = (q, k i l)
Step-locked s i crash l g = g
Step-locked s i spent l g = g

removal_Ensures :
    (db : Db) (flags : Flags) (f : ℕ) (s : State) (i : ℕ)
    → IsClosed (length s.names) db
    → IsSound s
    → i < length s.names
    → 0 < weigh (at s i)
    → weight s ≤ f
    → Ensures (λ r t. (r ≡ pos 0) × (is_locked (at t i) ≡ true)) (lock_name db flags f s i none)
unfolding lock_name
removal_Ensures db flags zero s i closed sound h w b =
    let m = weigh_le_sum s.names i h in absurd (omega arith)
removal_Ensures db flags (suc f) s i closed sound h w b =
    let v = locked false false none in
    let e = sum-set s.names i (visited v) h in
    let n = length-set s.names i (visited v) in
    let rec = lock_name db flags f in
    Step-locked (put s i v) i (lock_step db flags rec s i none) (rw (at-put_self s i v h) refl) (
      lock_step-Step db flags (length s.names) closed f rec
        (lock_name-Returns db flags (length s.names) closed f) s i none h refl tt
        (n, omega arith, put-IsSound s i v h tt sound))

-- Removing a package succeeds: where a name is not decided, or is locked to a package,
-- `apk_state_lock_name` without a package returns 0, and then the name is locked. So the conflict of
-- no package, which the code would read through a NULL pointer, is never recorded.
pub lock_name_removes :
    (db : Db) (flags : Flags) (s : State) (i : ℕ)
    → IsClosed (length s.names) db
    → IsSound s
    → i < length s.names
    → 0 < weigh (at s i)
    → (t : State) × (lock_name db flags (depth db flags s) s i none ≡ ran (pos 0) t)
      × (is_locked (at t i) ≡ true)
lock_name_removes db flags s i closed sound h w =
    let (r, t, e, (z, l)) =
      Ensures-Gives (λ r t. (r ≡ pos 0) × (is_locked (at t i) ≡ true)) _
        (removal_Ensures db flags (depth db flags s) s i closed sound h w (weight_bound s)) in
    (t, rw z at e, l)
