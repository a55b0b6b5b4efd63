-- ===== src/Solver/Count.antt =====
-- apk-tools/src/state.c: the first loop of `apk_state_commit` reaches the end of the list that it
-- lengthens itself.
use arianna_method_anchor_pr.Prelude.{
  ℕ, zero, suc, ◌+◌, ◌*◌, ◌≤◌, ◌<◌, ◌≡◌, refl, Bool, true, false, ◌&&◌, ◌||◌, Option, none, some,
  List, [], ◌∷◌, ◌++◌, length, drop, pos, arith, Option-cases, inl, inr, length-append,
}
use arianna_method_anchor_pr.Solver.{Pkg, Db, Change, State}
use arianna_method_anchor_pr.Solver.Lock.{Outcome, ran, crash, spent, Flags}
use arianna_method_anchor_pr.Solver.Weight.{
  All, weight, weight_bound, IsClosed, IsSound, Real, AllReal, Extends, Later, Later-refl,
  Later-trans,
}
use arianna_method_anchor_pr.Solver.Ends.{Goal}
use arianna_method_anchor_pr.Solver.Clean.{autoclean, autoclean_loop-Goal}
use arianna_method_anchor_pr.Solver.Commit.{
  Stats, no_stats, count_change, cmp_remove, drops_toplevel, Plan, no_plan, note, Counted, counted,
  lost, unfinished, change_at, reads_none, clean_old, counted_on, count_loop,
}

change_at-append :
    (xs ys : List Change) (i : ℕ) (c : Change)
    → change_at xs i ≡ some c
    → change_at (xs ++ ys) i ≡ some c
change_at-append [] ys i c e = cc
change_at-append (x ∷ xs) ys zero c e = e
change_at-append (x ∷ xs) ys (suc i) c e = change_at-append xs ys i c e

drop-change_at :
    (xs : List Change) (i : ℕ) (c : Change)
    → change_at xs i ≡ some c
    → drop i xs ≡ c ∷ drop (suc i) xs
drop-change_at [] i c e = cc
drop-change_at (x ∷ xs) zero c e = let q : x ≡ c = cc in rw q refl
drop-change_at (x ∷ xs) (suc i) c e = drop-change_at xs i c e

drop_past : (xs : List Change) (i : ℕ) → change_at xs i ≡ none → drop i xs ≡ []
drop_past [] zero e = refl
drop_past [] (suc i) e = refl
drop_past (x ∷ xs) zero e = cc
drop_past (x ∷ xs) (suc i) e = drop_past xs i e

change_at_bound : (xs : List Change) (i : ℕ) (c : Change) → change_at xs i ≡ some c → i < length xs
change_at_bound [] i c e = cc
change_at_bound (x ∷ xs) zero c e = omega arith
change_at_bound (x ∷ xs) (suc i) c e = omega (arith, change_at_bound xs i c e)

All-change_at :
    (P : Change → Type 0) (xs : List Change) (i : ℕ) (c : Change)
    → change_at xs i ≡ some c
    → All P xs
    → P c
All-change_at P [] i c e a = cc
All-change_at P (x ∷ xs) zero c e (h, a) = let q : x ≡ c = cc in rw (← q) h
All-change_at P (x ∷ xs) (suc i) c e (h, a) = All-change_at P xs i c e a

length-Extends : (xs ys : List Change) → Extends xs ys → length xs ≤ length ys
length-Extends xs ys (zs, e) = rw e (omega (arith, length-append xs zs))

Real-reads : (n : ℕ) (old new : Option Pkg) → Real n old new → reads_none old new ≡ false
Real-reads n none none r = absurd r
Real-reads n none (some q) r = refl
Real-reads n (some p) new r = refl

module _ (db : Db) (flags : Flags) where
  -- The notes on each of the changes.
  abbrev pub note_all : Plan → List Change → Plan
  note_all plan [] = plan
  note_all plan (c ∷ cs) = note_all (note db plan c) cs

  module _ (size : ℕ) (closed : IsClosed size db) where
    clean_old-Goal :
        (s : State) (old new : Option Pkg)
        → length s.names ≡ size
        → IsSound s
        → Real size old new
        → Goal (λ r. r ≡ pos 0) s (clean_old db flags s old)
    unfolding autoclean
    clean_old-Goal s none new n sound r = (Later-refl s sound, refl)
    clean_old-Goal s (some p) new n sound known =
        autoclean_loop-Goal db flags size closed p.depends s n known sound

    -- The count ends, and has noted all changes of the last state from `i` on.
    abbrev pub Ends : ℕ → Plan → State → Counted → Type 0
    Ends i plan s (counted plan' t) = Later s t × (plan' ≡ note_all plan (drop i t.changes))
    Ends i plan s lost = ⊥
    Ends i plan s unfinished = ⊥

    Ends-after :
        (i : ℕ) (plan : Plan) (s t : State) (c : Change) (o : Counted)
        → change_at s.changes i ≡ some c
        → Later s t
        → Ends (suc i) (note db plan c) t o
        → Ends i plan s o
    Ends-after i plan s t c (counted plan' u) e l (m, q) =
        let l' = Later-trans s t u l m in
        let (zs, x) = l'.6 in
        let e' : change_at u.changes i ≡ some c = rw x (change_at-append s.changes zs i c e) in
        (l', rw (drop-change_at u.changes i c e') q)
    Ends-after i plan s t c lost e l h = h
    Ends-after i plan s t c unfinished e l h = h

    counted_on-Ends :
        (i : ℕ) (plan : Plan) (s : State) (c : Change) (o : Outcome) (k : State → Counted)
        → change_at s.changes i ≡ some c
        → Goal (λ r. r ≡ pos 0) s o
        → ((t : State) → Later s t → Ends (suc i) (note db plan c) t (k t))
        → Ends i plan s (counted_on db flags o k)
    counted_on-Ends i plan s c (ran r t) k e (l, z) h = Ends-after i plan s t c (k t) e l (h t l)
    counted_on-Ends i plan s c crash k e g h = g
    counted_on-Ends i plan s c spent k e g h = g

    pub count_loop-Ends :
        (fuel i : ℕ) (plan : Plan) (s : State)
        → length s.names ≡ size
        → IsSound s
        → AllReal (length s.names) s.changes
        → weight s + length s.changes < fuel + i
        → i ≤ length s.changes
        → Ends i plan s (count_loop db flags fuel i plan s)
    unfolding count_loop
    count_loop-Ends zero i plan s n sound real enough inside = absurd (omega arith)
    count_loop-Ends (suc fuel) i plan s n sound real enough inside =
        elim (Option-cases (change_at s.changes i)) [
          | inl e ↦ rw (e, count_loop) (Later-refl s sound, rw (drop_past s.changes i e) refl)
          | inr (c, e) ↦
              let r : Real (length s.names) c.oldpkg c.newpkg =
                All-change_at (λ (k : Change). Real (length s.names) k.oldpkg k.newpkg) s.changes i
                  c e real in
              let h = change_at_bound s.changes i c e in
              rw (e, Real-reads (length s.names) c.oldpkg c.newpkg r, count_loop)
                (counted_on-Ends i plan s c (clean_old db flags s c.oldpkg) _ e
                  (clean_old-Goal s c.oldpkg c.newpkg n sound (rw n at r))
                  (λ t l.
                    let m = length-Extends s.changes t.changes l.6 in
                    count_loop-Ends fuel (suc i) (note db plan c) t (rw l.0 n) l.4 (l.5 real)
                      (omega arith) (omega arith)))
        ]

abbrev pub some_of : (Change → Bool) → List Change → Bool
some_of test [] = false
some_of test (c ∷ cs) = test c || some_of test cs

abbrev pub all_of : (Change → Bool) → List Change → Bool
all_of test [] = true
all_of test (c ∷ cs) = test c && all_of test cs

-- The count of all changes on top of what is counted.
abbrev pub totals : List Change → Stats → Stats
totals [] t = t
totals (c ∷ cs) t = totals cs (count_change c t)

or_or : (a b c : Bool) → (a || b) || c ≡ a || (b || c)
or_or true b c = refl
or_or false b c = refl

and_and : (a b c : Bool) → (a && b) && c ≡ a && (b && c)
and_and true b c = refl
and_and false b c = refl

or_false : (a : Bool) → a ≡ a || false
or_false true = refl
or_false false = refl

and_true : (a : Bool) → a ≡ a && true
and_true true = refl
and_true false = refl

module _ (db : Db) (flags : Flags) where
  note_all-numpkg :
      (plan : Plan) (cs : List Change)
      → (note_all db flags plan cs).numpkg ≡ plan.numpkg + length cs
  unfolding note
  note_all-numpkg plan [] = omega arith
  note_all-numpkg plan (c ∷ cs) = omega (arith, note_all-numpkg (note db plan c) cs)

  note_all-toplevel :
      (plan : Plan) (cs : List Change)
      → (note_all db flags plan cs).toplevel ≡ plan.toplevel || some_of (drops_toplevel db) cs
  unfolding note
  note_all-toplevel plan [] = or_false plan.toplevel
  note_all-toplevel plan (c ∷ cs) =
      rw (note_all-toplevel (note db plan c) cs)
        (or_or plan.toplevel (drops_toplevel db c) (some_of (drops_toplevel db) cs))

  note_all-deleteonly :
      (plan : Plan) (cs : List Change)
      → (note_all db flags plan cs).deleteonly ≡ plan.deleteonly && all_of cmp_remove cs
  unfolding note
  note_all-deleteonly plan [] = and_true plan.deleteonly
  note_all-deleteonly plan (c ∷ cs) =
      rw (note_all-deleteonly (note db plan c) cs)
        (and_and plan.deleteonly (cmp_remove c) (all_of cmp_remove cs))

  note_all-total :
      (plan : Plan) (cs : List Change) → (note_all db flags plan cs).total ≡ totals cs plan.total
  unfolding note
  note_all-total plan [] = refl
  note_all-total plan (c ∷ cs) = note_all-total (note db plan c) cs

-- As many rounds as `apk_state_commit` can make: one for each change, and for each that
-- autocleaning can still add.
abbrev pub rounds : State → ℕ
rounds s = suc (2 * length s.names + length s.changes)

-- What the notes say of the changes.
abbrev pub Tells : Db → Plan → List Change → Type 0
Tells db plan cs =
    (plan.numpkg ≡ length cs)
    × (plan.toplevel ≡ some_of (drops_toplevel db) cs)
    × (plan.deleteonly ≡ all_of cmp_remove cs)
    × (plan.total ≡ totals cs no_stats)

Ends-Tells :
    (db : Db) (flags : Flags) (size : ℕ) (closed : IsClosed size db) (s : State) (o : Counted)
    → Ends db flags size closed 0 no_plan s o
    → (plan : Plan) × (t : State) × (o ≡ counted plan t) × Later s t × Tells db plan t.changes
Ends-Tells db flags size closed s (counted plan t) (l, e) = (
  plan,
  t,
  refl,
  l,
  (
    rw (e, note_all-numpkg db flags no_plan t.changes) (omega arith),
    rw (e, note_all-toplevel db flags no_plan t.changes) refl,
    rw (e, note_all-deleteonly db flags no_plan t.changes) refl,
    rw (e, note_all-total db flags no_plan t.changes) refl,
  ),
)
Ends-Tells db flags size closed s lost h = absurd h
Ends-Tells db flags size closed s unfinished h = absurd h

-- The loop in which `apk_state_commit` counts the changes ends, although autocleaning adds changes
-- to the list that it goes through, and it counts the added ones, too: at its end, `numpkg` is the
-- length of the whole list, `toplevel` says whether it removes a package of a top-level name,
-- `deleteonly` whether it only removes, and `total` is the sum over all of it. The changes from
-- before are still in front. The database is closed and the state sound, as for
-- `apk_state_autoclean`, and each change installs a package or removes one whose dependencies have a
-- place in the state.
pub count_loop_ends :
    (db : Db) (flags : Flags) (s : State)
    → IsClosed (length s.names) db
    → IsSound s
    → AllReal (length s.names) s.changes
    → (plan : Plan) × (t : State) × (count_loop db flags (rounds s) 0 no_plan s ≡ counted plan t)
      × Extends s.changes t.changes
      × Tells db plan t.changes
count_loop_ends db flags s closed sound real =
    let b = weight_bound s in
    let (plan, t, e, l, tells) = Ends-Tells db flags (length s.names) closed s _ (
      count_loop-Ends db flags (length s.names) closed (rounds s) 0 no_plan s refl sound real
        (omega arith) (omega arith)) in
    (plan, t, e, l.6, tells)
