-- ===== src/Solver/Broken.antt =====
-- apk-tools/src/state.c: what depends on a changed name is looked through to its end.
use arianna_method_anchor_pr.Prelude.{
  ℕ, ◌<◌, ◌≡◌, refl, true, false, Option, none, some, List, [], ◌∷◌, leb, length, ℤ, pos, arith,
  if_either,
}
use arianna_method_anchor_pr.Package.Dependency.{require}
use arianna_method_anchor_pr.Solver.{
  Pkg, Db, choices, locked, NameState, empty, visited, State, name_at, at,
}
use arianna_method_anchor_pr.Solver.Lock.{
  Outcome, ran, Flags, any_broken, call_if_broke, first_installed, holder, call_holder, each_broken,
  callback,
}
use arianna_method_anchor_pr.Solver.Weight.{All, weigh, is_locked, Of, IsClosed, Later-refl}
use arianna_method_anchor_pr.Solver.Ends.{
  Goal, unless_failed-Goal, Status, Fine, Fine-Later, Returns, lock_dependency-Goal,
}

module _ (db : Db) (flags : Flags) (size f : ℕ) (closed : IsClosed size db)
    (rec : State → ℕ → Option Pkg → Outcome) (returns : Returns db flags size f closed rec) where
  abbrev pub FitsHere : State → Type 0
  FitsHere s = Fine db flags size f closed rec s

  first_installed-Of :
      (i : ℕ) (c : List Pkg) → All (λ (p : Pkg). p.name ≡ i) c → Of i (first_installed db flags c)
  first_installed-Of i [] a = tt
  first_installed-Of i (p ∷ c) (q, a) =
      if_either (Of i) p.installed (some p) (first_installed db flags c) q
        (first_installed-Of i c a)

  -- What the callbacks ask of the package.
  abbrev pub Held : State → Option Pkg → Type 0
  Held s none = Unit
  Held s (some p) = (p.name < size) × (0 < weigh (at s p.name))

  Held-Of : (s : State) (j : ℕ) (p : Option Pkg) → Of j p → j < size → 0 < weigh (at s j) → Held s p
  Held-Of s j none o h w = tt
  Held-Of s j (some p) o h w = rw o (h, w)

  holder-Held :
      (s : State) (j : ℕ) (x : NameState)
      → at s j ≡ x
      → FitsHere s
      → j < size
      → Held s (holder db flags j x)
  unfolding holder
  holder-Held s j empty e fine h =
      Held-Of s j _ (first_installed-Of j (name_at db j).pkgs (closed j).0) h (rw e (omega arith))
  holder-Held s j (visited (choices c)) e fine h =
      let fits : All (λ (k : Pkg). k.name ≡ j) c = rw e at (fine.2 j) in
      Held-Of s j _ (first_installed-Of j c fits) h (rw e (omega arith))
  holder-Held s j (visited (locked pending error none)) e fine h = tt
  holder-Held s j (visited (locked true error (some p))) e fine h =
      let fits : p.name ≡ j = rw e at (fine.2 j) in Held-Of s j (some p) fits h (rw e (omega arith))
  holder-Held s j (visited (locked false error (some p))) e fine h =
      let fits : p.name ≡ j = rw e at (fine.2 j) in Held-Of s j (some p) fits h (rw e (omega arith))

  -- A callback that returns for such a package, with a status of which `Q` holds.
  abbrev pub Answers : (ℤ → Type 0) → (State → Pkg → Outcome) → Type 0
  Answers Q cb = (s : State) (p : Pkg) → FitsHere s → Held s (some p) → Goal Q s (cb s p)

  module _ (Q : ℤ → Type 0) (ok : Q (pos 0)) (cb : State → Pkg → Outcome)
      (answers : Answers Q cb) where
    call_selected-Goal :
        (s : State) (p : Pkg) (i : ℕ) (x : NameState)
        → at s i ≡ x
        → is_locked x ≡ true
        → FitsHere s
        → Held s (some p)
        → Goal Q s (call_if_broke db flags cb s p i)
    unfolding call_if_broke
    call_selected-Goal s p i (visited (locked pending error q)) e l fine held =
        rw (e, call_if_broke)
          (if_either (Goal Q s) (any_broken db flags i q p.depends) (cb s p) (ran (pos 0) s)
            (answers s p fine held) (Later-refl s fine.2, ok))
    call_selected-Goal s p i (visited (choices c)) e l fine held = cc
    call_selected-Goal s p i empty e l fine held = cc

    call_holder-Goal :
        (s : State) (p : Option Pkg) (i : ℕ)
        → is_locked (at s i) ≡ true
        → FitsHere s
        → Held s p
        → Goal Q s (call_holder db flags cb s p i)
    call_holder-Goal s none i l fine held = (Later-refl s fine.2, ok)
    call_holder-Goal s (some p) i l fine held = call_selected-Goal s p i (at s i) refl l fine held

    pub each_broken-Goal :
        (i : ℕ) (js : List ℕ) (s : State)
        → All (λ (j : ℕ). j < size) js
        → is_locked (at s i) ≡ true
        → FitsHere s
        → Goal Q s (each_broken db flags cb i js s)
    unfolding each_broken
    each_broken-Goal i [] s a l fine = (Later-refl s fine.2, ok)
    each_broken-Goal i (j ∷ js) s (h, a) l fine =
        let inside : leb (length s.names) j ≡ false = rw fine.0 (ground arith) in
        rw inside (
          unless_failed-Goal Q s (call_holder db flags cb s (holder db flags j (at s j)) i)
            (λ t. each_broken db flags cb i js t)
            (call_holder-Goal s (holder db flags j (at s j)) i l fine
              (holder-Held s j (at s j) refl fine h))
            (λ t later.
              each_broken-Goal i js t a (later.3 i l)
                (Fine-Later db flags size f closed rec s t fine later)))

  pub callback-Goal : (new : Option Pkg) → Answers (Status new) (callback db flags rec new)
  callback-Goal none s p fine held = returns s p.name none fine held.0 tt held.1
  callback-Goal (some q) s p fine held =
      lock_dependency-Goal db flags size f closed rec returns s
        (record { name = p.name; mask = require; version = none }) fine
