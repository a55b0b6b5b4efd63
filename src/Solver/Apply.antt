-- ===== src/Solver/Apply.antt =====
-- apk-tools/src/state.c: how far `apk_state_commit` carries out the changes of a solution.
use mathlib.Core.Path.{subst}
use arianna_method_anchor_pr.Prelude.{
  ℕ, suc, ◌≤◌, ◌≡◌, refl, ap, sym, ◌∙◌, Bool, true, false, not, ◌&&◌, ◌||◌, some, List, [], ◌∷◌,
  ◌==◌, if◌then◌else◌, length, take, ℤ, pos, negsuc, ◌⊎◌, arith, int_eq, if_either, Bool-cases, inl,
  inr,
}
use arianna_method_anchor_pr.Solver.{Change, State}
use arianna_method_anchor_pr.Solver.Lock.{Flags}
use arianna_method_anchor_pr.Solver.Weight.{IsClosed, IsSound, AllReal, Extends}
use arianna_method_anchor_pr.Solver.Commit.{
  no_stats, count_change, drops_toplevel, Plan, Wishes, is_yes, Disk, Work, do_change, finished,
  apply_loop, updated, carry_out, state_commit,
}
use arianna_method_anchor_pr.Solver.Count.{some_of, totals, rounds, count_loop_ends}

if_both {ℓ} : {A : Type ℓ} (b : Bool) (x : A) → x ≡ (if b then x else x)
if_both true x = refl
if_both false x = refl

module _ {ℓ} {W : Type ℓ} (on : Disk W) (wishes : Wishes) where
  done_kept : (c : Change) (w : Work W) → (do_change on wishes c w).1.done_so_far ≡ w.done_so_far
  done_kept c w = elim (Bool-cases wishes.simulate) [
    | inl e ↦ rw e refl
    | inr e ↦ rw e (elim (Bool-cases (int_eq (on.install_pkg c.oldpkg c.newpkg w.disk).0 (pos 0))) [
      | inl z ↦ rw z refl
      | inr z ↦ rw z refl
    ])
  ]

  status_of :
      (c : Change) (w : Work W)
      → wishes.simulate ≡ false
      → (do_change on wishes c w).0 ≡ (on.install_pkg c.oldpkg c.newpkg w.disk).0
  status_of c w e =
      rw e (elim (Bool-cases (int_eq (on.install_pkg c.oldpkg c.newpkg w.disk).0 (pos 0))) [
        | inl z ↦ rw z refl
        | inr z ↦ rw z refl
      ])

  -- The disk after the changes were installed one after the other.
  abbrev pub installed_on : List Change → W → W
  installed_on [] d = d
  installed_on (c ∷ cs) d = installed_on cs (on.install_pkg c.oldpkg c.newpkg d).1

  -- How many changes can be installed one after the other until one fails; a simulation has no error.
  abbrev pub good_on : List Change → W → ℕ
  good_on [] d = 0
  good_on (c ∷ cs) d =
      let (r, d') = on.install_pkg c.oldpkg c.newpkg d in
      let rest = good_on cs d' in if int_eq r (pos 0) then suc rest else 0

  abbrev pub goods : List Change → W → ℕ
  goods cs d = if wishes.simulate then length cs else good_on cs d

  -- The disk after `k` changes, and one more with the result `r` if that is an error.
  abbrev pub reached : List Change → W → ℤ → ℕ → W
  reached cs d r k =
      if wishes.simulate
      then d
      else if int_eq r (pos 0)
      then installed_on (take k cs) d
      else installed_on (take (suc k) cs) d

  -- The first changes, up to an error, are done on the disk and counted, and all of them just if the
  -- status is 0.
  abbrev pub Applied : List Change → Work W → ℤ × Work W → Type ℓ
  Applied cs w (r, w') =
      (k : ℕ) × (k ≤ length cs)
      × (w'.done_so_far ≡ totals (take k cs) w.done_so_far)
      × (int_eq r (pos 0) ≡ (k == length cs))
      × (k ≡ goods cs w.disk)
      × (w'.disk ≡ reached cs w.disk r k)

  -- A change that was done has been counted, and is on the disk unless the run is simulated.
  abbrev Does : Change → Work W → Work W → Type ℓ
  Does c w u =
      (u.done_so_far ≡ count_change c w.done_so_far)
      × ((cs : List Change) → goods (c ∷ cs) w.disk ≡ suc (goods cs u.disk))
      × ((cs : List Change) (r : ℤ) (k : ℕ)
          → reached (c ∷ cs) w.disk r (suc k) ≡ reached cs u.disk r k)

  do_change-Does :
      (c : Change) (w : Work W)
      → int_eq (do_change on wishes c w).0 (pos 0) ≡ true
      → Does c w (finished on wishes c (do_change on wishes c w).1)
  do_change-Does c w z = elim (Bool-cases wishes.simulate) [
    | inl e ↦ rw e (refl, (λ cs. refl), (λ cs r k. refl))
    | inr e ↦
        let y : int_eq (on.install_pkg c.oldpkg c.newpkg w.disk).0 (pos 0) ≡ true =
          ap (λ (r : ℤ). int_eq r (pos 0)) (sym (status_of c w e)) ∙ z in
        rw (e, y) (refl, (λ cs. refl), (λ cs r k. refl))
  ]

  Applied-more :
      (c : Change) (cs : List Change) (w u : Work W) (o : ℤ × Work W)
      → Does c w u
      → Applied cs u o
      → Applied (c ∷ cs) w o
  Applied-more c cs w u (r, w') (e, g, m) (k, h, d, z, n, l) =
      let same : (k == length cs) ≡ (suc k == suc (length cs)) = ground arith in
      (suc k, omega arith, rw (d, e) refl, rw z same, ap suc n ∙ sym (g cs), l ∙ sym (m cs r k))

  -- A change that fails is not counted, and what it has done to the disk stays.
  apply_loop-failed :
      (c : Change) (cs : List Change) (w : Work W)
      → int_eq (do_change on wishes c w).0 (pos 0) ≡ false
      → Applied (c ∷ cs) w (do_change on wishes c w)
  apply_loop-failed c cs w z =
      let short : (0 == suc (length cs)) ≡ false = ground arith in
      elim (Bool-cases wishes.simulate) [
        | inl e ↦ let f : true ≡ false = rw e at z in cc
        | inr e ↦
            let y : int_eq (on.install_pkg c.oldpkg c.newpkg w.disk).0 (pos 0) ≡ false =
              ap (λ (r : ℤ). int_eq r (pos 0)) (sym (status_of c w e)) ∙ z in
            rw (e, y) (0, omega arith, refl, rw (y, short) refl, refl, rw y refl)
      ]

  apply_loop-Applied : (cs : List Change) (w : Work W) → Applied cs w (apply_loop on wishes cs w)
  unfolding apply_loop
  apply_loop-Applied [] w =
      (0, omega arith, refl, refl, if_both wishes.simulate 0, if_both wishes.simulate w.disk)
  apply_loop-Applied (c ∷ cs) w =
      let w₂ = finished on wishes c (do_change on wishes c w).1 in
      elim (Bool-cases (int_eq (do_change on wishes c w).0 (pos 0))) [
        | inl z ↦ rw z (
            Applied-more c cs w w₂ (apply_loop on wishes cs w₂) (do_change-Does c w z)
              (apply_loop-Applied cs w₂))
        | inr z ↦ rw z (apply_loop-failed c cs w z)
      ]

  -- Nothing but what stands at `update_state` has happened.
  abbrev pub Untouched : Work W → Work W → Type ℓ
  Untouched w w' =
      (w'.db ≡ w.db)
      × (w'.done_so_far ≡ no_stats)
      × ((w'.disk ≡ w.disk) ⊎ (w'.disk ≡ on.write_config w.db.world (on.run_triggers w.disk)))

  carry_out-Untouched :
      (plan : Plan) (cs : List Change) (w : Work W)
      → plan.toplevel ≡ true
      → wishes.interactive || wishes.recursive_delete ≡ false
      → w.done_so_far ≡ no_stats
      → Untouched w (carry_out on wishes plan cs w).1
  unfolding carry_out
  carry_out-Untouched plan cs w t n z =
      rw (t, n)
        (if_either (λ (o : ℤ × Work W). Untouched w o.1) plan.deleteonly
          (updated on wishes (pos 0, w)) (negsuc 0, w) (refl, z, inr refl) (refl, z, inl refl))

  -- The triggers and the writing of the configuration, at the end.
  abbrev pub closing : Work W → W → W
  closing w' d = on.write_config w'.db.world (on.run_triggers d)

  -- The user was asked and did not agree.
  abbrev pub declined : Bool
  declined = wishes.interactive && not (is_yes wishes.answer)

  -- The first changes of the list, up to an error, are done on the disk and counted, or none if
  -- the user did not agree or `skips`; all of them on success unless `skips`.
  abbrev pub Progress : Bool → List Change → W → ℤ × Work W → Type ℓ
  Progress skips cs d (r, w') =
      (k : ℕ) × (k ≤ length cs)
      × (w'.done_so_far ≡ totals (take k cs) no_stats)
      × ((not (int_eq r (pos 0)) || (skips || (k == length cs))) ≡ true)
      × (((k ≡ 0) × ((skips || declined) ≡ true) × ((w'.disk ≡ d) ⊎ (w'.disk ≡ closing w' d)))
          ⊎ ((k ≡ goods cs d) × (w'.disk ≡ closing w' (reached cs d r k))))

  Applied-Progress :
      (skips : Bool) (cs : List Change) (w : Work W) (o : ℤ × Work W)
      → w.done_so_far ≡ no_stats
      → Applied cs w o
      → Progress skips cs w.disk (updated on wishes o)
  Applied-Progress skips cs w (r, w') z (k, h, d, e, n, l) =
      let same : totals (take k cs) w.done_so_far ≡ totals (take k cs) no_stats = rw z refl in
      let all : (not (k == length cs) || (skips || (k == length cs))) ≡ true = ground arith in
      (k, h, rw d same, rw e all, inr (n, ap (closing w') l))

  refused-Progress :
      (skips : Bool) (cs : List Change) (w : Work W)
      → w.done_so_far ≡ no_stats
      → (skips || declined) ≡ true
      → Progress skips cs w.disk (negsuc 0, w)
  refused-Progress skips cs w z e = (0, omega arith, z, refl, inl (refl, e, inl refl))

  skipped-Progress :
      (cs : List Change) (w : Work W)
      → w.done_so_far ≡ no_stats
      → Progress true cs w.disk (updated on wishes (pos 0, w))
  skipped-Progress cs w z = (0, omega arith, z, refl, inl (refl, refl, inr refl))

  carried-Progress :
      (skips : Bool) (cs : List Change) (w : Work W)
      → w.done_so_far ≡ no_stats
      → Progress skips cs w.disk
          (if declined then (negsuc 0, w) else updated on wishes (apply_loop on wishes cs w))
  carried-Progress skips cs w z = elim (Bool-cases declined) [
    | inl e ↦
        let y : (skips || declined) ≡ true = ground arith in
        subst
          (λ (b : Bool).
            Progress skips cs w.disk
              (if b then (negsuc 0, w) else updated on wishes (apply_loop on wishes cs w)))
          (sym e) (refused-Progress skips cs w z y)
    | inr e ↦
        subst
          (λ (b : Bool).
            Progress skips cs w.disk
              (if b then (negsuc 0, w) else updated on wishes (apply_loop on wishes cs w)))
          (sym e)
          (Applied-Progress skips cs w (apply_loop on wishes cs w) z (apply_loop-Applied cs w))
  ]

  carry_out-Progress :
      (skips : Bool) (plan : Plan) (cs : List Change) (w : Work W)
      → plan.toplevel ≡ skips
      → w.done_so_far ≡ no_stats
      → Progress skips cs w.disk (carry_out on wishes plan cs w)
  unfolding carry_out
  carry_out-Progress true plan cs w t z = rw t (
      if_either (Progress true cs w.disk) (not (wishes.interactive || wishes.recursive_delete))
        (if plan.deleteonly then updated on wishes (pos 0, w) else (negsuc 0, w))
        (if declined then (negsuc 0, w) else updated on wishes (apply_loop on wishes cs w))
        (if_either (Progress true cs w.disk) plan.deleteonly (updated on wishes (pos 0, w))
          (negsuc 0, w) (skipped-Progress cs w z) (refused-Progress true cs w z refl))
        (carried-Progress true cs w z))
  carry_out-Progress false plan cs w t z = rw t (carried-Progress false cs w z)

  -- Without a wish for interaction or for recursive deletion, `apk_state_commit` removes no package
  -- of a top-level name: it returns, and either no change of the final list is such a removal, or
  -- nothing at all was installed, removed or forgotten, and the disk is as before or has seen only
  -- the triggers and the writing of the configuration. The database is closed, the state sound, and
  -- each change installs a package or removes one whose dependencies have a place in the state.
  pub commit_keeps_toplevel :
      (flags : Flags) (s : State) (w : Work W)
      → IsClosed (length s.names) w.db
      → IsSound s
      → AllReal (length s.names) s.changes
      → wishes.interactive || wishes.recursive_delete ≡ false
      → (r : ℤ) × (t : State) × (w' : Work W) × (state_commit on wishes (rounds s) flags s w
          ≡ some (r, t, w'))
        × ((some_of (drops_toplevel w.db) t.changes ≡ false) ⊎ Untouched w w')
  unfolding state_commit
  commit_keeps_toplevel flags s w closed sound real n =
      let w₀ : Work W = record w { done_so_far = no_stats } in
      let (plan, t, e, x, (m, top, only, sum)) = count_loop_ends w.db flags s closed sound real in
      let o = carry_out on wishes plan t.changes w₀ in
      (
        o.0,
        t,
        o.1,
        rw e refl,
        elim (Bool-cases (some_of (drops_toplevel w.db) t.changes)) [
          | inl b ↦ inr (carry_out-Untouched plan t.changes w₀ (rw (← b) top) n refl)
          | inr b ↦ inl b
        ],
      )

  -- `apk_state_commit` returns, and the final list starts with the list given. Either the user did
  -- not agree or a change removes a package of a top-level name, and then nothing was installed, and
  -- the disk is as before or has seen only the triggers and the writing of the configuration; or, unless the run is simulated, each change of the final list up to the first that
  -- fails was installed in turn, with its old and its new package, and then the triggers were run and
  -- the configuration written. What is counted as done is the sum over the changes that were installed.
  -- When the result is 0, and no change removes a package of a top-level name, then these are all
  -- changes. The database, the state and the changes are as for `commit_keeps_toplevel`.
  pub commit_progresses :
      (flags : Flags) (s : State) (w : Work W)
      → IsClosed (length s.names) w.db
      → IsSound s
      → AllReal (length s.names) s.changes
      → (r : ℤ) × (t : State) × (w' : Work W) × (state_commit on wishes (rounds s) flags s w
          ≡ some (r, t, w'))
        × Extends s.changes t.changes
        × Progress (some_of (drops_toplevel w.db) t.changes) t.changes w.disk (r, w')
  unfolding state_commit
  commit_progresses flags s w closed sound real =
      let w₀ : Work W = record w { done_so_far = no_stats } in
      let (plan, t, e, x, (m, top, only, sum)) = count_loop_ends w.db flags s closed sound real in
      let o = carry_out on wishes plan t.changes w₀ in
      (
        o.0,
        t,
        o.1,
        rw e refl,
        x,
        carry_out-Progress (some_of (drops_toplevel w.db) t.changes) plan t.changes w₀ top refl,
      )
