-- ===== src/Solver/Pick.antt =====
-- apk-tools/src/state.c: the package that is picked for a name is one of its candidates.
use arianna_method_anchor_pr.Prelude.{
  ℕ, ◌≡◌, Bool, not, ◌&&◌, ◌||◌, Option, none, some, List, [], ◌∷◌, ◌==◌, if_either,
}
use arianna_method_anchor_pr.Solver.{Pkg, Db, name_at, is_available}
use arianna_method_anchor_pr.Solver.Lock.{Flags, pick, pick_loop, newer, staying}
use arianna_method_anchor_pr.Solver.Weight.{All, Of}

module _ (db : Db) (flags : Flags) where
  newer-Of :
      (i : ℕ) (by_repo : Bool) (l p : Pkg)
      → l.name ≡ i
      → p.name ≡ i
      → (newer db flags by_repo l p).name ≡ i
  unfolding newer
  newer-Of i by_repo l p h q =
      let P = λ (k : Pkg). k.name ≡ i in
      if_either P _ l _ h (if_either P _ p _ q (if_either P _ p l q h))

  pick_loop-Of :
      (i : ℕ) (by_repo : Bool) (c : List Pkg) (inst latest : Option Pkg)
      → All (λ (p : Pkg). p.name ≡ i) c
      → Of i inst
      → Of i latest
      → Of i (pick_loop db flags by_repo c inst latest).0
        × Of i (pick_loop db flags by_repo c inst latest).1
  unfolding pick_loop
  pick_loop-Of i by_repo [] inst latest a h l = (h, l)
  pick_loop-Of i by_repo (p ∷ c) inst none (q, a) h l =
      pick_loop-Of i by_repo c _ _ a (if_either (Of i) p.installed (some p) inst q h)
        (if_either (Of i) (not p.installed && not (is_available db p)) none (some p) tt q)
  pick_loop-Of i by_repo (p ∷ c) inst (some m) (q, a) h l =
      pick_loop-Of i by_repo c _ _ a (if_either (Of i) p.installed (some p) inst q h) (
        if_either (Of i) (not p.installed && not (is_available db p)) (some m)
          (some (newer db flags by_repo m p)) l (newer-Of i by_repo m p l q))

  staying-Of :
      (i : ℕ) (reinstall : Bool) (inst latest : Option Pkg)
      → Of i inst
      → Of i latest
      → Of i (staying db flags reinstall inst latest)
  staying-Of i reinstall none latest h l = l
  staying-Of i reinstall (some q) latest h l =
      if_either (Of i) (not (q.repos == 0) || not reinstall) (some q) latest h l

  pub pick-Of :
      (i j : ℕ) (c : List Pkg) → All (λ (p : Pkg). p.name ≡ i) c → Of i (pick db flags j c)
  unfolding pick
  pick-Of i j c a =
      let again = (name_at db j).reinstall in
      let (inst, latest) = pick_loop db flags (flags.prefer_available || again) c none none in
      let (h, l) = pick_loop-Of i (flags.prefer_available || again) c none none a tt tt in
      if_either (Of i) flags.upgrade latest (staying db flags again inst latest) l
        (staying-Of i again inst latest h l)
