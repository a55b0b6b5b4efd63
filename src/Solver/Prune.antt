-- ===== src/Solver/Prune.antt =====
-- apk-tools/src/state.c: pruning leaves no more to do, and says when a name is still open.
use arianna_method_anchor_pr.Prelude.{
  ℕ, zero, suc, ◌<◌, ◌≡◌, refl, Bool, true, false, Option, none, some, List, [], ◌∷◌, leb, ◌==◌,
  length, take, ◌%◌, ◌^◌, ℤ, pos, negsuc, arith, Bool-cases, inl, inr, keep_if,
}
use arianna_method_anchor_pr.Package.Dependency.{conflict}
use arianna_method_anchor_pr.Solver.{
  Dep, Pkg, Db, Visited, choices, locked, NameState, empty, visited, State, name_at, at, put,
  pending_status, matches, installable, world_loop, candidates, is_available, settle, prune_visited,
  prune_at, prune_dependency,
}
use arianna_method_anchor_pr.Solver.Weight.{
  All, All-keep_if, weigh, is_locked, Fits, IsClosed, IsSound, Later, Later-refl, Later-trans,
  at-put_self, put-Later,
}

-- A name that is pending or has candidates.
abbrev pub is_open : NameState → Bool
is_open empty = false
is_open (visited (choices c)) = true
is_open (visited (locked pending error p)) = pending

abbrev pub is_positive : ℤ → Bool
is_positive (pos zero) = false
is_positive (pos (suc n)) = true
is_positive (negsuc n) = false

All-take : (P : Pkg → Type 0) (n : ℕ) (xs : List Pkg) → All P xs → All P (take n xs)
All-take P zero xs h = tt
All-take P (suc n) [] h = tt
All-take P (suc n) (x ∷ xs) (p, h) = (p, All-take P n xs h)

module _ (db : Db) where
  world_loop-All :
      (P : Pkg → Type 0) (ds : List Dep) (i : ℕ) (c : List Pkg)
      → All P c
      → All P (world_loop ds i c)
  unfolding world_loop
  world_loop-All P [] i c h = h
  world_loop-All P (d ∷ ds) i c h = elim (Bool-cases (d.name == i)) [
    | inl e ↦ rw e (world_loop-All P ds i (keep_if (matches d) c) (All-keep_if P (matches d) c h))
    | inr e ↦ rw e (world_loop-All P ds i c h)
  ]

  pub candidates-Fits :
      (i : ℕ)
      → All (λ (p : Pkg). p.name ≡ i) (name_at db i).pkgs
      → Fits i (visited (candidates db i))
  unfolding candidates
  candidates-Fits i h =
      let P = λ (p : Pkg). p.name ≡ i in
      let pkgs = (name_at db i).pkgs in
      let first = take (length pkgs % 2 ^ 16) pkgs in
      let c = keep_if installable first in
      let k = All-keep_if P installable first (All-take P (length pkgs % 2 ^ 16) pkgs h) in
      let w = world_loop-All P db.world i c k in
      elim (Bool-cases (length (name_at db i).pkgs == 0)) [
        | inl e ↦ rw e tt
        | inr e ↦ rw e (elim (Bool-cases (name_at db i).toplevel_override) [
          | inl e' ↦ rw e' k
          | inr e' ↦ rw e' w
        ])
      ]

  candidates-weigh : (i : ℕ) → weigh (visited (candidates db i)) ≡ 2
  unfolding candidates
  candidates-weigh i = ground arith

  -- The state is no further from its end, and a positive status means that the name is open.
  abbrev pub Pruned : State → ℕ → ℤ × State → Type 0
  Pruned s i (r, s') = Later s s' × ((is_positive r ≡ true) → (is_open (at s' i) ≡ true))

  settle-Pruned :
      (s : State) (i : ℕ) (c : List Pkg)
      → i < length s.names
      → IsSound s
      → All (λ (p : Pkg). p.name ≡ i) c
      → is_locked (at s i) ≡ false
      → weigh (at s i) ≡ 2
      → Pruned s i (settle db s i c)
  unfolding settle
  settle-Pruned s i [] h sound a l w =
      (put-Later s i (locked true false none) h tt (omega arith) (λ e. refl) sound, λ e. cc)
  settle-Pruned s i (p ∷ []) h sound a l w = elim (Bool-cases (is_available db p)) [
    | inl e ↦ rw e (
      put-Later s i (locked true false (some p)) h a.0 (omega arith) (λ e. refl) sound,
      λ e. rw (at-put_self s i (locked true false (some p)) h) refl,
    )
    | inr e ↦
        rw e (put-Later s i (locked true false none) h tt (omega arith) (λ e. refl) sound, λ e. cc)
  ]
  settle-Pruned s i (p ∷ q ∷ c) h sound a l w = (
    put-Later s i (choices (p ∷ q ∷ c)) h a (omega arith) (λ e. cc) sound,
    λ e. rw (at-put_self s i (choices (p ∷ q ∷ c)) h) refl,
  )

  -- What is known of the name stays as it is.
  same-Pruned :
      (s : State) (i : ℕ) (pending error : Bool) (p : Option Pkg)
      → IsSound s
      → at s i ≡ visited (locked pending error p)
      → Pruned s i (pending_status pending, s)
  same-Pruned s i true error p sound e = (Later-refl s sound, λ h. rw e refl)
  same-Pruned s i false error p sound e = (Later-refl s sound, λ h. cc)

  fails-Pruned : (s : State) (i : ℕ) → IsSound s → Pruned s i (negsuc 0, s)
  fails-Pruned s i sound = (Later-refl s sound, λ h. cc)

  prune_visited-Pruned :
      (s : State) (d : Dep) (v : Visited)
      → d.name < length s.names
      → IsSound s
      → at s d.name ≡ visited v
      → Pruned s d.name (prune_visited db s d v)
  unfolding prune_visited
  prune_visited-Pruned s d (choices c) h sound e =
      let a : Fits d.name (visited (choices c)) = rw e at (sound d.name) in
      settle-Pruned s d.name (keep_if (matches d) c) h sound
        (All-keep_if (λ (p : Pkg). p.name ≡ d.name) (matches d) c a) (rw e refl) (rw e refl)
  prune_visited-Pruned s d (locked pending true p) h sound e = fails-Pruned s d.name sound
  prune_visited-Pruned s d (locked pending false none) h sound e =
      elim (Bool-cases (d.mask == conflict)) [
        | inl m ↦ rw m (same-Pruned s d.name pending false none sound e)
        | inr m ↦ rw m (elim (Bool-cases pending) [
          | inl q ↦ rw q (
            put-Later s d.name (locked false false none) h tt (rw e (omega arith)) (λ l. refl)
                sound,
            λ l. cc,
          )
          | inr q ↦ rw q (fails-Pruned s d.name sound)
        ])
      ]
  prune_visited-Pruned s d (locked pending false (some p)) h sound e =
      elim (Bool-cases (matches d p)) [
        | inl m ↦ rw m (same-Pruned s d.name pending false (some p) sound e)
        | inr m ↦ rw m (fails-Pruned s d.name sound)
      ]

  prune_at-Pruned :
      (s : State) (d : Dep) (x : NameState)
      → IsClosed (length s.names) db
      → d.name < length s.names
      → IsSound s
      → at s d.name ≡ x
      → Pruned s d.name (prune_at db s d x)
  unfolding prune_at
  prune_at-Pruned s d (visited v) closed h sound e = prune_visited-Pruned s d v h sound e
  prune_at-Pruned s d empty closed h sound e =
      let v = candidates db d.name in
      let later =
        put-Later s d.name v h (candidates-Fits d.name (closed d.name).0)
          (rw (candidates-weigh d.name, e) (omega arith))
          (λ l. let f : false ≡ true = rw e at l in cc) sound in
      elim (Bool-cases (d.mask == conflict)) [
        | inl m ↦ rw m (
          put-Later s d.name (locked true false none) h tt (rw e (omega arith)) (λ l. refl) sound,
          λ l. rw (at-put_self s d.name (locked true false none) h) refl,
        )
        | inr m ↦
            let t = put s d.name v in
            let (l, o) =
              prune_visited-Pruned t d v (rw later.0 h) later.4 (at-put_self s d.name v h) in
            rw m (Later-trans s t (prune_visited db t d v).1 later l, o)
      ]

  pub prune-Pruned :
      (s : State) (d : Dep)
      → IsClosed (length s.names) db
      → IsSound s
      → Pruned s d.name (prune_dependency db s d)
  unfolding prune_dependency
  prune-Pruned s d closed sound = elim (Bool-cases (leb (length s.names) d.name)) [
    | inl e ↦ rw e (fails-Pruned s d.name sound)
    | inr e ↦ rw e (prune_at-Pruned s d (at s d.name) closed (ground arith) sound refl)
  ]
