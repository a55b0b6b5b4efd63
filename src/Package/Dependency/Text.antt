-- ===== src/Package/Dependency/Text.antt =====
-- Dependencies are read back as they were written.
use Prim.Native.Nat.{bit_and}
use arianna_method_anchor_pr.Prelude.{
  ℕ, zero, suc, ◌≤◌, ◌≡◌, ◌≢◌, ◌⊎◌, inl, inr, refl, sym, ap, ◌∙◌, true, false, Option, none, some,
  List, [], ◌∷◌, ◌++◌, ◌==◌, if◌then◌else◌, arith,
}
use arianna_method_anchor_pr.Version.Compare.{op_string, validate}
use arianna_method_anchor_pr.Blob.Slices.{in_set, spn, cspn, cstr, c_string, ends_with}
use arianna_method_anchor_pr.Package.Dependency.{
  Dependency, conflict, require, operators, op_mask, versioned, from_name, dep_from_blob,
  version_text,
}

-- Bytes that are neither operators nor terminators.
abbrev pub Plain : List ℕ → Type 0
Plain [] = Unit
Plain (c ∷ s) = (in_set c operators ≡ false) × Plain s

abbrev Operators : List ℕ → Type 0
Operators [] = Unit
Operators (c ∷ s) = (in_set c operators ≡ true) × Operators s

abbrev pub Terminated : List ℕ → Type 0
Terminated [] = Unit
Terminated (c ∷ s) = (c ≢ 0) × Terminated s

cspn-Plain : (s : List ℕ) → Plain s → cspn s operators ≡ none
unfolding cspn
cspn-Plain [] p = refl
cspn-Plain (c ∷ s) p = ground (arith, cspn-Plain s p.1)

cspn-append :
    (s : List ℕ) (c : ℕ) (r : List ℕ)
    → Plain s
    → in_set c operators ≡ true
    → cspn (s ++ c ∷ r) operators ≡ some (s, c ∷ r)
unfolding cspn
cspn-append [] c r p h = ground arith
cspn-append (b ∷ s) c r p h = ground (arith, cspn-append s c r p.1)

spn-append :
    (op : List ℕ) (c : ℕ) (r : List ℕ)
    → Operators op
    → in_set c operators ≡ false
    → spn (op ++ c ∷ r) operators ≡ some (op, c ∷ r)
unfolding spn
spn-append [] c r p h = ground arith
spn-append (b ∷ op) c r p h = ground (arith, spn-append op c r p.1)

pub c_string-Terminated : (s : List ℕ) → Terminated s → c_string s ≡ s
unfolding c_string
c_string-Terminated [] t = refl
c_string-Terminated (c ∷ s) t = ground (arith, c_string-Terminated s t.1)

ends_with-Terminated : (s : List ℕ) → Terminated s → ends_with 0 s ≡ false
unfolding ends_with
ends_with-Terminated [] t = refl
ends_with-Terminated (c ∷ []) t = ground arith
ends_with-Terminated (c ∷ d ∷ s) t = ends_with-Terminated (d ∷ s) t.1

cstr-Terminated : (s : List ℕ) → Terminated s → cstr s ≡ s
unfolding cstr
cstr-Terminated s t = rw (ends_with-Terminated s t)

pub Plain-Terminated : (s : List ℕ) → Plain s → Terminated s
unfolding in_set
Plain-Terminated [] p = tt
Plain-Terminated (c ∷ s) p = ((λ e. ground arith), Plain-Terminated s p.1)

-- No version, for a requirement or a conflict; or a valid one behind an operator.
abbrev pub Versioned : ℕ → Option (List ℕ) → Type 0
Versioned mask none = (mask ≡ conflict) ⊎ (mask ≡ require)
Versioned mask (some []) = ⊥
Versioned mask (some (c ∷ v)) =
    ((1 ≤ mask) × (mask ≤ 5))
    × (validate (c ∷ v) ≡ true)
    × (in_set c operators ≡ false)
    × Terminated (c ∷ v)

abbrev pub NotMarked : List ℕ → Type 0
NotMarked [] = Unit
NotMarked (c ∷ s) = c ≢ b'!'

pub record IsDependency (d : Dependency) : Type 0 where
  pub plain : Plain d.name
  pub not_marked : NotMarked d.name
  pub versioned_by : Versioned d.mask d.version

-- What is written for each mask.
unfoldable pub dep_text : Dependency → List ℕ
dep_text d =
    if d.mask == conflict
    then b'!' ∷ d.name
    else if d.mask == require
    then d.name
    else d.name ++ (op_string d.mask ++ version_text d.version)

-- The operators of the five masks: their characters, and what reading them gives.
record OpText (m : ℕ) : Type 0 where
  first : ℕ
  more : List ℕ
  text : op_string m ≡ first ∷ more
  in_ops : Operators (first ∷ more)
  reads : op_mask 0 (first ∷ more) ≡ m
  one_sided : (bit_and m 6 == 6) ≡ false

op_texts : (m : ℕ) → 1 ≤ m → m ≤ 5 → OpText m
unfolding op_string op_mask in_set
op_texts zero lo hi = absurd (omega arith)
op_texts (suc zero) lo hi = record {
  first = b'=';
  more = [];
  text = refl;
  in_ops = (refl, tt);
  reads = refl;
  one_sided = refl;
}
op_texts (suc (suc zero)) lo hi = record {
  first = b'<';
  more = [];
  text = refl;
  in_ops = (refl, tt);
  reads = refl;
  one_sided = refl;
}
op_texts (suc (suc (suc zero))) lo hi = record {
  first = b'<';
  more = b'=' ∷ [];
  text = refl;
  in_ops = (refl, (refl, tt));
  reads = refl;
  one_sided = refl;
}
op_texts (suc (suc (suc (suc zero)))) lo hi = record {
  first = b'>';
  more = [];
  text = refl;
  in_ops = (refl, tt);
  reads = refl;
  one_sided = refl;
}
op_texts (suc (suc (suc (suc (suc zero))))) lo hi = record {
  first = b'>';
  more = b'=' ∷ [];
  text = refl;
  in_ops = (refl, (refl, tt));
  reads = refl;
  one_sided = refl;
}
op_texts (suc (suc (suc (suc (suc (suc n)))))) lo hi = absurd (omega arith)

unmarked : (s : List ℕ) → NotMarked s → dep_from_blob s ≡ from_name require s (cspn s operators)
unfolding dep_from_blob
unmarked [] h = refl
unmarked (c ∷ s) h = ground arith

NotMarked-append :
    (s : List ℕ) (c : ℕ) (r : List ℕ)
    → NotMarked s
    → in_set c operators ≡ true
    → NotMarked (s ++ c ∷ r)
unfolding in_set
NotMarked-append [] c r h o = λ e. ground arith
NotMarked-append (b ∷ s) c r h o = h

versioned-back :
    (name : List ℕ) (m : ℕ) (v : List ℕ)
    → OpText m
    → validate v ≡ true
    → Terminated v
    → versioned name (some (op_string m, v))
      ≡ some (record { name = name; mask = m; version = some v })
unfolding versioned
versioned-back name m v o ok t =
    let reads : op_mask 0 (op_string m) ≡ m = rw o.text o.reads in
    rw (reads, o.one_sided, ok, cstr-Terminated v t) refl

module _ (name : List ℕ) (plain : Plain name) (not_marked : NotMarked name) where
  abbrev of_name : ℕ → Option (List ℕ) → Dependency
  of_name m v = record { name = name; mask = m; version = v }

  abbrev ReadsBack : ℕ → Option (List ℕ) → Type 0
  ReadsBack m v = dep_from_blob (dep_text (of_name m v)) ≡ some (of_name m v)

  bare_ReadsBack : (m : ℕ) → (m ≡ conflict) ⊎ (m ≡ require) → ReadsBack m none
  unfolding dep_text dep_from_blob from_name
  bare_ReadsBack m (inl e) = rw e (rw (cspn-Plain name plain, from_name) refl)
  bare_ReadsBack m (inr e) =
      rw e (unmarked name not_marked ∙ rw (cspn-Plain name plain, from_name) refl)

  dep_text-versioned :
      (m c : ℕ) (v : List ℕ) (o : OpText m)
      → 1 ≤ m
      → m ≤ 5
      → Terminated (c ∷ v)
      → dep_text (of_name m (some (c ∷ v))) ≡ name ++ o.first ∷ (o.more ++ c ∷ v)
  unfolding dep_text
  dep_text-versioned m c v o lo hi t = ground (arith, c_string-Terminated (c ∷ v) t, o.text)

  versioned_ReadsBack :
      (m c : ℕ) (v : List ℕ)
      → 1 ≤ m
      → m ≤ 5
      → validate (c ∷ v) ≡ true
      → in_set c operators ≡ false
      → Terminated (c ∷ v)
      → ReadsBack m (some (c ∷ v))
  unfolding from_name
  versioned_ReadsBack m c v lo hi ok o t =
      let ops = op_texts m lo hi in
      let tail = ops.more ++ c ∷ v in
      let split = cspn-append name ops.first tail plain ops.in_ops.0 in
      let op = spn-append (ops.first ∷ ops.more) c v ops.in_ops o in
      rw (dep_text-versioned m c v ops lo hi t) (
        unmarked (name ++ ops.first ∷ tail)
          (NotMarked-append name ops.first tail not_marked ops.in_ops.0)
        ∙ ap (from_name require (name ++ ops.first ∷ tail)) split
        ∙ ap (versioned name) op
        ∙ ap (λ (t : List ℕ). versioned name (some (t, c ∷ v))) (sym ops.text)
        ∙ versioned-back name m (c ∷ v) ops ok t)

  any_ReadsBack : (m : ℕ) (v : Option (List ℕ)) → Versioned m v → ReadsBack m v
  any_ReadsBack m none h = bare_ReadsBack m h
  any_ReadsBack m (some []) h = absurd h
  any_ReadsBack m (some (c ∷ v)) h = versioned_ReadsBack m c v h.0.0 h.0.1 h.1 h.2 h.3

-- `apk_dep_from_blob` reads every dependency back from its text: a requirement of a name, a
-- conflict, or a name with one of the five operators and a valid version.
pub dep_from_blob-dep_text : (d : Dependency) → IsDependency d → dep_from_blob (dep_text d) ≡ some d
dep_from_blob-dep_text d h =
    any_ReadsBack d.name h.plain h.not_marked d.mask d.version h.versioned_by
