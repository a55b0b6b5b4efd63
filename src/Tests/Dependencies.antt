-- ===== src/Tests/Dependencies.antt =====
-- Dependencies that are parsed, written and kept in arrays.
use arianna_method_anchor_pr.Prelude.{
  ℕ, ◌≡◌, refl, inl, some, none, List, [], ◌∷◌, replicate, repeat, bytes, arith, true,
}
use arianna_method_anchor_pr.Version.{get_token}
use arianna_method_anchor_pr.Version.Compare.{validate}
use arianna_method_anchor_pr.Blob.Slices.{in_set}
use arianna_method_anchor_pr.Package.Dependency.{
  Dependency, dep_from_blob, deps_parse, deps_write, push_dep,
}
use arianna_method_anchor_pr.Package.Dependency.Text.{
  IsDependency, dep_text, dep_from_blob-dep_text,
}
use arianna_method_anchor_pr.Package.Dependency.Write.{entry_text, entries_text, Fits}
use arianna_method_anchor_pr.Package.Dependency.Parse.{IsEntry, deps_parse-entries_text}

program : Unit {0}
unfolding dep_from_blob deps_parse deps_write push_dep validate repeat get_token
program = tt

abbrev musl : Dependency
musl = record { name = bytes "musl"; mask = 5; version = some (bytes "1.2-r0") }

abbrev no_gcc : Dependency
no_gcc = record { name = bytes "gcc"; mask = 0; version = none }

parsed : dep_from_blob (bytes "musl>=1.2-r0") ≡ some musl
unfolding program
parsed = refl

refused : dep_from_blob (bytes "!gcc=4") ≡ none
unfolding program
refused = refl

two_sided : dep_from_blob (bytes "musl<>1") ≡ none
unfolding program
two_sided = refl

musl-IsDependency : IsDependency musl
unfolding program in_set
musl-IsDependency = record {
  plain = (refl, (refl, (refl, (refl, tt))));
  not_marked = omega arith;
  versioned_by = ((omega arith, omega arith), refl, refl, omega arith);
}

no_gcc-IsDependency : IsDependency no_gcc
unfolding in_set
no_gcc-IsDependency = record {
  plain = (refl, (refl, (refl, tt)));
  not_marked = omega arith;
  versioned_by = inl refl;
}

dep_from_blob-dep_text_example : dep_from_blob (dep_text musl) ≡ some musl
dep_from_blob-dep_text_example = dep_from_blob-dep_text musl musl-IsDependency

musl-IsEntry : IsEntry musl
unfolding program dep_text
musl-IsEntry = record {
  well_formed = musl-IsDependency;
  no_space = omega arith;
  no_newline = omega arith;
  not_empty = λ e. cc;
}

no_gcc-IsEntry : IsEntry no_gcc
unfolding dep_text
no_gcc-IsEntry = record {
  well_formed = no_gcc-IsDependency;
  no_space = omega arith;
  no_newline = omega arith;
  not_empty = λ e. cc;
}

abbrev both : List Dependency
both = musl ∷ no_gcc ∷ []

deps_parse-entries_text_example : deps_parse [] (entries_text true both) ≡ both
deps_parse-entries_text_example =
    deps_parse-entries_text musl (no_gcc ∷ []) [] (musl-IsEntry, (no_gcc-IsEntry, tt))

abbrev tmp : List ℕ
tmp = replicate 16 0

both-Fits : Fits 16 true both
unfolding program entries_text entry_text
both-Fits = ((musl-IsDependency.plain, omega arith), ((no_gcc-IsDependency.plain, omega arith), tt))
