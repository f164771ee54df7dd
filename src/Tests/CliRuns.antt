-- ===== src/Tests/CliRuns.antt =====
-- cmd/go-api-boot with tools that only note what they are asked for.
use go_api_boot.Base.{
  inl, inr, Str, codes, List, [], ◌∷◌, ◌++◌, ok, err, ◌≡◌, refl, arith, nat_eq, str_eq,
}
use go_api_boot.Base.Exec.{Exec}
use go_api_boot.Strings.{path_base, trim_space, has_prefix, contains}
use go_api_boot.Cli.{CliTools, add_service, generate_service, directive, no_directive}
use go_api_boot.Cli.GoMod.{IsSkipped, drop_return, lines_text, scan}
use go_api_boot.Cli.Adding.{add_service_cases}

-- The journal of the tools, with one file that can be read.
abbrev World : Type 0
World = Str × List Str

abbrev note : Str → Exec World Str (Unit {0})
note s (text, journal) = (ok tt, (text, s ∷ journal))

abbrev tools : CliTools World Str Str
tools = record {
  join_path = λ a b. a ++ codes "/" ++ b;
  mkdir = λ path. note (codes "mkdir " ++ path);
  go_mod_init = λ name dir. note (codes "init " ++ name);
  parse_fs = λ path. ok path;
  create = λ path (text, journal). (ok path, (text, path ∷ journal));
  execute = λ tmpl file data_ w. (ok tt, w);
  close = λ file w. w;
  open_file = λ name w. (ok (scan w.0), w);
}

name_of_folder : path_base (codes "github.com/a/b") ≡ codes "b"
unfolding path_base
name_of_folder = refl

blank : IsSkipped []
unfolding trim_space drop_return
blank = record { is_line = record { one_line = tt; short = refl }; passed = inl refl }

comment : IsSkipped (codes "// c")
unfolding trim_space drop_return has_prefix
comment = record { is_line = record { one_line = omega arith; short = refl }; passed = inr refl }

abbrev intro : List Str
intro = [] ∷ codes "// c" ∷ []

abbrev rest : Str
rest = codes "go 1.22\n"

-- A go.mod file with a module, and one without.
abbrev good : World
good = (lines_text intro ((directive ++ codes "a/b") ++ 10 ∷ rest), [])

abbrev bad : World
bad = (lines_text intro (codes "go 1.22" ++ 10 ∷ rest), [])

add_service_cases_example :
    (add_service tools (codes "User") good
      ≡ generate_service tools (codes "User") (codes "a/b") good)
    × (add_service tools (codes "User") bad ≡ (err no_directive, bad))
    × (add_service tools (codes "UserService") good
        ≡ (err (codes "pass only root name of service"), good))
unfolding contains trim_space drop_return has_prefix
add_service_cases_example =
    add_service_cases tools (codes "User") (codes "UserService") intro (codes "a/b")
      (codes "go 1.22") rest good good bad bad refl refl (blank, (comment, tt)) (λ e. cc e) refl
      (record { one_line = omega arith; short = refl })
      (record { one_line = omega arith; short = refl }) (λ e. cc e) refl refl refl refl
