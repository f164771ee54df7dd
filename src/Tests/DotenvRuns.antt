-- ===== src/Tests/DotenvRuns.antt =====
-- dotenv/load_env.go at the texts of its fixtures.
use go_api_boot.Base.{
  Str, codes, List, [], ◌∷◌, false, none, some, ok, err, ◌≡◌, ◌⊎◌, refl, arith, str_eq, ◌==◌,
  if◌then◌else◌,
}
use go_api_boot.Strings.{has_prefix, trim_space}
use go_api_boot.Dotenv.{Disk, unreadable, load_env_from_string, load_env}
use go_api_boot.Dotenv.Lines.{IsKey, IsValue, print_env, assign_all, load-print_env}
use go_api_boot.Dotenv.Files.{LoadsAll, StopsAt, load_files_cases}

-- fixtures/env/env_with_equal, cut to its first value, and a line with blanks
fixture :
    load_env_from_string (codes "MONGO-URI=mongodb://u@p=dummy/test\n# A=1\n ENV = dev \n\n=x") []
    ≡ (codes "MONGO-URI", codes "mongodb://u@p=dummy/test") ∷ (codes "ENV", codes "dev") ∷ []
unfolding load_env_from_string
fixture = refl

IsKey-a : IsKey (codes "A")
unfolding trim_space has_prefix
IsKey-a = record {
  nonempty = cc;
  one_line = omega arith;
  no_equals = omega arith;
  no_nul = omega arith;
  trimmed = refl;
  no_comment = refl;
}

IsValue-equal : IsValue (codes "x=1")
unfolding trim_space
IsValue-equal = record { one_line = omega arith; no_nul = omega arith; trimmed = refl }

abbrev pairs : List (Str × Str)
pairs = (codes "A", codes "x=1") ∷ (codes "A", codes "x=1") ∷ []

load-print_env_example : load_env_from_string (print_env pairs) [] ≡ assign_all [] pairs
load-print_env_example =
    load-print_env pairs [] ((IsKey-a, IsValue-equal), ((IsKey-a, IsValue-equal), tt))

abbrev disk : Disk
disk = record {
  stat = λ name. false;
  read_file = λ name. if name == codes "a" then some (codes "A=1") else none;
}

stops :
    load_env disk (codes "a" ∷ codes "b" ∷ codes "a" ∷ []) []
    ≡ (err (unreadable (codes "b")), (codes "A", codes "1") ∷ [])
unfolding load_env
stops = refl

no_file : load_env disk [] [] ≡ (ok tt, [])
unfolding load_env
no_file = refl

load_files_cases_example :
    LoadsAll disk (codes "a" ∷ codes "b" ∷ []) [] ⊎ StopsAt disk (codes "a" ∷ codes "b" ∷ []) []
load_files_cases_example = load_files_cases disk (codes "a" ∷ codes "b" ∷ []) []
