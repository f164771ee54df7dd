-- ===== src/Dotenv.antt =====
-- dotenv/load_env.go: environment variables from `.env` files.
pub mod Lines
pub mod Files
use go_api_boot.Base.{
  ℕ, Str, codes, List, [], ◌∷◌, Bool, true, false, ◌||◌, Option, none, some, Result, ok, err, ◌==◌,
  nat_eq, str_eq, str_beq, if◌then◌else◌,
}
use go_api_boot.Base.Dict.{Dict, insert}
use go_api_boot.Base.Exec.{Exec, pure, raise, continue, ◌>>=◌, ◌>>◌}
use go_api_boot.Strings.{has_prefix, split, join, trim_space}

-- The environment of the process.
abbrev pub Env : Type 0
Env = Dict Str Str

unfoldable pub has_char : ℕ → Str → Bool
has_char c [] = false
has_char c (d ∷ s) = d == c || has_char c s

-- os.Setenv(key, value), with the error that the program drops: an empty key, a key that holds a
-- `=` or a NUL, and a value that holds a NUL are refused.
unfoldable pub setenv : Str → Str → Env → Env
unfolding has_char insert str_beq
setenv key value env =
    if key == [] || has_char b'=' key || has_char 0 key || has_char 0 value
    then env
    else insert key value env

-- parts[0] and parts[1:]; a split has a part
abbrev assign : List Str → Env → Env
assign [] env = env
assign (key ∷ rest) env = setenv (trim_space key) (trim_space (join rest (codes "="))) env

-- The body of the loop.
unfoldable pub load_line : Str → Env → Env
unfolding has_prefix split join trim_space setenv
load_line line env = if has_prefix line (codes "#") then env else assign (split b'=' line) env

unfoldable pub load_lines : List Str → Env → Env
unfolding load_line
load_lines [] env = env
load_lines (line ∷ lines) env = load_lines lines (load_line line env)

-- LoadEnvFromString; it returns no error.
unfoldable pub load_env_from_string : Str → Env → Env
unfolding load_lines split
load_env_from_string text = load_lines (split 10 text)

-- os.Stat succeeds, and os.ReadFile
pub record Disk : Type 0 where
  pub stat : Str → Bool
  pub read_file : Str → Option Str

-- The error of os.ReadFile, with the file's name.
pub data LoadError : Type 0 where
  unreadable : Str → LoadError

unfoldable pub load_content : Str → Option Str → Exec Env LoadError (Unit {0})
unfolding load_env_from_string
load_content name none env = (err (unreadable name), env)
load_content name (some content) env = (ok tt, load_env_from_string content env)

unfoldable pub load_files : Disk → List Str → Exec Env LoadError (Unit {0})
unfolding load_content
load_files disk [] = pure tt
load_files disk (name ∷ names) = do load_content name (disk.read_file name); load_files disk names

-- The files of LoadEnv: those that are named, or `.env` if none is and it is there.
unfoldable pub targets : Disk → List Str → List Str
targets disk [] = if disk.stat (codes ".env") then codes ".env" ∷ [] else []
targets disk (name ∷ names) = name ∷ names

-- LoadEnv
unfoldable pub load_env : Disk → List Str → Exec Env LoadError (Unit {0})
unfolding load_files targets
load_env disk names = load_files disk (targets disk names)
