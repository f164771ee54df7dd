-- ===== src/Dotenv/Lines.antt =====
-- What the lines of a file do to the environment.
use go_api_boot.Base.{
  ℕ, Str, codes, List, [], ◌∷◌, ◌++◌, map, false, ◌≡◌, ◌≢◌, refl, arith, All, All-append, nat_eq,
  str_eq, str_beq_iff,
}
use go_api_boot.Base.Dict.{insert}
use go_api_boot.Strings.{has_prefix, split, join, trim_space}
use go_api_boot.Strings.Split.{Lacks, split-append, split-append_both, join-split, split-Lacks}
use go_api_boot.Dotenv.{Env, has_char, setenv, load_line, load_lines, load_env_from_string}

load_lines-append :
    (ls ms : List Str) (env : Env) → load_lines (ls ++ ms) env ≡ load_lines ms (load_lines ls env)
unfolding load_lines
load_lines-append [] ms env = refl
load_lines-append (l ∷ ls) ms env = load_lines-append ls ms (load_line l env)

-- Two texts with a line break between them are loaded one after the other.
pub load_env_from_string-append :
    (s t : Str) (env : Env)
    → load_env_from_string (s ++ 10 ∷ t) env ≡ load_env_from_string t (load_env_from_string s env)
unfolding load_env_from_string
load_env_from_string-append s t env =
    rw (split-append_both 10 s t) (load_lines-append (split 10 s) (split 10 t) env)

-- A key that a file can set, and a value that survives the trimming.
pub record IsKey (key : Str) : Type 0 where
  pub nonempty : key ≢ []
  pub one_line : Lacks 10 key
  pub no_equals : Lacks b'=' key
  pub no_nul : Lacks 0 key
  pub trimmed : trim_space key ≡ key
  pub no_comment : has_prefix key (codes "#") ≡ false

pub record IsValue (value : Str) : Type 0 where
  pub one_line : Lacks 10 value
  pub no_nul : Lacks 0 value
  pub trimmed : trim_space value ≡ value

pub has_char-Lacks : (c : ℕ) (s : Str) → Lacks c s → has_char c s ≡ false
unfolding has_char
has_char-Lacks c [] h = refl
has_char-Lacks c (d ∷ s) (hd, h) = ground (arith, has_char-Lacks c s h)

setenv_lem :
    (key value : Str) (env : Env)
    → IsKey key
    → IsValue value
    → setenv key value env ≡ insert key value env
unfolding setenv
setenv_lem key value env k v = ground (
  arith,
  str_beq_iff key [],
  k.nonempty,
  has_char-Lacks b'=' key k.no_equals,
  has_char-Lacks 0 key k.no_nul,
  has_char-Lacks 0 value v.no_nul,
)

no_comment-append :
    (key s : Str)
    → key ≢ []
    → has_prefix key (codes "#") ≡ false
    → has_prefix (key ++ s) (codes "#") ≡ false
unfolding has_prefix
no_comment-append [] s h e = absurd (h refl)
no_comment-append (c ∷ key) s h e = ground arith

-- KEY=VALUE
unfoldable pub print_line : Str × Str → Str
print_line (key, value) = key ++ b'=' ∷ value

load_line-print_line :
    (key value : Str) (env : Env)
    → IsKey key
    → IsValue value
    → load_line (print_line (key, value)) env ≡ insert key value env
unfolding load_line print_line
load_line-print_line key value env k v =
    rw
      (
        no_comment-append key (b'=' ∷ value) k.nonempty k.no_comment,
        split-append b'=' key value k.no_equals,
        k.trimmed,
        join-split b'=' value,
        v.trimmed,
      )
      (setenv_lem key value env k v)

print_line-Lacks :
    (key value : Str) → IsKey key → IsValue value → Lacks 10 (print_line (key, value))
unfolding print_line
print_line-Lacks key value k v =
    All-append (λ c. c ≢ 10) key (b'=' ∷ value) k.one_line (omega arith, v.one_line)

-- The text of a file with one line for each pair.
unfoldable pub print_env : List (Str × Str) → Str
unfolding join print_line
print_env ps = join (map print_line ps) (codes "\n")

-- The pairs, assigned in order.
abbrev pub assign_all : Env → List (Str × Str) → Env
assign_all env [] = env
assign_all env ((key, value) ∷ ps) = assign_all (insert key value env) ps

-- A file with one line for each pair, whose keys and values are such as survive a line, assigns
-- exactly these pairs, in order: also values that hold a `=`.
pub load-print_env :
    (ps : List (Str × Str)) (env : Env)
    → All (λ (key, value). IsKey key × IsValue value) ps
    → load_env_from_string (print_env ps) env ≡ assign_all env ps
unfolding load_env_from_string print_env
load-print_env [] env h = unfold setenv load_line in refl
load-print_env ((key, value) ∷ []) env ((k, v), h) =
    rw (split-Lacks 10 _ (print_line-Lacks key value k v)) (load_line-print_line key value env k v)
load-print_env ((key, value) ∷ q ∷ ps) env ((k, v), h) =
    rw
      (split-append 10 (print_line (key, value)) (join (map print_line (q ∷ ps)) (codes "\n"))
        (print_line-Lacks key value k v))
      (rw (load_line-print_line key value env k v)
        (load-print_env (q ∷ ps) (insert key value env) h))

-- A line that begins with `#` changes nothing, whatever follows.
pub load_comment :
    (line rest : Str) (env : Env)
    → Lacks 10 line
    → load_env_from_string ((b'#' ∷ line) ++ 10 ∷ rest) env ≡ load_env_from_string rest env
unfolding load_env_from_string load_line has_prefix
load_comment line rest env h = rw (split-append 10 (b'#' ∷ line) rest (omega arith, h))
