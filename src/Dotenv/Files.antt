-- ===== src/Dotenv/Files.antt =====
-- What LoadEnv does with its files.
use go_api_boot.Base.{
  Str, List, [], ◌∷◌, ◌++◌, map, none, some, Option-cases, ok, err, ◌≡◌, ◌⊎◌, inl, inr, refl, ap,
}
use go_api_boot.Dotenv.{Env, load_env_from_string, Disk, unreadable, load_content, load_files}

-- The contents, loaded one after the other.
abbrev pub load_contents : List Str → Env → Env
load_contents [] env = env
load_contents (c ∷ cs) env = load_contents cs (load_env_from_string c env)

-- Every file is read and loaded, in order.
pub record LoadsAll (disk : Disk) (names : List Str) (env : Env) : Type 0 where
  pub contents : List Str
  pub reads : map disk.read_file names ≡ map some contents
  pub result : load_files disk names env ≡ (ok tt, load_contents contents env)

-- The files before the first that cannot be read are loaded, and that one is the error.
pub record StopsAt (disk : Disk) (names : List Str) (env : Env) : Type 0 where
  pub before : List Str
  pub name : Str
  pub after : List Str
  pub contents : List Str
  pub order : names ≡ before ++ name ∷ after
  pub reads : map disk.read_file before ≡ map some contents
  pub missing : disk.read_file name ≡ none
  pub result : load_files disk names env ≡ (err (unreadable name), load_contents contents env)

module _ (disk : Disk) (name : Str) (names : List Str) (env : Env) where
  load_files-missing : disk.read_file name ≡ none → StopsAt disk (name ∷ names) env
  unfolding load_files load_content
  load_files-missing e = record {
    before = [];
    name = name;
    after = names;
    contents = [];
    order = refl;
    reads = refl;
    missing = e;
    result = rw (e, load_content);
  }

  load_files-all :
      (c : Str)
      → disk.read_file name ≡ some c
      → LoadsAll disk names (load_env_from_string c env)
      → LoadsAll disk (name ∷ names) env
  unfolding load_files load_content
  load_files-all c e r = record {
    contents = c ∷ r.contents;
    reads = cc (e, r.reads);
    result = rw (e, load_content) r.result;
  }

  load_files-stop :
      (c : Str)
      → disk.read_file name ≡ some c
      → StopsAt disk names (load_env_from_string c env)
      → StopsAt disk (name ∷ names) env
  unfolding load_files load_content
  load_files-stop c e r = record {
    before = name ∷ r.before;
    name = r.name;
    after = r.after;
    contents = c ∷ r.contents;
    order = ap (λ t. name ∷ t) r.order;
    reads = cc (e, r.reads);
    missing = r.missing;
    result = rw (e, load_content) r.result;
  }

-- Loading files either reads and loads all of them in order, with no error, or stops at the first
-- that cannot be read: those before it stay loaded, and the error names it.
pub load_files_cases :
    (disk : Disk) (names : List Str) (env : Env) → LoadsAll disk names env ⊎ StopsAt disk names env
load_files_cases disk [] env =
    inl (record { contents = []; reads = refl; result = unfold load_files in refl })
load_files_cases disk (name ∷ names) env = elim (Option-cases (disk.read_file name)) [
  | inl e ↦ inr (load_files-missing disk name names env e)
  | inr (c, e) ↦ elim (load_files_cases disk names (load_env_from_string c env)) [
    | inl r ↦ inl (load_files-all disk name names env c e r)
    | inr r ↦ inr (load_files-stop disk name names env c e r)
  ]
]
