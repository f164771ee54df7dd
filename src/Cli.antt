-- ===== src/Cli.antt =====
-- cmd/go-api-boot: the project generator. The file system, the command `go` and the templates'
-- package are arguments, and may change the world `W`.
pub mod GoMod
pub mod Adding
pub mod Root
use go_api_boot.Base.{
  ℕ, Str, codes, List, [], ◌∷◌, ◌++◌, Bool, true, false, ◌||◌, Option, none, some, Result, ok, err,
  ◌==◌, nat_eq, str_eq, str_beq, if◌then◌else◌, length, leb,
}
use go_api_boot.Base.Exec.{Exec, pure, raise, continue, ◌>>=◌, ◌>>◌}
use go_api_boot.Strings.{has_prefix, trim_prefix, contains, split, trim_space, path_base}

-- What a bufio.Scanner yields: each line with the value of Err() behind it, and Err() at the end.
pub record Scan : Type 0 where
  pub tokens : List (Str × Option Str)
  pub failure : Option Str

-- A template `T` and a file `F`; paths are those of a system whose separator is `/`.
pub record CliTools (W T F : Type 0) : Type 0 where
  -- filepath.Join
  pub join_path : Str → Str → Str
  pub mkdir : Str → Exec W Str (Unit {0})
  -- `go mod init NAME` in a directory
  pub go_mod_init : Str → Str → Exec W Str (Unit {0})
  -- template.ParseFS of the templates that are embedded
  pub parse_fs : Str → Result Str T
  pub create : Str → Exec W Str F
  pub execute : T → F → List (Str × Str) → Exec W Str (Unit {0})
  pub close : F → W → W
  -- os.Open, with what a scanner of the file yields
  pub open_file : Str → Exec W Str Scan

-- strings.TrimPrefix(line, "module ") and the tests of the loop
abbrev pub directive : Str
directive = codes "module "

abbrev pub no_directive : Str
no_directive = codes "no module directive found in go.mod"

-- A blank line, or a comment.
unfoldable pub is_skipped : Str → Bool
unfolding has_prefix str_beq
is_skipped line = line == codes "" || has_prefix line (codes "//")

-- sc.Err() behind the loop, and then the error of the function
abbrev pub missing : Option Str → Result Str Str
missing none = err no_directive
missing (some e) = err e

-- The loop over the lines.
unfoldable pub find_module : List (Str × Option Str) → Option Str → Result Str Str
unfolding is_skipped trim_space trim_prefix has_prefix
find_module [] failure = missing failure
find_module ((text, seen) ∷ lines) failure =
    let rest = find_module lines failure in
    let line = trim_space text in
    if is_skipped line
    then rest
    else if has_prefix line directive
    then ok (trim_space (trim_prefix line directive))
    else missing seen

module _ {W T F : Type 0} (os : CliTools W T F) where
  -- The error of os.Open gets a text in front.
  abbrev opened : Result Str Scan → Result Str Str
  opened (ok sc) = find_module sc.tokens sc.failure
  opened (err e) = err (codes "open go.mod: " ++ e)

  -- getProjectName
  unfoldable pub get_project_name : Exec W Str Str
  unfolding find_module
  get_project_name w = let (r, w') = os.open_file (codes "go.mod") w in (opened r, w')

  -- runGoModInit
  unfoldable pub run_go_mod_init : Str → Str → Exec W Str (Unit {0})
  run_go_mod_init project_name folder_name =
      os.go_mod_init project_name (os.join_path (codes ".") folder_name)

  -- The deferred file.Close().
  unfoldable pub fill : T → List (Str × Str) → F → Exec W Str (Unit {0})
  fill tmpl data_ file w = let (r, w') = os.execute tmpl file data_ w in (r, os.close file w')

  unfoldable pub create_from : Str → Str → List (Str × Str) → T → Exec W Str (Unit {0})
  create_from folder_name file_name data_ tmpl = do
    file ← os.create (os.join_path folder_name file_name)
    fill tmpl data_ file

  -- generateCode
  unfoldable pub generate_code : Str → Str → Str → List (Str × Str) → Exec W Str (Unit {0})
  generate_code folder_name template_path file_name data_ =
      continue (os.parse_fs template_path) (create_from folder_name file_name data_)

  -- GenerateMain
  unfoldable pub generate_main : Str → Str → Exec W Str (Unit {0})
  generate_main project_path folder_name =
      generate_code folder_name (codes "templates/main.go.tmpl") (codes "main.go")
        ((codes "ProjectPath", project_path) ∷ [])

  -- GenerateBuildScripts
  unfoldable pub generate_build_scripts : Str → Str → Exec W Str (Unit {0})
  generate_build_scripts proto_path folder_name = do
    let data_ : List (Str × Str) =
        (codes "FolderName", folder_name) ∷ (codes "ProtoPath", proto_path) ∷ []
    generate_code folder_name (codes "templates/build.ps1.tmpl") (codes "build.ps1") data_
    generate_code folder_name (codes "templates/build.sh.tmpl") (codes "build.sh") data_

  -- GenerateDockerFile
  unfoldable pub generate_docker_file : Str → Exec W Str (Unit {0})
  generate_docker_file folder_name =
      generate_code folder_name (codes "templates/Dockerfile.tmpl") (codes "Dockerfile")
        ((codes "ExeName", folder_name) ∷ [])

  -- CopyGitIgnore
  unfoldable pub copy_git_ignore : Str → Exec W Str (Unit {0})
  copy_git_ignore folder_name =
      generate_code folder_name (codes "templates/.gitignore.tmpl") (codes ".gitignore") []

  -- CopyIniFile
  unfoldable pub copy_ini_file : Str → Exec W Str (Unit {0})
  copy_ini_file folder_name =
      generate_code folder_name (codes "templates/config.ini.tmpl") (codes "config.ini") []

  -- GenerateRepo
  unfoldable pub generate_repo : Str → Exec W Str (Unit {0})
  generate_repo model_name =
      generate_code (codes "db") (codes "templates/repo.go.tmpl")
        (model_name ++ codes "Repository.go") ((codes "ModelName", model_name) ∷ [])

  -- GenerateService
  unfoldable pub generate_service : Str → Str → Exec W Str (Unit {0})
  generate_service service_name project_path =
      generate_code (codes "services") (codes "templates/services.go.tmpl")
        (service_name ++ codes "Service.go")
        ((codes "ServiceName", service_name) ∷ (codes "ProjectPath", project_path) ∷ [])

  -- GenerateLoginService
  unfoldable pub generate_login_service : Str → Str → Exec W Str (Unit {0})
  generate_login_service project_path folder_name =
      generate_code (folder_name ++ codes "/services") (codes "templates/login_service.go.tmpl")
        (codes "loginService.go") ((codes "ProjectPath", project_path) ∷ [])

  -- GenerateLoginRepository
  unfoldable pub generate_login_repository : Str → Str → Exec W Str (Unit {0})
  generate_login_repository project_path folder_name =
      generate_code (folder_name ++ codes "/db") (codes "templates/login_repository.go.tmpl")
        (codes "login_repository.go") ((codes "ProjectPath", project_path) ∷ [])

  -- initializeGoProject
  unfoldable pub initialize_go_project : Str → Exec W Str Str
  unfolding path_base
  initialize_go_project prj_name = do
    os.mkdir (path_base prj_name)
    run_go_mod_init prj_name (path_base prj_name)
    pure (path_base prj_name)

  -- createProjectStructure
  unfoldable pub create_project_structure : Str → Exec W Str (Unit {0})
  create_project_structure folder_name = do
    os.mkdir (os.join_path folder_name (codes "db"))
    os.mkdir (os.join_path folder_name (codes "services"))

  -- The steps of Bootstrap behind its test.
  unfoldable pub set_up : Str → Str → Exec W Str (Unit {0})
  set_up project_name proto_path = do
    folder_name ← initialize_go_project project_name
    create_project_structure folder_name
    generate_main project_name folder_name
    generate_build_scripts proto_path folder_name
    copy_git_ignore folder_name
    copy_ini_file folder_name
    generate_docker_file folder_name
    generate_login_service project_name folder_name
    generate_login_repository project_name folder_name

  -- Bootstrap
  unfoldable pub bootstrap : Str → Str → Exec W Str (Unit {0})
  unfolding split
  bootstrap project_name proto_path = elim (split b'/' project_name) [
    | [] ↦ raise (codes "project name should be fully qualified git repo name")
    | _ ∷ _ ↦ set_up project_name proto_path
  ]

  -- AddRepository
  unfoldable pub add_repository : Str → Exec W Str (Unit {0})
  unfolding contains
  add_repository model_name =
      if contains model_name (codes "Model") || contains model_name (codes "Repo")
      then raise (codes "pass only root name of db model/repo")
      else generate_repo model_name

  -- AddService
  unfoldable pub add_service : Str → Exec W Str (Unit {0})
  unfolding contains
  add_service service_name =
      if contains service_name (codes "Service")
      then raise (codes "pass only root name of service")
      else get_project_name >>= generate_service service_name
