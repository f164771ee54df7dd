-- ===== src/Config.antt =====
-- config/boot_config.go: the section that the variable `ENV` selects.
use go_api_boot.Base.{Str, codes, Option, none, some, Result, err, str_eq, nat_eq}
use go_api_boot.Base.Exec.{Exec, continue}
use go_api_boot.Auth.{getenv}
use go_api_boot.Dotenv.{Env}

-- BootConfig
pub record BootConfig : Type 0 where
  pub ssl_bucket : Str
  pub domain : Str
  pub azure_storage_account : Str
  pub azure_key_vault_name : Str
  pub gcp_project_id : Str

-- The package `ini`: ini.Load, file.Section, and MapTo, which changes the target also when it fails.
pub record Ini (F S T : Type 0) : Type 0 where
  pub load : Str → Result Str F
  pub section : F → Str → S
  pub map_to : S → Exec T Str (Unit {0})

module _ {F S T : Type 0} (ini : Ini F S T) where
  unfoldable pub map_section : Env → F → Exec T Str (Unit {0})
  unfolding getenv
  map_section env file = ini.map_to (ini.section file (getenv env (codes "ENV")))

  abbrev loaded : Result Str (Unit {0}) × T → Result Str (Unit {0}) × Option T
  loaded (r, target) = (r, some target)

  -- LoadConfig; none is a nil target.
  unfoldable pub load_config : Env → Str → Exec (Option T) Str (Unit {0})
  unfolding map_section
  load_config env path none = (err (codes "target cannot be nil"), none)
  load_config env path (some target) = loaded (continue (ini.load path) (map_section env) target)
