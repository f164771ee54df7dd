-- ===== src/Cli/Adding.antt =====
-- AddService of cmd/go-api-boot/bootstrap.go in a project with a go.mod file.
use go_api_boot.Base.{
  Str, codes, List, [], ◌++◌, ◌∷◌, true, false, ok, err, ◌≡◌, ◌≢◌, All, refl, ap, ◌∙◌, Result,
}
use go_api_boot.Base.Exec.{continue}
use go_api_boot.Strings.{has_prefix, contains, trim_space}
use go_api_boot.Cli.{
  CliTools, directive, no_directive, get_project_name, generate_service, add_service,
}
use go_api_boot.Cli.GoMod.{
  IsLine, IsSkipped, drop_return, lines_text, scan, module_of, module_of_cases,
}

module _ {W T F : Type 0} (os : CliTools W T F) where
  get_project_name-scan :
      (text : Str) (w w' : W)
      → os.open_file (codes "go.mod") w ≡ (ok (scan text), w')
      → get_project_name os w ≡ (module_of text, w')
  unfolding get_project_name module_of
  get_project_name-scan text w w' h = rw h refl

  service_from :
      (service_name : Str) (w w' : W) (r : Result Str Str)
      → contains service_name (codes "Service") ≡ false
      → get_project_name os w ≡ (r, w')
      → add_service os service_name w ≡ continue r (generate_service os service_name) w'
  unfolding add_service
  service_from service_name w w' r plain h = rw (plain, h) refl

  -- AddService writes the service of the module that go.mod names on its first line that is neither
  -- blank nor a comment, for a name without `Service`: the module's name is all that follows
  -- `module `, without space around it. If that line is no such line, it fails and only the file was
  -- opened. The lines up to there are shorter than 64 KB. A name with `Service` is refused before
  -- the file is opened.
  pub add_service_cases :
      (service_name refused : Str) (lines : List Str) (name line rest : Str) (w w' v v' : W)
      → contains service_name (codes "Service") ≡ false
      → contains refused (codes "Service") ≡ true
      → All IsSkipped lines
      → name ≢ []
      → trim_space name ≡ name
      → IsLine (directive ++ name)
      → IsLine line
      → trim_space (drop_return line) ≢ []
      → has_prefix (trim_space (drop_return line)) (codes "//") ≡ false
      → has_prefix (trim_space (drop_return line)) directive ≡ false
      → os.open_file (codes "go.mod") w
        ≡ (ok (scan (lines_text lines ((directive ++ name) ++ 10 ∷ rest))), w')
      → os.open_file (codes "go.mod") v ≡ (ok (scan (lines_text lines (line ++ 10 ∷ rest))), v')
      → (add_service os service_name w ≡ generate_service os service_name name w')
        × (add_service os service_name v ≡ (err no_directive, v'))
        × (add_service os refused w ≡ (err (codes "pass only root name of service"), w))
  add_service_cases service_name refused lines name line rest w w' v v' plain holds h nonempty
        trimmed l m text code no_module good bad =
      let (found, missed) =
        module_of_cases lines name line rest h nonempty trimmed l m text code no_module in
      (
        service_from service_name w w' (ok name) plain
            (get_project_name-scan _ w w' good ∙ ap (λ r. (r, w')) found),
        service_from service_name v v' (err no_directive) plain
            (get_project_name-scan _ v v' bad ∙ ap (λ r. (r, v')) missed),
        unfold add_service in rw holds refl,
      )
