-- ===== src/Cloud/Secrets.antt =====
-- Loading secrets into the environment: the loop over pages and the loop over a page.
use go_api_boot.Base.{Str, List, [], ◌∷◌, ◌++◌, concat, Result, ok, err, ◌≡◌, refl, sym, ◌∙◌, ap}
use go_api_boot.Dotenv.{Env}
use go_api_boot.Cloud.{Sdk, SecretId, load_page, load_pages}

-- The answers of NextPage for pages that were all listed.
abbrev pub listed : List (List SecretId) → List (Result Str (List SecretId))
listed [] = []
listed (ids ∷ pages) = ok ids ∷ listed pages

module _ {W K B X : Type 0} (sdk : Sdk W K B X) (k : K) where
  load_page-append :
      (xs ys : List SecretId) (s : Env × W)
      → load_page sdk k (xs ++ ys) s ≡ load_page sdk k ys (load_page sdk k xs s)
  unfolding load_page
  load_page-append [] ys s = refl
  load_page-append (x ∷ xs) ys s = load_page-append xs ys _

  load_pages-listed :
      (pages : List (List SecretId)) (rest : List (Result Str (List SecretId))) (s : Env × W)
      → load_pages sdk k (listed pages ++ rest) s
        ≡ load_pages sdk k rest (load_page sdk k (concat pages) s)
  unfolding load_pages load_page
  load_pages-listed [] rest s = refl
  load_pages-listed (ids ∷ pages) rest s =
      load_pages-listed pages rest (load_page sdk k ids s)
      ∙ ap (load_pages sdk k rest) (sym (load_page-append ids (concat pages) s))

  -- How the secrets are cut into pages does not matter: all that are listed are read in order, and
  -- a page that fails ends the loading with its error behind the secrets of the pages before, which
  -- stay in the environment, whatever would follow.
  pub load_pages_cases :
      (pages : List (List SecretId)) (e : Str) (rest : List (Result Str (List SecretId)))
      (s : Env × W)
      → (load_pages sdk k (listed pages ++ []) s ≡ (ok tt, load_page sdk k (concat pages) s))
        × (load_pages sdk k (listed pages ++ err e ∷ rest) s
            ≡ (err e, load_page sdk k (concat pages) s))
  unfolding load_pages
  load_pages_cases pages e rest s =
      (load_pages-listed pages [] s, load_pages-listed pages (err e ∷ rest) s)
