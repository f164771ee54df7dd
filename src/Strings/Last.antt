-- ===== src/Strings/Last.antt =====
-- The text behind the last separator.
use go_api_boot.Base.{ℕ, Str, [], ◌∷◌, ◌++◌, ◌≡◌, refl, arith, nat_eq, ==_iff, ==_refl}
use go_api_boot.Strings.{after_scan, after_last}
use go_api_boot.Strings.Split.{Lacks}

after_scan-Lacks : (sep : ℕ) (best s : Str) → Lacks sep s → after_scan sep best s ≡ best
unfolding after_scan
after_scan-Lacks sep best [] h = refl
after_scan-Lacks sep best (c ∷ s) (hc, h) =
    ground (arith, ==_iff c sep, after_scan-Lacks sep best s h)

after_scan-append :
    (sep : ℕ) (s t best : Str) → Lacks sep t → after_scan sep best (s ++ sep ∷ t) ≡ t
unfolding after_scan
after_scan-append sep [] t best h = rw (==_refl sep, after_scan) (after_scan-Lacks sep t t h)
after_scan-append sep (c ∷ s) t best h = after_scan-append sep s t _ h

-- A text without separators is what stands behind the last separator of a longer one.
pub after_last-append : (sep : ℕ) (s t : Str) → Lacks sep t → after_last sep (s ++ sep ∷ t) ≡ t
unfolding after_last
after_last-append sep s t h = after_scan-append sep s t (s ++ sep ∷ t) h
