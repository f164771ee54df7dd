-- ===== src/Cloud/Lazy.antt =====
-- A client that is made at most once: the client, the error and the `sync.Once` of cloud/azure.go.
use go_api_boot.Base.{
  Str, Bool, true, false, Option, none, some, Result, ok, err, Result-cases, ◌≡◌, refl, inl, inr,
  if◌then◌else◌, ◌⊎◌,
}
use go_api_boot.Base.Exec.{Exec}

pub record Once (C : Type 0) : Type 0 where
  pub is_done : Bool
  pub failure : Option Str
  pub client : Option C

abbrev pub untouched : {C : Type 0} → Once C
untouched = record { is_done = false; failure = none; client = none }

abbrev pub kept : Option Str → Result Str (Unit {0})
kept none = ok tt
kept (some e) = err e

abbrev pub made : {C : Type 0} → Result Str C → Once C
made (ok c) = record { is_done = true; failure = none; client = some c }
made (err e) = record { is_done = true; failure = some e; client = none }

module _ {W C : Type 0} where
  -- once.Do(...), and the error that was kept
  unfoldable pub do_once : Exec W Str C → Once C × W → Result Str (Unit {0}) × (Once C × W)
  do_once make (o, w) =
      if o.is_done
      then (kept o.failure, (o, w))
      else (let (r, w') = make w in (kept (made r).failure, (made r, w')))

  abbrev pub unless_there :
      Exec W Str C → Option C → Once C × W → Result Str (Unit {0}) × (Once C × W)
  unless_there make (some c) s = (ok tt, s)
  unless_there make none s = do_once make s

  -- EnsureKV and EnsureBlob: a client that is there is left alone.
  unfoldable pub ensure_client : Exec W Str C → Once C × W → Result Str (Unit {0}) × (Once C × W)
  unfolding do_once
  ensure_client make s = unless_there make s.0.client s

-- There is a client, or making it failed, or nothing was done yet.
pub data IsSound {C : Type 0} : Once C → Type 0 where
  there : (o : Once C) (c : C) → o.client ≡ some c → IsSound o
  broken :
      (o : Once C) (e : Str) → o.is_done ≡ true → o.failure ≡ some e → o.client ≡ none → IsSound o
  not_done : (o : Once C) → o.is_done ≡ false → o.client ≡ none → IsSound o

module _ {W C : Type 0} (make : Exec W Str C) where
  -- What an ensured client is: it is there, or the error is kept.
  abbrev pub IsEnsured : Result Str (Unit {0}) × (Once C × W) → Type 0
  IsEnsured (r, (o, w)) =
      ((r ≡ ok tt) × (c : C) × (o.client ≡ some c))
      ⊎ ((e : Str) × (r ≡ err e) × (o.is_done ≡ true) × (o.failure ≡ some e) × (o.client ≡ none))

  -- Ensuring a client returns no error exactly if there is a client then.
  pub ensure_client-IsEnsured :
      (o : Once C) (w : W) → IsSound o → IsEnsured (ensure_client make (o, w))
  unfolding ensure_client do_once
  ensure_client-IsEnsured _ w (there o c h) = rw h (inl (refl, c, refl))
  ensure_client-IsEnsured _ w (broken o e d f h) = rw h (rw d (inr (e, rw f refl, refl, f, refl)))
  ensure_client-IsEnsured _ w (not_done o d h) = elim (Result-cases (make w).0) [
    | inl (c, e) ↦ rw h (rw (d, e) (inl (refl, c, refl)))
    | inr (e, x) ↦ rw h (rw (d, x) (inr (e, refl, refl, refl, refl)))
  ]

  again : (s : Result Str (Unit {0}) × (Once C × W)) → IsEnsured s → ensure_client make s.1 ≡ s
  unfolding ensure_client do_once
  again (r, (o, w)) (inl (x, c, h)) = rw h (cc x)
  again (r, (o, w)) (inr (e, x, d, f, h)) = rw h (rw (d, f) (cc x))

  -- If the client is there, could not be made or was not asked for yet, it is made at most once:
  -- ensuring it again has the same result, an error too, with no other attempt and no change of the
  -- world.
  pub ensure_client_again :
      (o : Once C) (w : W)
      → IsSound o
      → ensure_client make (ensure_client make (o, w)).1 ≡ ensure_client make (o, w)
  ensure_client_again o w h = again (ensure_client make (o, w)) (ensure_client-IsEnsured o w h)
