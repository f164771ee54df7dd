-- ===== src/Container/Memo.antt =====
-- Memoisation: a type that was resolved once has its singleton.
use go_api_boot.Base.{ℕ, zero, suc, Option, none, some, ok, ◌≡◌, nat_eq, Option-cases, inl, inr}
use go_api_boot.Base.Dict.{lookup, lookup-insert_self}
use go_api_boot.Base.Exec.{continue-ok}
use go_api_boot.Container.{
  Factory, Container, Inject, memoise, invoke, provide, resolve_miss, resolve,
}

module _ {V W : Type 0} where
  provide-singleton :
      (rec : ℕ → Inject V W V) (t : ℕ) (o : Option (Factory V W)) (c : Container V W) {v : V}
      → (provide rec t o c).0 ≡ ok v
      → lookup t (provide rec t o c).1.singletons ≡ some v
  unfolding provide memoise
  provide-singleton rec t none c x = cc x
  provide-singleton rec t (some p) c {v} x =
      let (w, e, y) = continue-ok (invoke rec p c).0 (memoise t) (invoke rec p c).1 x in
      rw e (rw (lookup-insert_self t w (invoke rec p c).1.singletons) (cc y))

  -- The value that `resolve` returned is the singleton of the type from then on.
  pub resolve-singleton :
      (f t : ℕ) (c : Container V W) {v : V}
      → (resolve f t c).0 ≡ ok v
      → lookup t (resolve f t c).1.singletons ≡ some v
  unfolding resolve resolve_miss
  resolve-singleton zero t c x = cc x
  resolve-singleton (suc f) t c {v} x = elim (Option-cases (lookup t c.singletons)) [
    | inl fresh ↦
        rw fresh (provide-singleton (resolve f) t (lookup t c.providers) c (rw fresh at x))
    | inr (w, there) ↦ rw there (rw there (cc (there, x)))
  ]

  pub resolve_there :
      (g t : ℕ) (d : Container V W) {v : V}
      → lookup t d.singletons ≡ some v
      → resolve (suc g) t d ≡ (ok v, d)
  unfolding resolve resolve_miss
  resolve_there g t d h = rw h

  -- A type that was resolved is resolved again to the same value, with no call of a factory and no
  -- other change of the container or of the world, whatever the room for calls.
  pub resolve-resolve :
      (f g t : ℕ) (c : Container V W) {v : V}
      → (resolve f t c).0 ≡ ok v
      → resolve (suc g) t (resolve f t c).1 ≡ (ok v, (resolve f t c).1)
  resolve-resolve f g t c x = resolve_there g t (resolve f t c).1 (resolve-singleton f t c x)
