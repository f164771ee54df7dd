-- ===== src/Container.antt =====
-- server/container.go and `invokeFactory` of server/builder.go: the dependency injection container.
-- A `reflect.Type` is the number of a type, a `reflect.Value` is a `V`. The user's factories are
-- the argument of a section: a factory may read and change the world `W`.
pub mod Growth
pub mod Termination
pub mod Memo
pub mod Spec
pub mod Cycles
use go_api_boot.Base.{ℕ, zero, suc, List, [], ◌∷◌, Option, none, some, Result, ok, err, nat_eq}
use go_api_boot.Base.Dict.{Dict, lookup, insert}
use go_api_boot.Base.Exec.{Exec, pure, raise, continue, ◌>>=◌}

-- A function value as `reflect` shows it: the types of its parameters, and its call.
pub record Factory (V W : Type 0) : Type 0 where
  pub ins : List ℕ
  pub run : List V → W → V × W

pub record Container (V W : Type 0) : Type 0 where
  pub singletons : Dict ℕ V
  pub providers : Dict ℕ (Factory V W)
  pub world : W

pub data Fault : Type 0 where
  -- fmt.Errorf("no provider for %v", t)
  no_provider : ℕ → Fault
  -- The goroutine's stack is exhausted, and the process dies.
  stack_overflow : Fault

abbrev pub Inject : Type 0 → Type 0 → Type 0 → Type 0
Inject V W A = Exec (Container V W) Fault A

module _ {V W : Type 0} where
  unfoldable pub new_container : Dict ℕ V → Dict ℕ (Factory V W) → W → Container V W
  new_container singletons providers world = record {
    singletons = singletons;
    providers = providers;
    world = world;
  }

  -- p.Call(args)[0]
  unfoldable pub call : Factory V W → List V → Inject V W V
  call p args c = let (v, w) = p.run args c.world in (ok v, record c { world = w })

  -- c.singletons[t] = v
  unfoldable pub memoise : ℕ → V → Inject V W V
  memoise t v c = (ok v, record c { singletons = insert t v c.singletons })

  -- The loop over the parameters, which stops at the first error.
  unfoldable pub resolve_args : (ℕ → Inject V W V) → List ℕ → Inject V W (List V)
  resolve_args rec [] = pure []
  resolve_args rec (t ∷ ts) = do v ← rec t; vs ← resolve_args rec ts; pure (v ∷ vs)

  -- The arguments of a factory are resolved, and the factory is called with them.
  unfoldable pub invoke : (ℕ → Inject V W V) → Factory V W → Inject V W V
  invoke rec p = do args ← resolve_args rec p.ins; call p args

  -- What `resolve` does with a type that has no singleton.
  unfoldable pub provide : (ℕ → Inject V W V) → ℕ → Option (Factory V W) → Inject V W V
  provide rec t none = raise (no_provider t)
  provide rec t (some p) = do v ← invoke rec p; memoise t v

  unfoldable pub resolve_miss : (ℕ → Inject V W V) → ℕ → Option V → Inject V W V
  resolve_miss rec t (some v) c = (ok v, c)
  resolve_miss rec t none c = provide rec t (lookup t c.providers) c

  -- `resolve` with room for so many nested calls.
  unfoldable pub resolve : ℕ → ℕ → Inject V W V
  resolve zero t c = (err stack_overflow, c)
  resolve (suc f) t c = resolve_miss (resolve f) t (lookup t c.singletons) c

  -- invokeFactory(ctn, fn)
  unfoldable pub invoke_factory : ℕ → Factory V W → Inject V W V
  invoke_factory f = invoke (resolve f)
