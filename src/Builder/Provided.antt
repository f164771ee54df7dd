-- ===== src/Builder/Provided.antt =====
-- Provide and ProvideAs of server/builder.go: what the container resolves of what was provided.
use go_api_boot.Base.{
  ℕ, suc, codes, true, false, none, some, ok, err, ◌≡◌, ◌⊎◌, refl, Bool-cases, inl, inr, str_eq,
  nat_eq,
}
use go_api_boot.Base.Dict.{insert, lookup-insert_self}
use go_api_boot.Container.{Container, resolve, new_container}
use go_api_boot.Container.Memo.{resolve_there}
use go_api_boot.Builder.{Builder, Any, Reflect, panic, fatal, provide, provide_as}

-- The container that `Build` makes of a builder.
unfoldable pub builder_container : {V W X : Type 0} → Builder V W X → W → Container V W
builder_container b w = new_container b.singletons b.providers w

-- A value that was provided, under its own type or under an interface that it implements, is what
-- the container of the builder resolves for this type, with no call of a factory; `ProvideAs`
-- refuses a value that does not implement the interface, and every argument that is no pointer.
pub provide_cases :
    {V W X : Type 0} (types : Reflect V W) (a : Any V W) (t f : ℕ) (b : Builder V W X) (w : W)
    → (resolve (suc f) (types.type_of a) (builder_container (provide types a b) w)
        ≡ (ok (types.value_of a), builder_container (provide types a b) w))
      × (provide_as types a none b ≡ err panic)
      × (((types.is_implementing (types.type_of a) t ≡ false)
            × (provide_as types a (some t) b
                ≡ err (fatal (codes "Provided value does not implement the given interface"))))
          ⊎ ((types.is_implementing (types.type_of a) t ≡ true)
              × (b' : Builder V W X) × (provide_as types a (some t) b ≡ ok b')
              × (resolve (suc f) t (builder_container b' w)
                  ≡ (ok (types.value_of a), builder_container b' w))))
unfolding provide provide_as builder_container new_container
provide_cases types a t f b w = (
  resolve_there f (types.type_of a) (builder_container (provide types a b) w)
      (lookup-insert_self (types.type_of a) (types.value_of a) b.singletons),
  refl,
  elim (Bool-cases (types.is_implementing (types.type_of a) t)) [
    | inl e ↦ inr (
      e,
      record b { singletons = insert t (types.value_of a) b.singletons },
      rw e refl,
      resolve_there f t
          (builder_container (record b { singletons = insert t (types.value_of a) b.singletons }) w)
          (lookup-insert_self t (types.value_of a) b.singletons),
    )
    | inr e ↦ inl (e, rw e refl)
  ],
)
