-- ===== src/Builder/Growth.antt =====
-- What the steps of `Build` leave alone: the providers, the singletons, and the patterns that were
-- registered, none of which conflict.
use go_api_boot.Base.{
  ℕ, Str, List, [], ◌∷◌, ◌++◌, Bool, false, Result, ok, err, ◌≡◌, refl, sym, ap, ◌∙◌, append-nil,
  append_assoc, Bool-cases, inl, inr, str_eq, nat_eq,
}
use go_api_boot.Base.Exec.{Exec, continue}
use go_api_boot.Rest.{HandlerFunc}
use go_api_boot.Container.{
  Factory, Container, Fault, Inject, new_container, invoke_factory, resolve,
}
use go_api_boot.Container.Growth.{
  Grows, Grows-refl, Grows-trans, OnlyGrows, invoke-Grows, resolve-Grows,
}
use go_api_boot.Builder.{Builder}
use go_api_boot.Builder.Build.{
  Libraries, Site, BuildError, Building, any_conflict, effect, attempt, inject, handle,
}

-- No pattern conflicts with an earlier one.
pub data Apart {W : Type 0} (is_conflict : Str → Str → Bool)
    : List (Str × HandlerFunc W) → Type 0 where
  empty : Apart is_conflict []
  snoc :
      (mux : List (Str × HandlerFunc W)) (p : Str) (h : HandlerFunc W)
      → Apart is_conflict mux
      → any_conflict is_conflict p mux ≡ false
      → Apart is_conflict (mux ++ (p, h) ∷ [])

module _ {V W X : Type 0} where
  -- The container on the maps of the builder.
  unfoldable pub container_of : Site V W X → Container V W
  container_of s = new_container s.builder.singletons s.builder.providers s.world

  -- The second builder, with the maps of the container and the server's options of the first.
  abbrev pub with_maps_of : Builder V W X → Builder V W X → Builder V W X
  with_maps_of b c = record c {
    singletons = b.singletons;
    providers = b.providers;
    server_opts = b.server_opts;
  }

  -- What was wired is all kept: the builders agree but for the maps of the container, and for the
  -- server's options, to which others were appended.
  pub record KeepsWiring (b c : Builder V W X) : Type 0 where
    pub same_rest : with_maps_of b c ≡ b
    pub more : List X
    pub appended : c.server_opts ≡ b.server_opts ++ more

  KeepsWiring-refl : (b : Builder V W X) → KeepsWiring b b
  KeepsWiring-refl b = record {
    same_rest = refl;
    more = [];
    appended = sym (append-nil b.server_opts);
  }

  KeepsWiring-trans : (b c d : Builder V W X) → KeepsWiring b c → KeepsWiring c d → KeepsWiring b d
  KeepsWiring-trans b c d g h = record {
    same_rest = ap (with_maps_of b) h.same_rest ∙ g.same_rest;
    more = g.more ++ h.more;
    appended = rw h.appended (rw g.appended (append_assoc b.server_opts g.more h.more));
  }

  module _ (lib : Libraries V W X) where
    pub record Extends (s t : Site V W X) : Type 0 where
      pub grows : Grows (container_of s) (container_of t)
      pub wiring : KeepsWiring s.builder t.builder
      pub added : List (Str × HandlerFunc W)
      pub same : t.mux ≡ s.mux ++ added
      pub apart : Apart lib.is_conflict s.mux → Apart lib.is_conflict t.mux

    pub Extends-refl : (s : Site V W X) → Extends s s
    Extends-refl s = record {
      grows = Grows-refl (container_of s);
      wiring = KeepsWiring-refl s.builder;
      added = [];
      same = sym (append-nil s.mux);
      apart = λ a. a;
    }

    pub Extends-trans : {s t u : Site V W X} → Extends s t → Extends t u → Extends s u
    Extends-trans {s} {t} {u} g h = record {
      grows = Grows-trans g.grows h.grows;
      wiring = KeepsWiring-trans s.builder t.builder u.builder g.wiring h.wiring;
      added = g.added ++ h.added;
      same = rw h.same (rw g.same (append_assoc s.mux g.added h.added));
      apart = λ a. h.apart (g.apart a);
    }

    -- An action that only extends the site, whether it returns or fails.
    abbrev pub OnlyExtends : {A : Type 0} → Building V W X A → Type 0
    OnlyExtends m = (s : Site V W X) → Extends s (m s).1

    pub continue-Extends :
        {A B : Type 0} (r : Result BuildError A) (f : A → Building V W X B) (s : Site V W X)
        → ((a : A) → OnlyExtends (f a))
        → Extends s (continue r f s).1
    continue-Extends (ok a) f s h = h a s
    continue-Extends (err e) f s h = Extends-refl s

    pub bind-Extends :
        {A B : Type 0} (m : Building V W X A) (f : A → Building V W X B)
        → OnlyExtends m
        → ((a : A) → OnlyExtends (f a))
        → OnlyExtends (λ s. continue (m s).0 f (m s).1)
    bind-Extends m f hm hf s = Extends-trans (hm s) (continue-Extends (m s).0 f (m s).1 hf)

    -- A step that leaves the maps and the multiplexer alone.
    pub quiet :
        (s t : Site V W X)
        → KeepsWiring s.builder t.builder
        → t.builder.singletons ≡ s.builder.singletons
        → t.builder.providers ≡ s.builder.providers
        → t.mux ≡ s.mux
        → Extends s t
    unfolding container_of new_container
    quiet s t wired hs hp hm = record {
      grows = record { same_providers = hp; keeps = λ k w h. rw hs h };
      wiring = wired;
      added = [];
      same = hm ∙ sym (append-nil s.mux);
      apart = λ a. rw hm a;
    }

    pub effect-Extends : {A : Type 0} (f : W → A × W) → OnlyExtends (effect f)
    unfolding effect
    effect-Extends f s = quiet s (effect f s).1 (KeepsWiring-refl s.builder) refl refl refl

    pub attempt-Extends :
        {E A : Type 0} (h : E → BuildError) (f : Exec W E A) → OnlyExtends (attempt h f)
    unfolding attempt
    attempt-Extends h f s = quiet s (attempt h f s).1 (KeepsWiring-refl s.builder) refl refl refl

    pub inject-Extends :
        {A : Type 0} (h : Fault → BuildError) (m : Inject V W A)
        → OnlyGrows m
        → OnlyExtends (inject h m)
    unfolding inject container_of new_container
    inject-Extends h m g s = record {
      grows =
          let k = g (container_of s) in
          record { same_providers = k.same_providers; keeps = k.keeps };
      wiring = record {
        same_rest = refl;
        more = [];
        appended = sym (append-nil s.builder.server_opts);
      };
      added = [];
      same = sym (append-nil s.mux);
      apart = λ a. a;
    }

    invoke_factory-Grows : (fuel : ℕ) (p : Factory V W) → OnlyGrows (invoke_factory fuel p)
    unfolding invoke_factory
    invoke_factory-Grows fuel p = invoke-Grows (resolve fuel) p (resolve-Grows fuel)

    handled :
        (p : Str) (h : HandlerFunc W) (s : Site V W X)
        → any_conflict lib.is_conflict p s.mux ≡ false
        → Extends s (record s { mux = s.mux ++ (p, h) ∷ [] })
    unfolding container_of new_container
    handled p h s e = record {
      grows = record { same_providers = refl; keeps = λ k w x. x };
      wiring = KeepsWiring-refl s.builder;
      added = (p, h) ∷ [];
      same = refl;
      apart = λ a. snoc s.mux p h a e;
    }

    pub handle-Extends : (p : Str) (h : HandlerFunc W) → OnlyExtends (handle lib p h)
    unfolding handle
    handle-Extends p h s = elim (Bool-cases (lib.is_pattern p)) [
      | inl v ↦ elim (Bool-cases (any_conflict lib.is_conflict p s.mux)) [
        | inl e ↦ rw (v, e) (Extends-refl s)
        | inr e ↦ rw (v, e) (handled p h s e)
      ]
      | inr v ↦ rw v (Extends-refl s)
    ]
