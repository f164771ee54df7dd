-- ===== src/Odm/Reliable.antt =====
-- What MongoDB documents of the calls that single documents need, and what Save does with it.
use go_api_boot.Base.{
  Bool, true, false, Result-cases, Str, Option, none, some, Result, ok, err, ltb, Bool-cases, ◌==◌,
  ==_iff, str_eq, nat_eq, ◌≡◌, ◌⊎◌, inl, inr, refl, sym, ◌∙◌, ap, subst,
}
use go_api_boot.Odm.{Fields}
use go_api_boot.Odm.Collection.{
  Driver, Model, by_id, save, save_doc, find_one, find_one_by_id, delete_one, delete_by_id, stamp,
  is_found,
}
use go_api_boot.Odm.Collection
use go_api_boot.Odm.Saving.{
  Documented, merge, fields_of, number_of, IsStamped, time_of, stamped, stored-exists,
  exists-stored, stored-save_doc, merge-IsStamped,
}
use go_api_boot.Odm.Abstract.{Docs, Same, SameBut, key_of, key_after, is_some, IsSaved}

-- What MongoDB documents of the calls that the operations make. Every call may fail, and a write that
-- fails may have been carried out.
pub record Reliable {W M : Type 0} (col : Driver W M) (decode : Fields → Result Str M)
    : Type 0 where
  pub base : Documented col
  pub upsert-others :
      (id : Str) (doc : Fields) (w : W)
      → SameBut id (base.stored w) (base.stored (col.upsert_one (by_id id) doc w).1)
  pub upsert-fails :
      (id : Str) (doc : Fields) (w : W) {e : Str}
      → (col.upsert_one (by_id id) doc w).0 ≡ err e
      → (base.stored (col.upsert_one (by_id id) doc w).1 id ≡ base.stored w id)
        ⊎ (base.stored (col.upsert_one (by_id id) doc w).1 id
            ≡ some (merge doc (fields_of (base.stored w id))))
  pub delete-others :
      (id : Str) (w : W) → SameBut id (base.stored w) (base.stored (col.delete_one (by_id id) w).1)
  pub delete-done :
      (id : Str) (w : W) {u : Unit {0}}
      → (col.delete_one (by_id id) w).0 ≡ ok u
      → base.stored (col.delete_one (by_id id) w).1 id ≡ none
  pub delete-fails :
      (id : Str) (w : W) {e : Str}
      → (col.delete_one (by_id id) w).0 ≡ err e
      → (base.stored (col.delete_one (by_id id) w).1 id ≡ base.stored w id)
        ⊎ (base.stored (col.delete_one (by_id id) w).1 id ≡ none)
  pub find-keeps :
      (id : Str) (w : W) → Same (base.stored w) (base.stored (col.find_one (by_id id) w).1)
  pub find-found :
      (id : Str) (w : W) {m : M}
      → (col.find_one (by_id id) w).0 ≡ ok m
      → (doc : Fields) × (base.stored w id ≡ some doc) × (decode doc ≡ ok m)

ltb-number_of : (o : Option Fields) → ltb 0 (number_of o) ≡ is_some o
ltb-number_of none = refl
ltb-number_of (some doc) = refl

pub unchanged :
    (id : Str) (before after : Docs)
    → after id ≡ before id
    → SameBut id before after
    → Same before after
unchanged id before after e others j = elim (Bool-cases (j == id)) [
  | inl same ↦ subst (λ k. after k ≡ before k) (sym ((==_iff j id).0 same)) e
  | inr n ↦ others j (λ k. cc (n, (==_iff j id).1 k))
]

abbrev pub is_ok : {A : Type 0} → Result Str A → Bool
is_ok (ok _) = true
is_ok (err _) = false

module _ {W M : Type 0} (col : Driver W M) (types : Model M) where
  stamp-key_of : (o : Option Fields) → stamp col (is_some o) ≡ key_of o
  stamp-key_of none = refl
  stamp-key_of (some doc) = refl

  module _ (decode : Fields → Result Str M) (db : Reliable col decode) where
    abbrev pub docs : W → Docs
    docs w = db.base.stored w

    -- Exists, if it returns, tells whether the document is there.
    pub exists-tells :
        (id : Str) (w : W) {b : Bool}
        → (Collection.exists col id w).0 ≡ ok b
        → b ≡ is_some (docs w id)
    exists-tells id w x = exists-stored col db.base id w x ∙ ltb-number_of (docs w id)

    -- The key under which Save puts the time.
    stamp-key_after :
        (id : Str) (w : W)
        → stamp col (is_found col (Collection.exists col id w).0)
          ≡ key_after (is_ok (Collection.exists col id w).0) (docs w id)
    stamp-key_after id w = elim (Result-cases (Collection.exists col id w).0) [
      | inl (b, x) ↦ rw x (ap (stamp col) (exists-tells id w x) ∙ stamp-key_of (docs w id))
      | inr (e, x) ↦ rw x refl
    ]

    -- The world in which Save writes, and the document that it leaves.
    abbrev pub before_write : Str → W → W
    before_write id w = (col.now (Collection.exists col id w).1).1

    before_write-Same : (id : Str) (w : W) → Same (docs w) (docs (before_write id w))
    before_write-Same id w j =
        db.base.stored-now (Collection.exists col id w).1 j ∙ stored-exists col db.base id w j

    abbrev pub written : Str → Fields → W → Fields
    written id doc w =
        merge (stamped col db.base id doc (is_found col (Collection.exists col id w).0) w)
          (fields_of (docs w id))

    pub save_doc-ok :
        (id : Str) (doc : Fields) (w : W) {u : Unit {0}}
        → (save_doc col id doc w).0 ≡ ok u
        → docs (save_doc col id doc w).1 id ≡ some (written id doc w)
    save_doc-ok id doc w x = stored-save_doc col db.base id doc w x

    pub save_doc-err :
        (id : Str) (doc : Fields) (w : W) {e : Str}
        → (save_doc col id doc w).0 ≡ err e
        → (docs (save_doc col id doc w).1 id ≡ docs w id)
          ⊎ (docs (save_doc col id doc w).1 id ≡ some (written id doc w))
    unfolding save_doc stamped
    save_doc-err id doc w x = elim (db.upsert-fails id _ (before_write id w) x) [
      | inl e ↦ inl (e ∙ before_write-Same id w id)
      | inr e ↦ inr (e ∙ rw (before_write-Same id w id) refl)
    ]

    pub save_doc-others :
        (id : Str) (doc : Fields) (w : W) → SameBut id (docs w) (docs (save_doc col id doc w).1)
    unfolding save_doc
    save_doc-others id doc w j n =
        db.upsert-others id _ (before_write id w) j n ∙ before_write-Same id w j

    pub written-IsSaved :
        (m : M) (w : W) (after : Docs) {doc : Fields}
        → types.convert_to_bson m ≡ ok doc
        → after (types.id m) ≡ some (written (types.id m) doc w)
        → SameBut (types.id m) (docs w) after
        → IsSaved types decode m (is_ok (Collection.exists col (types.id m) w).0) (docs w) after
    written-IsSaved m w after {doc} converts there others =
        let id = types.id m in
        record {
          doc = doc;
          converts = converts;
          time = time_of col db.base id w;
          new = written id doc w;
          there = there;
          stamped =
              subst
                (λ key.
                  IsStamped id doc (fields_of (docs w id)) key (time_of col db.base id w)
                    (written id doc w))
                (stamp-key_after id w)
                (merge-IsStamped col db.base id doc (fields_of (docs w id))
                  (is_found col (Collection.exists col id w).0) w);
          others = others;
        }
