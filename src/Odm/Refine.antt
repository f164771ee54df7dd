-- ===== src/Odm/Refine.antt =====
-- The operations of odm/odm_collection.go do what Odm.Abstract says, over a driver that does what the
-- documentation of MongoDB says of single documents.
use go_api_boot.Base.{
  Bool, true, Str, List, [], ◌∷◌, Result, ok, err, Result-cases, str_eq, nat_eq, ◌≡◌, inl, inr,
  refl,
}
use go_api_boot.Base.Exec.{Exec, continue}
use go_api_boot.Odm.{Fields}
use go_api_boot.Odm.Collection.{
  Driver, Model, by_id, save, save_doc, find_one, find_one_by_id, delete_one, delete_by_id, stamp,
  is_found,
}
use go_api_boot.Odm.Collection
use go_api_boot.Odm.Saving.{stored-exists}
use go_api_boot.Odm.Abstract.{Command, delete, exists, find, Answer, Event, Does, Leads}
use go_api_boot.Odm.Reliable.{
  Reliable, docs, is_ok, unchanged, exists-tells, save_doc-ok, save_doc-err, save_doc-others,
  written-IsSaved,
}

module _ {W M : Type 0} (col : Driver W M) (types : Model M) where
  -- A command, carried out by the operation of the collection.
  unfoldable pub execute : (c : Command M) → Exec W Str (Answer c)
  execute (Command.save m) = save col types m
  execute (delete id) = delete_by_id col id
  execute (exists id) = Collection.exists col id
  execute (find id) = find_one_by_id col id

  -- Whether the look of Save for the document returns; the other commands do not look.
  unfoldable pub counted : Command M → W → Bool
  counted (Command.save m) w = is_ok (Collection.exists col (types.id m) w).0
  counted _ w = true

  -- Commands one after the other, whether they fail or not, with their replies.
  unfoldable pub run : List (Command M) → W → List (Event M) × W
  unfolding execute counted
  run [] w = ([], w)
  run (c ∷ cs) w =
      let (r, w') = execute c w in
      let (events, w'') = run cs w' in
      (record { command = c; reply = r; counted = counted c w } ∷ events, w'')

  module _ (decode : Fields → Result Str M) (db : Reliable col decode) where
    -- What is behind the conversion of the model.
    saved-Does :
        (m : M) (w : W) (converted : Result Str Fields)
        → types.convert_to_bson m ≡ converted
        → Does types decode
            (Command.save m)
            (continue converted (save_doc col (types.id m)) w).0
            (is_ok (Collection.exists col (types.id m) w).0)
            (docs col types decode db w)
            (docs col types decode db (continue converted (save_doc col (types.id m)) w).1)
    saved-Does m w (err e) h = inl λ j. refl
    saved-Does m w (ok doc) h =
        let id = types.id m in
        let others = save_doc-others col types decode db id doc w in
        elim (Result-cases (save_doc col id doc w).0) [
          | inl (u, x) ↦ rw x (
              written-IsSaved col types decode db m w _ h
                (save_doc-ok col types decode db id doc w x) others)
          | inr (e, x) ↦ rw x (elim (save_doc-err col types decode db id doc w x) [
            | inl same ↦ inl (unchanged id _ _ same others)
            | inr there ↦ inr (written-IsSaved col types decode db m w _ h there others)
          ])
        ]

    deleted-Does :
        (id : Str) (w : W)
        → Does types decode
            (delete id)
            (col.delete_one (by_id id) w).0
            true
            (docs col types decode db w)
            (docs col types decode db (col.delete_one (by_id id) w).1)
    deleted-Does id w = elim (Result-cases (col.delete_one (by_id id) w).0) [
      | inl (u, x) ↦ rw x (record { gone = db.delete-done id w x; others = db.delete-others id w })
      | inr (e, x) ↦ rw x (elim (db.delete-fails id w x) [
        | inl same ↦ inl (unchanged id _ _ same (db.delete-others id w))
        | inr gone ↦ inr (record { gone = gone; others = db.delete-others id w })
      ])
    ]

    exists-Does :
        (id : Str) (w : W)
        → Does types decode
            (exists id)
            (Collection.exists col id w).0
            true
            (docs col types decode db w)
            (docs col types decode db (Collection.exists col id w).1)
    exists-Does id w = elim (Result-cases (Collection.exists col id w).0) [
      | inl (b, x) ↦ rw x (exists-tells col types decode db id w x, stored-exists col db.base id w)
      | inr (e, x) ↦ rw x (stored-exists col db.base id w)
    ]

    found-Does :
        (id : Str) (w : W)
        → Does types decode
            (find id)
            (col.find_one (by_id id) w).0
            true
            (docs col types decode db w)
            (docs col types decode db (col.find_one (by_id id) w).1)
    found-Does id w = elim (Result-cases (col.find_one (by_id id) w).0) [
      | inl (m, x) ↦ rw x (db.find-found id w x, db.find-keeps id w)
      | inr (e, x) ↦ rw x (db.find-keeps id w)
    ]

    pub execute-Does :
        (c : Command M) (w : W)
        → Does types decode c
            (execute c w).0
            (counted c w)
            (docs col types decode db w)
            (docs col types decode db (execute c w).1)
    unfolding execute counted save delete_by_id delete_one find_one_by_id find_one
    execute-Does (Command.save m) w = saved-Does m w (types.convert_to_bson m) refl
    execute-Does (delete id) w = deleted-Does id w
    execute-Does (exists id) w = exists-Does id w
    execute-Does (find id) w = found-Does id w

    -- Over a driver that does what MongoDB documents of single documents, whichever of its calls fail,
    -- any sequence of Save, DeleteByID, Exists and FindOneByID is a history of the
    -- abstract collection: a Save that returns leaves the model's fields over those of the document,
    -- with the time under the key of the creation for a new document, and for another under that of
    -- the update if its look returned, and under that of the creation if the look failed; a write
    -- that fails was carried out or not, a read changes nothing and is answered from the document,
    -- and no other document changes.
    pub run-Leads :
        (cs : List (Command M)) (w : W)
        → Leads types decode
            (run cs w).0
            (docs col types decode db w)
            (docs col types decode db (run cs w).1)
    unfolding run
    run-Leads [] w = λ j. refl
    run-Leads (c ∷ cs) w =
        (docs col types decode db (execute c w).1, execute-Does c w, run-Leads cs (execute c w).1)
