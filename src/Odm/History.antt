-- ===== src/Odm/History.antt =====
-- What a history of a collection cannot do: change the time of a document's creation.
use go_api_boot.Base.{
  true, ℕ, Str, codes, List, [], ◌∷◌, none, some, Result, ok, err, Bool-cases, ◌==◌, ==_iff, str_eq,
  str_beq, nat_eq, ◌≡◌, ◌≢◌, inl, inr, sym, ◌∙◌, ap, subst, All,
}
use go_api_boot.Base.Dict.{lookup}
use go_api_boot.Odm.{Bson, Fields}
use go_api_boot.Odm.Collection.{Driver, Model}
use go_api_boot.Odm.Saving.{IsStamped, fields_of}
use go_api_boot.Odm.Abstract.{
  Docs, Command, save, delete, exists, find, Reply, Same, key_of, IsSaved, IsDeleted, Does,
}
use go_api_boot.Odm.Reliable.{Reliable, docs}
use go_api_boot.Odm.Refine.{execute, run, execute-Does}

abbrev created_on : Str
created_on = codes "createdOn"

-- The document with this `_id` is there, and was created at this time.
abbrev pub IsCreated : Str → Bson → Docs → Type 0
IsCreated id time d = (doc : Fields) × (d id ≡ some doc) × (lookup created_on doc ≡ some time)

-- The document that was made of a model has no field `createdOn`.
abbrev pub IsFresh : Result Str Fields → Type 0
IsFresh (ok doc) = lookup created_on doc ≡ none
IsFresh (err _) = Unit

module _ {M : Type 0} (types : Model M) where
  -- The command deletes no document with this `_id`, and saves no model with a field `createdOn`.
  abbrev pub Leaves : Str → Command M → Type 0
  Leaves id (save m) = IsFresh (types.convert_to_bson m)
  Leaves id (delete other) = other ≢ id
  Leaves id _ = Unit

  module _ (decode : Fields → Result Str M) (id : Str) (time : Bson) where
    Same-IsCreated :
        (before after : Docs)
        → Same before after
        → IsCreated id time before
        → IsCreated id time after
    Same-IsCreated before after s (doc, there, created) = (doc, s id ∙ there, created)

    stamped-created :
        (doc old new : Fields) (other : Str) (now : ℕ)
        → lookup created_on doc ≡ none
        → lookup created_on old ≡ some time
        → IsStamped other doc old (codes "updatedOn") now new
        → lookup created_on new ≡ some time
    unfolding str_beq
    stamped-created doc old new other now fresh created h = h created_on ∙ rw fresh created

    -- The case of a model with this `_id`.
    saved_over :
        (m : M) (before after : Docs)
        → Leaves id (save m)
        → IsSaved types decode m true before after
        → types.id m ≡ id
        → IsCreated id time before
        → IsCreated id time after
    saved_over m before after l s same (doc, there, created) =
        let there' : before (types.id m) ≡ some doc = ap before same ∙ there in
        let stamp : IsStamped (types.id m) s.doc doc (codes "updatedOn") s.time s.new =
          subst (λ o. IsStamped (types.id m) s.doc (fields_of o) (key_of o) s.time s.new) there'
            s.stamped in
        (
          s.new,
          ap after (sym same) ∙ s.there,
          stamped-created s.doc doc s.new (types.id m) s.time (subst IsFresh s.converts l) created
              stamp,
        )

    IsSaved-IsCreated :
        (m : M) (before after : Docs)
        → Leaves id (save m)
        → IsSaved types decode m true before after
        → IsCreated id time before
        → IsCreated id time after
    IsSaved-IsCreated m before after l s c = elim (Bool-cases (types.id m == id)) [
      | inl e ↦ saved_over m before after l s ((==_iff (types.id m) id).0 e) c
      | inr n ↦
          let other : id ≢ types.id m = λ k. cc (n, (==_iff (types.id m) id).1 (sym k)) in
          (c.0, s.others id other ∙ c.1, c.2)
    ]

    IsDeleted-IsCreated :
        (other : Str) (before after : Docs)
        → other ≢ id
        → IsDeleted types decode other before after
        → IsCreated id time before
        → IsCreated id time after
    IsDeleted-IsCreated other before after n d (doc, there, created) =
        (doc, d.others id (λ k. n (sym k)) ∙ there, created)

    Does-IsCreated :
        (c : Command M) (r : Reply c) (before after : Docs)
        → Leaves id c
        → Does types decode c r true before after
        → IsCreated id time before
        → IsCreated id time after
    Does-IsCreated (save m) (ok _) before after l s = IsSaved-IsCreated m before after l s
    Does-IsCreated (save m) (err _) before after l (inl s) = Same-IsCreated before after s
    Does-IsCreated (save m) (err _) before after l (inr s) = IsSaved-IsCreated m before after l s
    Does-IsCreated (delete other) (ok _) before after l d =
        IsDeleted-IsCreated other before after l d
    Does-IsCreated (delete other) (err _) before after l (inl s) = Same-IsCreated before after s
    Does-IsCreated (delete other) (err _) before after l (inr d) =
        IsDeleted-IsCreated other before after l d
    Does-IsCreated (exists other) (ok _) before after l (_, s) = Same-IsCreated before after s
    Does-IsCreated (exists other) (err _) before after l s = Same-IsCreated before after s
    Does-IsCreated (find other) (ok _) before after l (_, s) = Same-IsCreated before after s
    Does-IsCreated (find other) (err _) before after l s = Same-IsCreated before after s

    -- Over a reliable driver, no sequence of Save, DeleteByID, Exists and FindOneByID in which each look
    -- of a Save returns changes the time of the creation of a document, whichever other calls fail,
    -- if no command deletes the document and no model has a field `createdOn` of its own.
    pub run-IsCreated :
        {W : Type 0} (col : Driver W M) (db : Reliable col decode) (cs : List (Command M)) (w : W)
        → All (Leaves id) cs
        → All (λ e. e.counted ≡ true) (run col types cs w).0
        → IsCreated id time (docs col types decode db w)
        → IsCreated id time (docs col types decode db (run col types cs w).1)
    unfolding run
    run-IsCreated col db [] w _ _ created = created
    run-IsCreated col db (c ∷ cs) w (l, ls) (k, ks) created =
        run-IsCreated col db cs (execute col types c w).1 ls ks (
          Does-IsCreated c (execute col types c w).0 (docs col types decode db w)
            (docs col types decode db (execute col types c w).1) l
            (rw k at (execute-Does col types decode db c w)) created)
