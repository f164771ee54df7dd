-- ===== src/Odm/Race/Twice.antt =====
-- Two calls of Save in odm/odm_collection.go that both find no document.
use go_api_boot.Base.{
  ℕ, not, ok, err, Option, Result-cases, inl, inr, subst, sym, Str, codes, List, [], ◌∷◌, Bool,
  true, false, none, some, Result, ◌≡◌, refl, ◌∙◌, str_eq, str_beq, nat_eq,
}
use go_api_boot.Base.Dict.{lookup}
use go_api_boot.Odm.{int64, Fields}
use go_api_boot.Odm.Collection.{Driver, Model, by_id, exists, is_found}
use go_api_boot.Odm.Saving.{
  is_found-exists, merge, fields_of, stamped_by, merge-stamped_by, stored-exists,
}
use go_api_boot.Odm.Reliable.{Reliable, docs}
use go_api_boot.Odm.Race.{Stage, looking, timing, writing, done, advance, interleave}

-- It has looked, and found nothing.
abbrev HasMissed : Stage → Type 0
HasMissed looking = ⊥
HasMissed (timing found) = found ≡ false
HasMissed (writing found time) = found ≡ false
HasMissed (done r) = Unit

-- The document, if it is there, was created at a time, and never updated.
abbrev pub IsNotUpdated : Option Fields → Type 0
IsNotUpdated none = Unit
IsNotUpdated (some new) =
    (time : ℕ) × (lookup (codes "createdOn") new ≡ some (int64 time))
    × (lookup (codes "updatedOn") new ≡ none)

-- The document is there, with this time of its creation, and was never updated.
abbrev pub IsNew : Option Fields → ℕ → Fields → Type 0
IsNew o time new =
    (o ≡ some new)
    × (lookup (codes "createdOn") new ≡ some (int64 time))
    × (lookup (codes "updatedOn") new ≡ none)

-- A Save that returned has left a document.
abbrev HasWritten : Stage → Option Fields → Type 0
HasWritten (done (ok _)) o = (new : Fields) × (o ≡ some new)
HasWritten _ o = Unit

abbrev the_done : Result Str (Unit {0}) → Stage
the_done r = done r

done_injective : {a b : Result Str (Unit {0})} → the_done a ≡ done b → a ≡ b
done_injective x = cc x

fields_of-none :
    (o : Option Fields) → IsNotUpdated o → lookup (codes "updatedOn") (fields_of o) ≡ none
unfolding lookup
fields_of-none none h = refl
fields_of-none (some new) (time, created, n) = n

module _ {W M : Type 0} (col : Driver W M) where
  module _ (types : Model M) (decode : Fields → Result Str M) (db : Reliable col decode) where
    abbrev pub the_doc : Str → W → Option Fields
    the_doc id w = docs col types decode db w id

    look_fresh :
        (id : Str) (w : W)
        → the_doc id w ≡ none
        → (is_found col (exists col id w).0 ≡ false) × (the_doc id (exists col id w).1 ≡ none)
    look_fresh id w fresh =
        (is_found-exists col db.base id w fresh, stored-exists col db.base id w id ∙ fresh)

    -- What a write of a Save that found nothing makes of a document that was never updated.
    create :
        (id : Str) (doc : Fields) (time : ℕ) (o : Option Fields)
        → lookup (codes "updatedOn") doc ≡ none
        → IsNotUpdated o
        → IsNew
            (some (merge (stamped_by col id doc false time) (fields_of o)))
            time
            (merge (stamped_by col id doc false time) (fields_of o))
    unfolding str_beq
    create id doc time o n h = (
      refl,
      merge-stamped_by col id doc (fields_of o) false time (codes "createdOn"),
      merge-stamped_by col id doc (fields_of o) false time (codes "updatedOn")
          ∙ rw n (fields_of-none o h),
    )

    -- What holds between two calls: neither updates, and what returned has written.
    record IsRacing (id : Str) (s1 s2 : Stage) (w : W) : Type 0 where
      missed1 : HasMissed s1
      missed2 : HasMissed s2
      written1 : HasWritten s1 (the_doc id w)
      written2 : HasWritten s2 (the_doc id w)
      plain : IsNotUpdated (the_doc id w)

    -- The document stays if it was there.
    abbrev Stays : Str → W → W → Type 0
    Stays id w w' = (s : Stage) → HasWritten s (the_doc id w) → HasWritten s (the_doc id w')

    kept_by : (s : Stage) (o p : Option Fields) → p ≡ o → HasWritten s o → HasWritten s p
    kept_by s o p same h = subst (HasWritten s) (sym same) h

    any_written : (s : Stage) (o : Option Fields) (new : Fields) → o ≡ some new → HasWritten s o
    any_written looking o new x = tt
    any_written (timing found) o new x = tt
    any_written (writing found time) o new x = tt
    any_written (done (ok u)) o new x = (new, x)
    any_written (done (err e)) o new x = tt

    -- A write of a Save that found nothing, whether it fails or not.
    upsert_racing :
        (id : Str) (doc : Fields) (time : ℕ) (w : W)
        → lookup (codes "updatedOn") doc ≡ none
        → IsNotUpdated (the_doc id w)
        → let r = col.upsert_one (by_id id) (stamped_by col id doc false time) w in
          HasWritten (done r.0) (the_doc id r.1) × Stays id w r.1 × IsNotUpdated (the_doc id r.1)
    upsert_racing id doc time w n h =
        let new = stamped_by col id doc false time in
        let (x0, created, plain) = create id doc time (the_doc id w) n h in
        let full = merge new (fields_of (the_doc id w)) in
        elim (Result-cases (col.upsert_one (by_id id) new w).0) [
          | inl (u, x) ↦
              let there = db.base.stored-upsert id new w x in
              (
                any_written (done (col.upsert_one (by_id id) new w).0) _ full there,
                (λ s _. any_written s _ full there),
                subst IsNotUpdated (sym there) (time, created, plain),
              )
          | inr (e, x) ↦ elim (db.upsert-fails id new w x) [
            | inl same ↦ (
              subst (λ r. HasWritten (done r) (the_doc id (col.upsert_one (by_id id) new w).1))
                  (sym x) tt,
              (λ s k. kept_by s _ _ same k),
              subst IsNotUpdated (sym same) h,
            )
            | inr there ↦ (
              any_written (done (col.upsert_one (by_id id) new w).0) _ full there,
              (λ s _. any_written s _ full there),
              subst IsNotUpdated (sym there) (time, created, plain),
            )
          ]
        ]

    advance_racing :
        (id : Str) (doc : Fields) (s : Stage) (w : W)
        → lookup (codes "updatedOn") doc ≡ none
        → HasMissed s
        → HasWritten s (the_doc id w)
        → IsNotUpdated (the_doc id w)
        → HasMissed (advance col id doc s w).0
          × HasWritten (advance col id doc s w).0 (the_doc id (advance col id doc s w).1)
          × Stays id w (advance col id doc s w).1
          × IsNotUpdated (the_doc id (advance col id doc s w).1)
    unfolding advance
    advance_racing id doc looking w n m k h = absurd m
    advance_racing id doc (timing found) w n m k h =
        let same = db.base.stored-now w id in
        (m, tt, (λ s l. kept_by s _ _ same l), subst IsNotUpdated (sym same) h)
    advance_racing id doc (writing found time) w n m k h =
        let (a, b, c) = upsert_racing id doc time w n h in rw m (tt, a, b, c)
    advance_racing id doc (done r) w n m k h = (m, k, (λ s l. l), h)

    interleave-IsRacing :
        (bs : List Bool) (id : Str) (doc1 doc2 : Fields) (s1 s2 : Stage) (w : W)
        → lookup (codes "updatedOn") doc1 ≡ none
        → lookup (codes "updatedOn") doc2 ≡ none
        → IsRacing id s1 s2 w
        → let r = interleave col bs id doc1 doc2 s1 s2 w in IsRacing id r.0.0 r.0.1 r.1
    unfolding interleave
    interleave-IsRacing [] id doc1 doc2 s1 s2 w n1 n2 h = h
    interleave-IsRacing (true ∷ bs) id doc1 doc2 s1 s2 w n1 n2 h =
        let (a, b, c, d) = advance_racing id doc1 s1 w n1 h.missed1 h.written1 h.plain in
        interleave-IsRacing bs id doc1 doc2 (advance col id doc1 s1 w).0 s2
          (advance col id doc1 s1 w).1 n1 n2
          (record {
            missed1 = a;
            missed2 = h.missed2;
            written1 = b;
            written2 = c s2 h.written2;
            plain = d;
          })
    interleave-IsRacing (false ∷ bs) id doc1 doc2 s1 s2 w n1 n2 h =
        let (a, b, c, d) = advance_racing id doc2 s2 w n2 h.missed2 h.written2 h.plain in
        interleave-IsRacing bs id doc1 doc2 s1 (advance col id doc2 s2 w).0
          (advance col id doc2 s2 w).1 n1 n2
          (record {
            missed1 = h.missed1;
            missed2 = a;
            written1 = c s1 h.written1;
            written2 = b;
            plain = d;
          })

    both_look :
        (first : Bool) (bs : List Bool) (id : Str) (doc1 doc2 : Fields) (w : W)
        → the_doc id w ≡ none
        → lookup (codes "updatedOn") doc1 ≡ none
        → lookup (codes "updatedOn") doc2 ≡ none
        → let r = interleave col (first ∷ not first ∷ bs) id doc1 doc2 looking looking w in
          IsRacing id r.0.0 r.0.1 r.1
    unfolding interleave advance
    both_look true bs id doc1 doc2 w fresh n1 n2 =
        let wa = (exists col id w).1 in
        let (f1, fresh1) = look_fresh id w fresh in
        let (f2, fresh2) = look_fresh id wa fresh1 in
        interleave-IsRacing bs id doc1 doc2 (timing (is_found col (exists col id w).0))
          (timing (is_found col (exists col id wa).0)) (exists col id wa).1 n1 n2
          (record {
            missed1 = f1;
            missed2 = f2;
            written1 = tt;
            written2 = tt;
            plain = rw fresh2 tt;
          })
    both_look false bs id doc1 doc2 w fresh n1 n2 =
        let wa = (exists col id w).1 in
        let (f1, fresh1) = look_fresh id w fresh in
        let (f2, fresh2) = look_fresh id wa fresh1 in
        interleave-IsRacing bs id doc1 doc2 (timing (is_found col (exists col id wa).0))
          (timing (is_found col (exists col id w).0)) (exists col id wa).1 n1 n2
          (record {
            missed1 = f2;
            missed2 = f1;
            written1 = tt;
            written2 = tt;
            plain = rw fresh2 tt;
          })

    -- What the later write leaves.
    later_write :
        (id : Str) (doc : Fields) (time : ℕ) (w : W) {v : Unit {0}}
        → lookup (codes "updatedOn") doc ≡ none
        → IsNotUpdated (the_doc id w)
        → (advance col id doc (writing false time) w).0 ≡ done (ok v)
        → (new : Fields) × IsNew (the_doc id (advance col id doc (writing false time) w).1) time new
    unfolding advance
    later_write id doc time w n h x =
        let new = stamped_by col id doc false time in
        let (_, created, plain) = create id doc time (the_doc id w) n h in
        (
          merge new (fields_of (the_doc id w)),
          (db.base.stored-upsert id new w (done_injective x), created, plain),
        )

    old_document :
        (o : Option Fields) (old : Fields)
        → o ≡ some old
        → IsNotUpdated o
        → (time : ℕ) × IsNew o time old
    old_document o old x h =
        let (time, created, plain) = subst IsNotUpdated x h in (time, (x, created, plain))

    -- Over a driver whose calls may fail, two calls of Save for one `_id` that is not stored, of which
    -- each looks before the other does anything else, in either order, with their other calls in any
    -- order: when one has returned, and the other then writes and returns too, the document was
    -- created by the first at one time, and is then created anew by the second, with its own time in
    -- place of the first one's; there is no time of an update, before and behind that, if the models
    -- have no field `updatedOn`.
    pub race_creates_twice :
        (first : Bool) (bs : List Bool) (id : Str) (doc1 doc2 : Fields) (w : W) (found : Bool)
        (time : ℕ) (w' : W) {u v : Unit {0}}
        → the_doc id w ≡ none
        → lookup (codes "updatedOn") doc1 ≡ none
        → lookup (codes "updatedOn") doc2 ≡ none
        → interleave col (first ∷ not first ∷ bs) id doc1 doc2 looking looking w
          ≡ ((done (ok u), writing found time), w')
        → (advance col id doc2 (writing found time) w').0 ≡ done (ok v)
        → ((old : Fields) × (earlier : ℕ) × IsNew (the_doc id w') earlier old)
          × ((new : Fields) × IsNew
                (the_doc id (advance col id doc2 (writing found time) w').1)
                time
                new)
    race_creates_twice first bs id doc1 doc2 w found time w' fresh n1 n2 reached x =
        let racing =
          subst (λ r. IsRacing id r.0.0 r.0.1 r.1) reached
            (both_look first bs id doc1 doc2 w fresh n1 n2) in
        let (old, there) = racing.written1 in
        let (earlier, made) = old_document (the_doc id w') old there racing.plain in
        let missed = racing.missed2 in
        (
          (old, earlier, made),
          rw missed (later_write id doc2 time w' n2 racing.plain (rw missed at x)),
        )
