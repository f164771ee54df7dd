-- ===== src/Tests/OdmHistoryRuns.antt =====
-- Histories of a collection, at documents in memory.
use go_api_boot.Base.{
  ℕ, Str, codes, [], ◌∷◌, List, Bool, true, false, Option, none, some, Result, ok, err, ◌≡◌, ◌≢◌,
  inl, inr, refl, Bool-cases, ◌==◌, ==_iff, str_eq, str_beq, if◌then◌else◌,
}
use go_api_boot.Base.Dict.{lookup, insert}
use go_api_boot.Odm.{string, int64, Fields}
use go_api_boot.Odm.Collection.{Driver, Model, by_id, save_doc}
use go_api_boot.Odm.Collection
use go_api_boot.Odm.Saving.{merge, fields_of, number_of, Documented}
use go_api_boot.Odm.Abstract.{Docs, save, delete, exists, find, Leads, SameBut}
use go_api_boot.Odm.Reliable.{Reliable}
use go_api_boot.Odm.Refine.{execute, run, counted, run-Leads}
use go_api_boot.Odm.Race.{looking, writing, interleave, advance}
use go_api_boot.Odm.Race.Twice.{IsNew, race_creates_twice}
use go_api_boot.Odm.History.{IsCreated, run-IsCreated}

abbrev id_of : Fields → Str
id_of ((_, string id) ∷ _) = id
id_of _ = []

abbrev put : Str → Option Fields → Docs → Docs
put id o w j = if j == id then o else w j

put_others : (id : Str) (o : Option Fields) (w : Docs) → SameBut id w (put id o w)
put_others id o w j n = elim (Bool-cases (j == id)) [
  | inl e ↦ absurd (n ((==_iff j id).0 e))
  | inr e ↦ rw e refl
]

put_self : (id : Str) (o : Option Fields) (w : Docs) → put id o w id ≡ o
put_self id o w = rw ((==_iff id id).1 refl) refl

abbrev found : Option Fields → Result Str Fields
found none = err (codes "mongo: no documents in result")
found (some doc) = ok doc

abbrev number : Option Fields → Docs → ℕ
number none w = 0
number (some filter) w = number_of (w (id_of filter))

-- The collection holds documents in memory.
abbrev memory : Driver Docs Fields
memory = record {
  count_documents = λ filter w. (ok (number filter w), w);
  upsert_one = λ filter doc w.
      let id = id_of filter in (ok tt, put id (some (merge doc (fields_of (w id)))) w);
  find_one = λ filter w. (found (w (id_of filter)), w);
  find = λ filter options w. (ok [], w);
  delete_one = λ filter w. (ok tt, put (id_of filter) none w);
  distinct = λ name filter w. (ok [], w);
  aggregate = λ pipeline w. (ok [], w);
  aggregate_hits = λ pipeline w. (ok [], w);
  now = λ w. (42, w);
  vector = λ xs. xs;
}

abbrev as_model : Fields → Result Str Fields
as_model doc = ok doc

abbrev the_count : ℕ → Result Str ℕ
the_count n = ok n

abbrev the_done : Result Str (Unit {0})
the_done = ok tt

ok_injective : {m n : ℕ} → the_count m ≡ the_count n → n ≡ m
ok_injective x = cc x

found-some :
    (o : Option Fields) {m : Fields}
    → found o ≡ ok m
    → (doc : Fields) × (o ≡ some doc) × (as_model doc ≡ ok m)
found-some none x = cc x
found-some (some doc) x = (doc, refl, x)

abbrev memory_documented : Documented memory
memory_documented = record {
  stored = λ w id. w id;
  count-stored = λ id w n x. ok_injective x;
  stored-count = λ id w j. refl;
  stored-now = λ w j. refl;
  stored-upsert = λ id doc w x. put_self id (some (merge doc (fields_of (w id)))) w;
}

never_fails : {e : Str} {P : Type 0} → the_done ≡ err e → P
never_fails x = cc x

abbrev memory_reliable : Reliable memory as_model
memory_reliable = record {
  base = memory_documented;
  upsert-others = λ id doc w. put_others id (some (merge doc (fields_of (w id)))) w;
  upsert-fails = λ id doc w x. never_fails x;
  delete-others = λ id w. put_others id none w;
  delete-done = λ id w x. put_self id none w;
  delete-fails = λ id w x. never_fails x;
  find-keeps = λ id w j. refl;
  find-found = λ id w x. found-some (w id) x;
}

abbrev models : Model Fields
models = record { id = λ m. codes "a"; convert_to_bson = λ m. ok m }

abbrev named : Fields
named = (codes "name", string (codes "Ann")) ∷ []

-- A document that was created at time 7.
abbrev old_doc : Fields
old_doc = (codes "_id", string (codes "a")) ∷ (codes "createdOn", int64 7) ∷ []

abbrev one_stored : Docs
one_stored j = if j == codes "a" then some old_doc else none

run-Leads_example :
    Leads models as_model
      (run memory models (save named ∷ delete (codes "b") ∷ find (codes "a") ∷ []) one_stored).0
      one_stored
      (run memory models (save named ∷ delete (codes "b") ∷ find (codes "a") ∷ []) one_stored).1
run-Leads_example =
    run-Leads memory models as_model memory_reliable
      (save named ∷ delete (codes "b") ∷ find (codes "a") ∷ []) one_stored

other_id : codes "b" ≢ codes "a"
unfolding str_beq
other_id e = let wrong : false ≡ true = (==_iff (codes "b") (codes "a")).1 e in cc wrong

run-IsCreated_example :
    IsCreated
      (codes "a")
      (int64 7)
      (run memory models (save named ∷ delete (codes "b") ∷ []) one_stored).1
unfolding lookup str_beq run Collection.exists
run-IsCreated_example =
    run-IsCreated models as_model (codes "a") (int64 7) memory memory_reliable
      (save named ∷ delete (codes "b") ∷ []) one_stored (refl, (other_id, tt)) (refl, (refl, tt))
      (old_doc, refl, refl)

-- A second Save of the document finds it.
run_save_twice :
    (run memory models (exists (codes "a") ∷ save named ∷ exists (codes "a") ∷ []) (λ j. none)).0
    ≡ (record { command = exists (codes "a"); reply = ok false; counted = true }
        ∷ record { command = save named; reply = ok tt; counted = true }
        ∷ record { command = exists (codes "a"); reply = ok true; counted = true }
        ∷ [])
unfolding run execute counted Collection.save Collection.exists save_doc insert str_beq lookup merge
run_save_twice = refl

-- Its counts fail.
abbrev miscounting : Driver Docs Fields
miscounting = record memory { count_documents = λ filter w. (err (codes "no count"), w) }

-- A Save whose look failed replaces the time of the creation.
run_miscounting :
    (run miscounting models (save named ∷ []) one_stored).1 (codes "a")
    ≡ some (
        (codes "_id", string (codes "a"))
        ∷ (codes "createdOn", int64 42)
        ∷ (codes "name", string (codes "Ann"))
        ∷ [])
unfolding run execute counted Collection.save Collection.exists save_doc insert str_beq lookup merge
run_miscounting = refl

abbrev nothing : Docs
nothing j = none

abbrev first_ahead : List Bool
first_ahead = true ∷ false ∷ true ∷ true ∷ false ∷ []

-- The first Save has returned, and the second is about to write.
abbrev one_written : Docs
one_written = (interleave memory first_ahead (codes "a") named [] looking looking nothing).1

race_creates_twice_example :
    ((old : Fields) × (earlier : ℕ) × IsNew (one_written (codes "a")) earlier old)
    × ((new : Fields) × IsNew
          ((advance memory (codes "a") [] (writing false 42) one_written).1 (codes "a"))
          42
          new)
unfolding lookup str_beq interleave advance Collection.exists
race_creates_twice_example =
    race_creates_twice memory models as_model memory_reliable true (true ∷ true ∷ false ∷ [])
      (codes "a") named [] nothing false 42 one_written refl refl refl refl refl
