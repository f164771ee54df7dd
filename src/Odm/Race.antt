-- ===== src/Odm/Race.antt =====
-- Two calls of Save in odm/odm_collection.go at once: the calls that each makes of the driver
-- interleave with those of the other.
pub mod Twice
use go_api_boot.Base.{
  ℕ, not, ok, err, Option, Result-cases, inl, inr, subst, sym, zero, suc, Str, codes, List, [], ◌∷◌,
  Bool, true, false, none, some, Result, ◌≡◌, refl, ◌∙◌, str_eq, str_beq, nat_eq, if◌then◌else◌,
}
use go_api_boot.Base.Dict.{lookup, insert}
use go_api_boot.Odm.{int64, Fields}
use go_api_boot.Odm.Collection.{Driver, Model, by_id, exists, is_found, save_doc}
use go_api_boot.Odm.Saving.{
  is_found-exists, merge, fields_of, stamped_by, merge-stamped_by, stored-exists,
}
use go_api_boot.Odm.Reliable.{Reliable, docs}

-- How far a Save is: it has to call Exists, the clock, or UpdateOne, or it has returned.
pub data Stage : Type 0 where
  looking : Stage
  timing : Bool → Stage
  writing : Bool → ℕ → Stage
  done : Result Str (Unit {0}) → Stage

module _ {W M : Type 0} (col : Driver W M) where
  -- The next call of a Save of this document.
  unfoldable pub advance : Str → Fields → Stage → W → Stage × W
  unfolding insert str_beq
  advance id doc looking w = let (found, w') = exists col id w in (timing (is_found col found), w')
  advance id doc (timing found) w = let (time, w') = col.now w in (writing found time, w')
  advance id doc (writing found time) w =
      let (r, w') = col.upsert_one (by_id id) (stamped_by col id doc found time) w in (done r, w')
  advance id doc (done r) w = (done r, w)

  unfoldable pub advance_all : ℕ → Str → Fields → Stage → W → Stage × W
  advance_all zero id doc s w = (s, w)
  advance_all (suc n) id doc s w = let (s', w') = advance id doc s w in advance_all n id doc s' w'

  -- Alone, the three calls are Save behind the conversion.
  advance_all-save_doc :
      (id : Str) (doc : Fields) (w : W)
      → advance_all 3 id doc looking w ≡ (done (save_doc col id doc w).0, (save_doc col id doc w).1)
  unfolding advance_all advance save_doc
  advance_all-save_doc id doc w = refl

  -- Two calls of Save for one `_id`: each entry of the schedule says which of them goes on.
  unfoldable pub interleave :
      List Bool → Str → Fields → Fields → Stage → Stage → W → (Stage × Stage) × W
  interleave [] id doc1 doc2 s1 s2 w = ((s1, s2), w)
  interleave (b ∷ bs) id doc1 doc2 s1 s2 w =
      if b
      then (let (s, w') = advance id doc1 s1 w in interleave bs id doc1 doc2 s s2 w')
      else (let (s, w') = advance id doc2 s2 w in interleave bs id doc1 doc2 s1 s w')
