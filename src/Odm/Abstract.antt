-- ===== src/Odm/Abstract.antt =====
-- What a collection promises to its users, whatever the driver is: documents by their `_id`, and what
-- each operation may do with them, when it returns and when it fails.
use go_api_boot.Base.{
  Str, codes, List, [], ◌∷◌, Bool, true, false, Option, none, some, Result, ok, err, ℕ, ◌≡◌, ◌≢◌,
  ◌⊎◌,
}
use go_api_boot.Odm.{Fields}
use go_api_boot.Odm.Collection.{Model}
use go_api_boot.Odm.Saving.{IsStamped, fields_of}

abbrev pub Docs : Type 0
Docs = Str → Option Fields

pub data Command (M : Type 0) : Type 0 where
  save : M → Command M
  delete : Str → Command M
  exists : Str → Command M
  find : Str → Command M

-- What a command returns without an error.
abbrev pub Answer : {M : Type 0} → Command M → Type 0
Answer (save _) = Unit
Answer (delete _) = Unit
Answer (exists _) = Bool
Answer {M} (find _) = M

abbrev pub Reply : {M : Type 0} → Command M → Type 0
Reply c = Result Str (Answer c)

-- A command, its reply, and whether the look of a Save for the document returned: Save drops the
-- error of this look.
pub record Event (M : Type 0) : Type 0 where
  pub command : Command M
  pub reply : Reply command
  pub counted : Bool

abbrev pub Same : Docs → Docs → Type 0
Same before after = (j : Str) → after j ≡ before j

abbrev pub SameBut : Str → Docs → Docs → Type 0
SameBut id before after = (j : Str) → j ≢ id → after j ≡ before j

-- The key of the time: that of the creation for a document that is not there.
abbrev pub key_of : Option Fields → Str
key_of none = codes "createdOn"
key_of (some _) = codes "updatedOn"

-- A Save whose look failed takes every document for a new one.
abbrev pub key_after : Bool → Option Fields → Str
key_after true o = key_of o
key_after false o = codes "createdOn"

abbrev pub is_some : Option Fields → Bool
is_some none = false
is_some (some _) = true

module _ {M : Type 0} (types : Model M) (decode : Fields → Result Str M) where
  -- The model was written: its fields replace those of the document, beside a time.
  pub record IsSaved (m : M) (counted : Bool) (before after : Docs) : Type 0 where
    pub doc : Fields
    pub converts : types.convert_to_bson m ≡ ok doc
    pub time : ℕ
    pub new : Fields
    pub there : after (types.id m) ≡ some new
    pub stamped :
        IsStamped
          (types.id m)
          doc
          (fields_of (before (types.id m)))
          (key_after counted (before (types.id m)))
          time
          new
    pub others : SameBut (types.id m) before after

  pub record IsDeleted (id : Str) (before after : Docs) : Type 0 where
    pub gone : after id ≡ none
    pub others : SameBut id before after

  -- What a command with this reply does. A write that failed was carried out, or it was not.
  abbrev pub Does : (c : Command M) → Reply c → Bool → Docs → Docs → Type 0
  Does (save m) (ok _) counted before after = IsSaved m counted before after
  Does (save m) (err _) counted before after = Same before after ⊎ IsSaved m counted before after
  Does (delete id) (ok _) counted before after = IsDeleted id before after
  Does (delete id) (err _) counted before after = Same before after ⊎ IsDeleted id before after
  Does (exists id) (ok b) counted before after = (b ≡ is_some (before id)) × Same before after
  Does (exists id) (err _) counted before after = Same before after
  Does (find id) (ok m) counted before after =
      ((doc : Fields) × (before id ≡ some doc) × (decode doc ≡ ok m)) × Same before after
  Does (find id) (err _) counted before after = Same before after

  -- A history that leads from some documents to others.
  abbrev pub Leads : List (Event M) → Docs → Docs → Type 0
  Leads [] before after = Same before after
  Leads (e ∷ events) before after =
      (between : Docs) × Does e.command e.reply e.counted before between
      × Leads events between after
