-- ===== src/Odm/Client.antt =====
-- odm/client.go, and what odm/odm_collection.go makes of a client and of a model. The driver and the
-- package `bson` are arguments.
use go_api_boot.Base.{
  Str, codes, Option, none, some, Result, ok, err, ◌==◌, str_eq, str_beq, nat_eq, if◌then◌else◌,
}
use go_api_boot.Base.Exec.{Exec}
use go_api_boot.Auth.{getenv}
use go_api_boot.Dotenv.{Env}

-- A client `C`, and a collection `L` of a database.
pub record MongoDriver (W C L : Type 0) : Type 0 where
  pub connect : Str → Exec W Str C
  pub ping : C → Exec W Str (Unit {0})
  pub collection : C → Str → Str → L

module _ {W C L : Type 0} (driver : MongoDriver W C L) where
  -- A client that does not answer ends the process: none.
  unfoldable pub pinged : C → Result Str (Unit {0}) → Option C
  pinged client (ok _) = some client
  pinged client (err _) = none

  unfoldable pub ping_client : Result Str C → W → Option C × W
  unfolding pinged
  ping_client (err _) w = (none, w)
  ping_client (ok client) w = let (r, w') = driver.ping client w in (pinged client r, w')

  -- ProvideMongoClient
  unfoldable pub provide_mongo_client : Env → W → Option C × W
  unfolding ping_client getenv str_beq
  provide_mongo_client env w =
      let mongo_uri = getenv env (codes "MONGO_URI") in
      if mongo_uri == codes ""
      then (none, w)
      else (let (r, w') = driver.connect mongo_uri w in ping_client r w')

  -- CollectionOf, with the name of the zero model's collection.
  unfoldable pub collection_of : Str → C → Str → L
  collection_of collection_name client tenant = driver.collection client tenant collection_name

-- convertToBson; the document that comes with an error is not looked at.
unfoldable pub unmarshalled :
    {D : Type 0} → (Str → Result Str (Unit {0}) × D) → Result Str Str → Result Str D
unmarshalled unmarshal (err e) = err e
unmarshalled unmarshal (ok bytes) = elim (unmarshal bytes).0 [
  | ok _ ↦ ok (unmarshal bytes).1
  | err e ↦ err e
]

unfoldable pub convert_to_bson :
    {M D : Type 0} → (M → Result Str Str) → (Str → Result Str (Unit {0}) × D) → M → Result Str D
unfolding unmarshalled
convert_to_bson marshal unmarshal model = unmarshalled unmarshal (marshal model)
