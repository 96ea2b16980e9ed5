-- ===== src/Output/Data.antt =====
-- playground/artifacts.go: what `WriteFile` makes of the kinds of data, `WriteBatch`, and the keystore of
-- the validators. Paths are relative to the output folder.
use builder_playground.Prelude.{
  code, String, List, [], ◌∷◌, eqb, if◌then◌else◌, ◌⊕◌, Result, ok, err, ◌>>=◌, Stop, fails, raised,
  ◌==◌, GoMap, insert,
}
use builder_playground.Output.{Output, write_file}

-- A folder with the contents of its files.
pub record Disk : Type 0 where
  pub folder : Output
  pub contents : GoMap String

-- A key of a validator: its public half in hex, and its JSON file, or the error of the encryption or of
-- the encoding.
pub record SecretKey : Type 0 where
  pub pub_key : String
  pub voting_keystore : Result String String

-- The kinds of data between which `WriteFile` chooses, with what their encoding gives.
pub data Datum : Type 0 where
  bytes text : String → Datum
  ssz_object : Result String String → Datum
  lighthouse_keystore : List SecretKey → Datum
  enc_fn : Result Stop String → Datum
  -- Anything else, with its JSON and its YAML.
  object : Result String String → Result String String → Datum

-- filepath.Ext, with the extension that the part before this one has.
unfoldable pub ext_after : String → String → String
ext_after cur String.[] = cur
ext_after cur (String.◌∷◌ c s) =
    ext_after (if eqb (code c) b'/' then "" else if eqb (code c) b'.' then String.◌∷◌ c s else cur)
      s

unfoldable pub ext : String → String
unfolding ext_after
ext path = ext_after "" path

unfoldable pub object_data :
    String → Result String String → Result String String → Result Stop String
object_data extension json yaml =
    if extension == ".json"
    then raised json
    else if extension == ".yaml"
    then raised yaml
    else err (fails ("unsupported file extension: " ⊕ extension))

-- The end of `WriteFile`.
unfoldable pub write_raw : String → Disk → String → Result Stop Disk
unfolding write_file insert
write_raw path disk raw = do
  folder ← raised (write_file path disk.folder)
  ok (record { folder = folder; contents = insert path raw disk.contents })

abbrev pub secret : String
secret = "secret"

-- The two files of a key.
abbrev pub keystore_path : String → SecretKey → String
keystore_path dst key = dst ⊕ "/validators/0x" ⊕ key.pub_key ⊕ "/voting-keystore.json"

abbrev pub secret_path : String → SecretKey → String
secret_path dst key = dst ⊕ "/secrets/0x" ⊕ key.pub_key

unfoldable pub write_key : String → Disk → SecretKey → Result Stop Disk
unfolding write_raw
write_key dst disk key = do
  val_json ← raised key.voting_keystore
  d1 ← write_raw (keystore_path dst key) disk val_json
  write_raw (secret_path dst key) d1 secret

-- `lighthouseKeystore.Encode`
unfoldable pub encode : String → Disk → List SecretKey → Result Stop Disk
unfolding write_key
encode dst disk [] = ok disk
encode dst disk (key ∷ keys) = write_key dst disk key >>= λ next. encode dst next keys

-- `WriteFile`
unfoldable pub write_data : String → Datum → Disk → Result Stop Disk
unfolding write_raw encode object_data ext
write_data dst (bytes raw) disk = write_raw dst disk raw
write_data dst (text raw) disk = write_raw dst disk raw
write_data dst (ssz_object raw) disk = raised raw >>= write_raw dst disk
write_data dst (lighthouse_keystore keys) disk = encode dst disk keys
write_data dst (enc_fn raw) disk = raw >>= write_raw dst disk
write_data dst (object json yaml) disk = object_data (ext dst) json yaml >>= write_raw dst disk

-- `WriteBatch`, with the order in which Go visits the map.
unfoldable pub write_batch : GoMap Datum → Disk → Result Stop Disk
unfolding write_data
write_batch [] disk = ok disk
write_batch ((dst, datum) ∷ more) disk = write_data dst datum disk >>= write_batch more
