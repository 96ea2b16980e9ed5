-- ===== src/Output/Free.antt =====
-- `WriteFile` and `WriteBatch` of playground/artifacts.go where no path is refused and every datum can be
-- encoded.
use builder_playground.Prelude.{
  String, false, none, List, [], ◌∷◌, ◌++◌, ◌≡◌, refl, any, raised, GoMap, Succeeds, ◌==◌, Returns,
  Returns-ok, Returns-bind, Succeeds-raised, All,
}
use builder_playground.Output.{parents, write_file}
use builder_playground.Output.Data.{
  Disk, SecretKey, Datum, bytes, text, ssz_object, lighthouse_keystore, enc_fn, object, ext,
  object_data, write_raw, secret, keystore_path, secret_path, write_key, encode, write_data,
  write_batch,
}

-- No path of the folder is refused, and no enode key was drawn yet.
abbrev pub Free : Disk → Type 0
Free disk = (disk.folder.faults ≡ []) × (disk.folder.enode_addr_seq ≡ none)

none_contained : (ps : List String) → any (λ p. any (λ q. q == p) []) ps ≡ false
none_contained [] = refl
none_contained (p ∷ ps) = none_contained ps

write_raw-Free :
    (path : String) (disk : Disk) (raw : String)
    → Free disk
    → Returns Free (write_raw path disk raw)
unfolding write_raw write_file
write_raw-Free path disk raw h =
    rw (h.0, none_contained (parents "" path ++ path ∷ [])) (Returns-ok (refl, h.1))

write_key-Free :
    (dst : String) (disk : Disk) (key : SecretKey)
    → Succeeds key.voting_keystore
    → Free disk
    → Returns Free (write_key dst disk key)
unfolding write_key
write_key-Free dst disk key s h =
    Returns-bind (raised key.voting_keystore) _ (Succeeds-raised key.voting_keystore s)
      λ val_json _.
        Returns-bind (write_raw (keystore_path dst key) disk val_json) _
          (write_raw-Free (keystore_path dst key) disk val_json h)
          λ d1 h1. write_raw-Free (secret_path dst key) d1 secret h1

encode-Free :
    (dst : String) (disk : Disk) (keys : List SecretKey)
    → All (λ key. Succeeds key.voting_keystore) keys
    → Free disk
    → Returns Free (encode dst disk keys)
unfolding encode
encode-Free dst disk [] s h = Returns-ok h
encode-Free dst disk (key ∷ keys) (s, ss) h =
    Returns-bind (write_key dst disk key) (λ next. encode dst next keys)
      (write_key-Free dst disk key s h) λ d1 h1. encode-Free dst d1 keys ss h1

-- The encoding of a datum for a path succeeds.
abbrev pub Encodes : String → Datum → Type 0
Encodes dst (bytes raw) = Unit
Encodes dst (text raw) = Unit
Encodes dst (ssz_object r) = Succeeds r
Encodes dst (lighthouse_keystore keys) = All (λ key. Succeeds key.voting_keystore) keys
Encodes dst (enc_fn r) = Succeeds r
Encodes dst (object json yaml) = Succeeds (object_data (ext dst) json yaml)

pub write_data-Free :
    (dst : String) (datum : Datum) (disk : Disk)
    → Encodes dst datum
    → Free disk
    → Returns Free (write_data dst datum disk)
unfolding write_data
write_data-Free dst (bytes raw) disk s h = write_raw-Free dst disk raw h
write_data-Free dst (text raw) disk s h = write_raw-Free dst disk raw h
write_data-Free dst (ssz_object r) disk s h =
    Returns-bind (raised r) _ (Succeeds-raised r s) λ raw _. write_raw-Free dst disk raw h
write_data-Free dst (lighthouse_keystore keys) disk s h = encode-Free dst disk keys s h
write_data-Free dst (enc_fn r) disk s h = Returns-bind r _ s λ raw _. write_raw-Free dst disk raw h
write_data-Free dst (object json yaml) disk s h =
    Returns-bind (object_data (ext dst) json yaml) _ s λ raw _. write_raw-Free dst disk raw h

pub write_batch-Free :
    (batch : GoMap Datum) (disk : Disk)
    → All (λ entry. Encodes entry.0 entry.1) batch
    → Free disk
    → Returns Free (write_batch batch disk)
unfolding write_batch
write_batch-Free [] disk s h = Returns-ok h
write_batch-Free ((dst, datum) ∷ batch) disk (s, ss) h =
    Returns-bind (write_data dst datum disk) (write_batch batch)
      (write_data-Free dst datum disk s h) λ d1 h1. write_batch-Free batch d1 ss h1
