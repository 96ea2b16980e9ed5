-- ===== src/Output/Written.antt =====
-- What `WriteFile` and `WriteBatch` of playground/artifacts.go leave in the output folder, for every kind
-- of data.
use builder_playground.Prelude.{
  String, List, [], ◌∷◌, ◌++◌, ◌≡◌, refl, raised-eq-ok, All, GoMap, insert, Ensures, Ensures-ok,
  Ensures-bind,
}
use builder_playground.Output.{Output, parents}
use builder_playground.Output.Effects.{AllFound, Keeps, write_file_effect}
use builder_playground.Output.Data.{
  Disk, SecretKey, Datum, bytes, text, ssz_object, lighthouse_keystore, enc_fn, object, write_raw,
  secret, encode, keystore_path, secret_path, write_key, write_data, write_batch,
}

pub Keeps-trans : (a b c : Output) → Keeps a b → Keeps b c → Keeps a c
Keeps-trans a b c h k q f = k q (h q f)

pub AllFound-Keeps : (a b : Output) (ps : List String) → Keeps a b → AllFound a ps → AllFound b ps
AllFound-Keeps a b [] k h = tt
AllFound-Keeps a b (p ∷ ps) k (f, h) = (k p f, AllFound-Keeps a b ps k h)

-- What is read of a folder after a file was written in it.
abbrev pub Wrote : String → String → Disk → Disk → Type 0
Wrote path raw before after =
    AllFound after.folder (parents "" path ++ path ∷ [])
    × Keeps before.folder after.folder
    × (after.contents ≡ insert path raw before.contents)

pub write_raw-Wrote :
    (path : String) (disk : Disk) (raw : String)
    → Ensures (Wrote path raw disk) (write_raw path disk raw)
unfolding write_raw
write_raw-Wrote path disk raw = Ensures-bind _ _ λ folder h.
    let (there, kept) = write_file_effect path disk.folder (raised-eq-ok _ h) in
    Ensures-ok (there, kept, refl)

-- Nothing that was found is lost.
abbrev pub Grows : Disk → Disk → Type 0
Grows before after = Keeps before.folder after.folder

write_raw-Grows :
    (path : String) (disk : Disk) (raw : String) → Ensures (Grows disk) (write_raw path disk raw)
write_raw-Grows path disk raw = record { at = λ d h. ((write_raw-Wrote path disk raw).at d h).1 }

write_key-Grows :
    (dst : String) (disk : Disk) (key : SecretKey) → Ensures (Grows disk) (write_key dst disk key)
unfolding write_key
write_key-Grows dst disk key = Ensures-bind _ _ λ val_json _. Ensures-bind _ _ λ d1 h1. record {
  at = λ d h.
      Keeps-trans disk.folder d1.folder d.folder
        ((write_raw-Grows (keystore_path dst key) disk val_json).at d1 h1)
        ((write_raw-Grows (secret_path dst key) d1 secret).at d h);
}

encode-Grows :
    (dst : String) (disk : Disk) (keys : List SecretKey)
    → Ensures (Grows disk) (encode dst disk keys)
unfolding encode
encode-Grows dst disk [] = Ensures-ok (λ q f. f)
encode-Grows dst disk (key ∷ keys) =
    Ensures-bind (write_key dst disk key) (λ next. encode dst next keys)
      λ d1 h1. record {
        at = λ d h.
            Keeps-trans disk.folder d1.folder d.folder ((write_key-Grows dst disk key).at d1 h1)
              ((encode-Grows dst d1 keys).at d h);
      }

pub write_data-Grows :
    (dst : String) (datum : Datum) (disk : Disk) → Ensures (Grows disk) (write_data dst datum disk)
unfolding write_data
write_data-Grows dst (bytes raw) disk = write_raw-Grows dst disk raw
write_data-Grows dst (text raw) disk = write_raw-Grows dst disk raw
write_data-Grows dst (ssz_object r) disk = Ensures-bind _ _ λ raw _. write_raw-Grows dst disk raw
write_data-Grows dst (lighthouse_keystore keys) disk = encode-Grows dst disk keys
write_data-Grows dst (enc_fn r) disk = Ensures-bind _ _ λ raw _. write_raw-Grows dst disk raw
write_data-Grows dst (object json yaml) disk =
    Ensures-bind _ _ λ raw _. write_raw-Grows dst disk raw

-- The folders and files that are certainly there when data was written.
abbrev pub certain : String → Datum → List String
certain dst (lighthouse_keystore []) = []
certain dst (lighthouse_keystore (key ∷ keys)) = parents "" (keystore_path dst key)
certain dst (bytes raw) = parents "" dst ++ dst ∷ []
certain dst (text raw) = parents "" dst ++ dst ∷ []
certain dst (ssz_object r) = parents "" dst ++ dst ∷ []
certain dst (enc_fn r) = parents "" dst ++ dst ∷ []
certain dst (object json yaml) = parents "" dst ++ dst ∷ []

AllFound-left : (out : Output) (xs ys : List String) → AllFound out (xs ++ ys) → AllFound out xs
AllFound-left out [] ys h = tt
AllFound-left out (x ∷ xs) ys (p, h) = (p, AllFound-left out xs ys h)

write_raw-found :
    (path : String) (disk : Disk) (raw : String)
    → Ensures (λ d. AllFound d.folder (parents "" path ++ path ∷ [])) (write_raw path disk raw)
write_raw-found path disk raw = record { at = λ d h. ((write_raw-Wrote path disk raw).at d h).0 }

write_key-found :
    (dst : String) (disk : Disk) (key : SecretKey)
    → Ensures (λ d. AllFound d.folder (parents "" (keystore_path dst key))) (write_key dst disk key)
unfolding write_key
write_key-found dst disk key =
    let path = keystore_path dst key in
    Ensures-bind _ _ λ val_json _. Ensures-bind _ _ λ d1 h1. record {
      at = λ d h.
          AllFound-Keeps d1.folder d.folder (parents "" path)
            ((write_raw-Grows (secret_path dst key) d1 secret).at d h)
            (AllFound-left d1.folder (parents "" path) (path ∷ [])
              ((write_raw-found path disk val_json).at d1 h1));
    }

encode-found :
    (dst : String) (disk : Disk) (key : SecretKey) (keys : List SecretKey)
    → Ensures
        (λ d. AllFound d.folder (certain dst (lighthouse_keystore (key ∷ keys))))
        (encode dst disk (key ∷ keys))
unfolding encode
encode-found dst disk key keys =
    Ensures-bind (write_key dst disk key) (λ next. encode dst next keys)
      λ d1 h1. record {
        at = λ d h.
            AllFound-Keeps d1.folder d.folder (parents "" (keystore_path dst key))
              ((encode-Grows dst d1 keys).at d h) ((write_key-found dst disk key).at d1 h1);
      }

pub write_data-found :
    (dst : String) (datum : Datum) (disk : Disk)
    → Ensures (λ d. AllFound d.folder (certain dst datum)) (write_data dst datum disk)
unfolding write_data
write_data-found dst (bytes raw) disk = write_raw-found dst disk raw
write_data-found dst (text raw) disk = write_raw-found dst disk raw
write_data-found dst (ssz_object r) disk = Ensures-bind _ _ λ raw _. write_raw-found dst disk raw
write_data-found dst (lighthouse_keystore []) disk = record { at = λ d h. tt }
write_data-found dst (lighthouse_keystore (key ∷ keys)) disk = encode-found dst disk key keys
write_data-found dst (enc_fn r) disk = Ensures-bind _ _ λ raw _. write_raw-found dst disk raw
write_data-found dst (object json yaml) disk =
    Ensures-bind _ _ λ raw _. write_raw-found dst disk raw

-- All that is certain of a batch.
abbrev pub AllCertain : Output → GoMap Datum → Type 0
AllCertain out batch = All (λ entry. AllFound out (certain entry.0 entry.1)) batch

pub write_batch-AllCertain :
    (batch : GoMap Datum) (disk : Disk)
    → Ensures (λ d. Grows disk d × AllCertain d.folder batch) (write_batch batch disk)
unfolding write_batch
write_batch-AllCertain [] disk = Ensures-ok (λ q f. f, tt)
write_batch-AllCertain ((dst, datum) ∷ batch) disk =
    Ensures-bind (write_data dst datum disk) (write_batch batch) λ d1 h1. record {
      at = λ d h.
          let (kept, rest) = (write_batch-AllCertain batch d1).at d h in
          (
            Keeps-trans disk.folder d1.folder d.folder ((write_data-Grows dst datum disk).at d1 h1)
                kept,
            (
              AllFound-Keeps d1.folder d.folder (certain dst datum) kept
                  ((write_data-found dst datum disk).at d1 h1),
              rest,
            ),
          );
    }
