-- ===== src/Manifest/Json/RoundTrip.antt =====
-- A manifest of playground/manifest.go that is saved is read back.
use builder_playground.Prelude.{
  ℕ, ◌*◌, ◌^◌, ◌<◌, String, true, Option, none, some, List, [], ◌∷◌, ◌≡◌, refl, sym, ap, ◌∙◌, ltb,
  ◌==◌, eq_iff, Bool-cases, inl, inr, if◌then◌else◌, ok, GoMap, lookup, All, arith,
}
use native.Mathlib.Nat.{mul-div_cancel}
use builder_playground.Prelude.Dict.Laws.{lookup-insert}
use builder_playground.Output.Data.{Disk, ext, object_data, write_data}
use builder_playground.Output.Written.{write_raw-Wrote}
use builder_playground.Flag.Numbers.{parse_digits-decimal}
use builder_playground.Genesis.{Json, get_field}
use builder_playground.Service.{Service, ReadyCheck, DependsOn}
use builder_playground.Service.FirstPass.{Port, NodeRef}
use builder_playground.Manifest.{Manifest}
use builder_playground.Manifest.Json.{
  Codec, string_codec, in_int, marshal_int, unmarshal_int, int_codec, duration_codec, list_codec,
  pointer_codec, member_of, member, map_codec, unless_empty, unless_nil, unless_blank,
  unless_no_keys, present,
}
use builder_playground.Manifest.Json.Structs.{
  ready_check_codec, depends_on_codec, port_codec, node_ref_codec, service_entries, service_codec,
  marshal_manifest, unmarshal_manifest, Text, save_json, read_manifest,
}

-- A value is read back.
abbrev Back : {A : Type 0} → Codec A → A → Type 0
Back c a = c.unmarshal (c.marshal a) ≡ ok a

abbrev or_else : Option Json → Option Json → Option Json
or_else none o = o
or_else (some j) o = some j

abbrev at_key : String → List (String × Option Json) → Option Json
at_key key [] = none
at_key key ((k, o) ∷ entries) =
    if k == key then or_else o (at_key key entries) else at_key key entries

get_field-present :
    (key : String) (entries : List (String × Option Json))
    → get_field key (present entries) ≡ at_key key entries
get_field-present key [] = refl
get_field-present key ((k, none) ∷ entries) = elim (Bool-cases (k == key)) [
  | inl e ↦ rw e (get_field-present key entries)
  | inr e ↦ rw e (get_field-present key entries)
]
get_field-present key ((k, some j) ∷ entries) = elim (Bool-cases (k == key)) [
  | inl e ↦ rw e refl
  | inr e ↦ rw e (get_field-present key entries)
]

-- A field whose key is written once, in the ways of the tags.
member-present :
    {A : Type 0} (c : Codec A) (key : String) (entries : List (String × Option Json))
    (o : Option Json) (a : A)
    → at_key key entries ≡ or_else o none
    → member_of c (or_else o none) ≡ ok a
    → member c key (present entries) ≡ ok a
member-present c key entries o a w h = ap (member_of c) (get_field-present key entries ∙ w) ∙ h

int-Back : (n : ℕ) → n < 2 ^ 63 → Back int_codec n
unfolding marshal_int unmarshal_int
int-Back n small =
    let fits : ltb n (2 ^ 63) ≡ true = ground (arith, small) in
    ap in_int (parse_digits-decimal n) ∙ rw fits refl

duration-Back : (n : ℕ) → n * 10 ^ 9 < 2 ^ 63 → Back duration_codec n
duration-Back n small = rw (int-Back (n * 10 ^ 9) small) (ap ok (mul-div_cancel n (omega arith)))

list-Back : {A : Type 0} (c : Codec A) (xs : List A) → All (Back c) xs → Back (list_codec c) xs
list-Back c [] h = refl
list-Back c (x ∷ xs) (p, h) = rw (p, list-Back c xs h) refl

texts-Back : (xs : List String) → Back (list_codec string_codec) xs
texts-Back [] = refl
texts-Back (x ∷ xs) = rw (texts-Back xs) refl

map-Back : (m : GoMap String) → Back map_codec m
map-Back [] = refl
map-Back ((k, v) ∷ m) = rw (map-Back m) refl

depends_on-Back : (d : DependsOn) → Back depends_on_codec d
depends_on-Back d = refl

node_ref-Back : (r : NodeRef) → Back node_ref_codec r
node_ref-Back r = refl

-- Numbers that an int, and durations that an int64 of nanoseconds can hold.
abbrev pub PortFits : Port → Type 0
PortFits p = (p.port < 2 ^ 63) × (p.host_port < 2 ^ 63)

abbrev pub CheckFits : ReadyCheck → Type 0
CheckFits c =
    (c.interval * 10 ^ 9 < 2 ^ 63)
    × (c.start_period * 10 ^ 9 < 2 ^ 63)
    × (c.timeout * 10 ^ 9 < 2 ^ 63)
    × (c.retries < 2 ^ 63)

abbrev pub Fits : Service → Type 0
Fits s = All PortFits s.ports × ((c : ReadyCheck) → s.ready_check ≡ some c → CheckFits c)

port-Back : (p : Port) → PortFits p → Back port_codec p
port-Back p (n, h) = rw (int-Back p.port n, int-Back p.host_port h) refl

ready_check-Back : (c : ReadyCheck) → CheckFits c → Back ready_check_codec c
ready_check-Back c (i, s, t, r) =
    rw
      (
        texts-Back c.test,
        duration-Back c.interval i,
        duration-Back c.start_period s,
        duration-Back c.timeout t,
        int-Back c.retries r,
      )
      refl

ports-Back : (ps : List Port) → All PortFits ps → All (Back port_codec) ps
ports-Back [] h = tt
ports-Back (p ∷ ps) (f, h) = (port-Back p f, ports-Back ps h)

depends-Back : (ds : List DependsOn) → All (Back depends_on_codec) ds
depends-Back [] = tt
depends-Back (d ∷ ds) = (depends_on-Back d, depends-Back ds)

refs-Back : (rs : List NodeRef) → All (Back node_ref_codec) rs
refs-Back [] = tt
refs-Back (r ∷ rs) = (node_ref-Back r, refs-Back rs)

-- The tags with `omitempty`.
list_member :
    {A : Type 0} (c : Codec A) (xs : List A)
    → All (Back c) xs
    → member_of (list_codec c) (or_else (unless_empty (list_codec c) xs) none) ≡ ok xs
list_member c [] h = refl
list_member c (x ∷ xs) h = list-Back c (x ∷ xs) h

map_member : (m : GoMap String) → member_of map_codec (or_else (unless_no_keys m) none) ≡ ok m
map_member [] = refl
map_member (entry ∷ m) = map-Back (entry ∷ m)

text_member : (s : String) → member_of string_codec (or_else (unless_blank s) none) ≡ ok s
text_member s = elim (Bool-cases (s == "")) [
  | inl e ↦ rw e (ap ok (sym ((eq_iff s "").0 e)))
  | inr e ↦ rw e refl
]

check_member :
    (o : Option ReadyCheck)
    → ((c : ReadyCheck) → o ≡ some c → CheckFits c)
    → member_of (pointer_codec ready_check_codec) (or_else (unless_nil ready_check_codec o) none)
      ≡ ok o
check_member none h = refl
check_member (some c) h = rw (ready_check-Back c (h c refl)) refl

service-Back : (s : Service) → Fits s → Back service_codec s
service-Back s (ports, check) =
    let es = service_entries s in
    rw
      (
        texts-Back s.args,
        member-present map_codec "labels" es _ s.labels refl (map_member s.labels),
        member-present map_codec "env" es _ s.env refl (map_member s.env),
        member-present (pointer_codec ready_check_codec) "ready_check" es _ s.ready_check refl
            (check_member s.ready_check check),
        member-present (list_codec depends_on_codec) "depends_on" es _ s.depends_on refl
            (list_member depends_on_codec s.depends_on (depends-Back s.depends_on)),
        member-present (list_codec port_codec) "ports" es _ s.ports refl
            (list_member port_codec s.ports (ports-Back s.ports ports)),
        member-present (list_codec node_ref_codec) "node_refs" es _ s.node_refs refl
            (list_member node_ref_codec s.node_refs (refs-Back s.node_refs)),
        member-present map_codec "files_mapped" es _ s.files_mapped refl
            (map_member s.files_mapped),
        member-present map_codec "volumes_mapped" es _ s.volumes_mapped refl
            (map_member s.volumes_mapped),
        member-present string_codec "component_name" es _ s.component_name refl
            (text_member s.component_name),
        member-present string_codec "tag" es _ s.tag refl (text_member s.tag),
        member-present string_codec "image" es _ s.image refl (text_member s.image),
        member-present string_codec "entrypoint" es _ s.entrypoint refl (text_member s.entrypoint),
      )
      refl

services-Back : (ss : List Service) → All Fits ss → All (Back service_codec) ss
services-Back [] h = tt
services-Back (s ∷ ss) (f, h) = (service-Back s f, services-Back ss h)

manifest-Back : (ss : List Service) → All Fits ss → unmarshal_manifest (marshal_manifest ss) ≡ ok ss
manifest-Back ss h = list-Back service_codec ss (services-Back ss h)

saved_text :
    (codec : Text) (m : Manifest) (disk disk' : Disk)
    → save_json codec m disk ≡ ok disk'
    → lookup "manifest.json" disk'.contents ≡ some (codec.print (marshal_manifest m.services))
unfolding save_json write_data object_data ext
saved_text codec m disk disk' h =
    let raw = codec.print (marshal_manifest m.services) in
    let (_, _, contents) = (write_raw-Wrote "manifest.json" disk raw).at disk' h in
    ap (lookup "manifest.json") contents ∙ lookup-insert "manifest.json" raw disk.contents

-- `ReadManifest` of a folder in which `SaveJson` wrote a manifest returns every field of every
-- service, and the folder, if the text of this JSON is parsed to it, the numbers of ports and
-- retries are those of an int, and the durations of ready checks those of an int64 of nanoseconds.
pub read_manifest-save_json :
    (codec : Text) (m : Manifest) (output_folder : String) (disk disk' : Disk)
    → codec.parse (codec.print (marshal_manifest m.services)) ≡ ok (marshal_manifest m.services)
    → All Fits m.services
    → save_json codec m disk ≡ ok disk'
    → read_manifest codec output_folder disk' ≡ ok (m.services, output_folder)
unfolding read_manifest
read_manifest-save_json codec m output_folder disk disk' law fits h =
    rw (saved_text codec m disk disk' h, law, manifest-Back m.services fits) refl
