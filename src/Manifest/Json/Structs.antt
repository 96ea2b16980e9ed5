-- ===== src/Manifest/Json/Structs.antt =====
-- playground/manifest.go: the tags of the structs, `SaveJson` and `ReadManifest`.
use builder_playground.Prelude.{
  String, Option, none, some, List, [], ◌∷◌, ◌⊕◌, Result, ok, err, ◌>>=◌, lookup, Stop,
}
use builder_playground.Output.Data.{Disk, write_data}
use builder_playground.Output.Data
use builder_playground.Genesis.{Json, object, Fields}
use builder_playground.Service.{Service, ReadyCheck, DependsOn, new_service}
use builder_playground.Service.FirstPass.{Port, NodeRef}
use builder_playground.Manifest.{Manifest}
use builder_playground.Manifest.Json.{
  Codec, string_codec, unmarshal_int, int_codec, duration_codec, list_codec, pointer_codec, member,
  always, map_codec, unless_empty, unless_nil, unless_blank, unless_no_keys, present,
  unmarshal_struct,
}

abbrev pub ready_check_entries : ReadyCheck → List (String × Option Json)
ready_check_entries c =
    ("query_url", always string_codec c.query_url)
    ∷ (("test", always (list_codec string_codec) c.test)
        ∷ (("interval", always duration_codec c.interval)
            ∷ (("start_period", always duration_codec c.start_period)
                ∷ (("timeout", always duration_codec c.timeout)
                    ∷ (("retries", always int_codec c.retries) ∷ [])))))

abbrev pub ready_check_members : Fields → Result String ReadyCheck
ready_check_members fs = do
  query_url ← member string_codec "query_url" fs
  test ← member (list_codec string_codec) "test" fs
  interval ← member duration_codec "interval" fs
  start_period ← member duration_codec "start_period" fs
  timeout ← member duration_codec "timeout" fs
  retries ← member int_codec "retries" fs
  ok (record {
    query_url = query_url;
    test = test;
    interval = interval;
    start_period = start_period;
    timeout = timeout;
    retries = retries;
  })

abbrev pub ready_check_codec : Codec ReadyCheck
ready_check_codec =
    let zero : ReadyCheck = record {
      query_url = "";
      test = [];
      interval = 0;
      start_period = 0;
      timeout = 0;
      retries = 0;
    } in
    record {
      marshal = λ c. object (present (ready_check_entries c));
      unmarshal = unmarshal_struct zero ready_check_members;
      zero = zero;
    }

-- `DependsOn` has no tags, and `Port` has two.
abbrev pub depends_on_codec : Codec DependsOn
depends_on_codec =
    let zero : DependsOn = record { name = ""; condition = "" } in
    record {
      marshal = λ d. object (
          present (
            ("Name", always string_codec d.name)
            ∷ (("Condition", always string_codec d.condition) ∷ [])));
      unmarshal = unmarshal_struct zero (λ fs. do
        name ← member string_codec "Name" fs
        condition ← member string_codec "Condition" fs
        ok (record { name = name; condition = condition }));
      zero = zero;
    }

abbrev pub port_codec : Codec Port
port_codec =
    let zero : Port = record { name = ""; port = 0; protocol = ""; host_port = 0 } in
    record {
      marshal = λ p. object (
          present (
            ("name", always string_codec p.name)
            ∷ (("port", always int_codec p.port)
                ∷ (("Protocol", always string_codec p.protocol)
                    ∷ (("HostPort", always int_codec p.host_port) ∷ [])))));
      unmarshal = unmarshal_struct zero (λ fs. do
        name ← member string_codec "name" fs
        port ← member int_codec "port" fs
        protocol ← member string_codec "Protocol" fs
        host_port ← member int_codec "HostPort" fs
        ok (record { name = name; port = port; protocol = protocol; host_port = host_port }));
      zero = zero;
    }

abbrev pub node_ref_codec : Codec NodeRef
node_ref_codec =
    let zero : NodeRef = record { service = ""; port_label = ""; protocol = ""; user = "" } in
    record {
      marshal = λ r. object (
          present (
            ("service", always string_codec r.service)
            ∷ (("port_label", always string_codec r.port_label)
                ∷ (("protocol", always string_codec r.protocol)
                    ∷ (("user", always string_codec r.user) ∷ [])))));
      unmarshal = unmarshal_struct zero (λ fs. do
        service ← member string_codec "service" fs
        port_label ← member string_codec "port_label" fs
        protocol ← member string_codec "protocol" fs
        user ← member string_codec "user" fs
        ok (record {
          service = service;
          port_label = port_label;
          protocol = protocol;
          user = user;
        }));
      zero = zero;
    }

abbrev pub service_entries : Service → List (String × Option Json)
service_entries s =
    ("name", always string_codec s.name)
    ∷ (("args", always (list_codec string_codec) s.args)
        ∷ (("labels", unless_no_keys s.labels)
            ∷ (("env", unless_no_keys s.env)
                ∷ (("ready_check", unless_nil ready_check_codec s.ready_check)
                    ∷ (("depends_on", unless_empty (list_codec depends_on_codec) s.depends_on)
                        ∷ (("ports", unless_empty (list_codec port_codec) s.ports)
                            ∷ (("node_refs", unless_empty (list_codec node_ref_codec) s.node_refs)
                                ∷ (("files_mapped", unless_no_keys s.files_mapped)
                                    ∷ (("volumes_mapped", unless_no_keys s.volumes_mapped)
                                        ∷ (("component_name", unless_blank s.component_name)
                                            ∷ (("tag", unless_blank s.tag)
                                                ∷ (("image", unless_blank s.image)
                                                    ∷ (("entrypoint", unless_blank s.entrypoint)
                                                        ∷ [])))))))))))))

abbrev pub service_members : Fields → Result String Service
service_members fs = do
  name ← member string_codec "name" fs
  args ← member (list_codec string_codec) "args" fs
  labels ← member map_codec "labels" fs
  env ← member map_codec "env" fs
  ready_check ← member (pointer_codec ready_check_codec) "ready_check" fs
  depends_on ← member (list_codec depends_on_codec) "depends_on" fs
  ports ← member (list_codec port_codec) "ports" fs
  node_refs ← member (list_codec node_ref_codec) "node_refs" fs
  files_mapped ← member map_codec "files_mapped" fs
  volumes_mapped ← member map_codec "volumes_mapped" fs
  component_name ← member string_codec "component_name" fs
  tag ← member string_codec "tag" fs
  image ← member string_codec "image" fs
  entrypoint ← member string_codec "entrypoint" fs
  ok (record {
    name = name;
    args = args;
    labels = labels;
    env = env;
    ready_check = ready_check;
    depends_on = depends_on;
    ports = ports;
    node_refs = node_refs;
    files_mapped = files_mapped;
    volumes_mapped = volumes_mapped;
    component_name = component_name;
    tag = tag;
    image = image;
    entrypoint = entrypoint;
  })

abbrev pub service_codec : Codec Service
service_codec = record {
  marshal = λ s. object (present (service_entries s));
  unmarshal = unmarshal_struct (new_service "") service_members;
  zero = new_service "";
}

-- The exported field of `Manifest`.
abbrev pub marshal_manifest : List Service → Json
marshal_manifest services =
    object (present (("services", always (list_codec service_codec) services) ∷ []))

abbrev pub unmarshal_manifest : Json → Result String (List Service)
unmarshal_manifest = unmarshal_struct [] (member (list_codec service_codec) "services")

-- The text of JSON, as encoding/json writes and parses it.
pub record Text : Type 0 where
  pub print : Json → String
  pub parse : String → Result String Json

-- `SaveJson`
unfoldable pub save_json : Text → Manifest → Disk → Result Stop Disk
unfolding write_data
save_json codec m disk =
    write_data "manifest.json"
      (Data.object (ok (codec.print (marshal_manifest m.services))) (err "no yaml")) disk

-- The services that `ReadManifest` finds in a folder, which becomes the output folder.
abbrev pub with_folder :
    String → Result String (List Service) → Result String (List Service × String)
with_folder output_folder (err e) =
    err ("failed to parse manifest file " ⊕ output_folder ⊕ "/manifest.json: " ⊕ e)
with_folder output_folder (ok services) = ok (services, output_folder)

abbrev pub read_text : Text → String → Option String → Result String (List Service × String)
read_text codec output_folder none =
    err ("manifest file " ⊕ output_folder ⊕ "/manifest.json does not exist")
read_text codec output_folder (some raw) =
    with_folder output_folder (codec.parse raw >>= unmarshal_manifest)

-- `ReadManifest`, of a file that can be read.
unfoldable pub read_manifest : Text → String → Disk → Result String (List Service × String)
unfolding unmarshal_int
read_manifest codec output_folder disk =
    read_text codec output_folder (lookup "manifest.json" disk.contents)
