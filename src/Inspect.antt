-- ===== src/Inspect.antt =====
-- playground/inspect.go: `Inspect`, from the name of a service and of a port to the container that watches
-- its traffic. What docker answers to the calls is the record `Client`.
pub mod Labels
pub mod Cleanup
use builder_playground.Prelude.{
  String, Option, none, some, List, [], ◌∷◌, ◌++◌, ◌⊕◌, Result, ok, err, ◌>>=◌, GoMap, lookup,
}

-- The answers of docker. `container_list` takes the key and the value of the label to filter by, all
-- containers included; `container_inspect` gives the labels of a container.
pub record Client : Type 0 where
  pub container_list : String → String → Result String (List String)
  pub container_inspect : String → Result String (GoMap String)
  pub container_create : List String → String → Result String String
  pub start_error : String → Option String
  pub logs_error : String → Option String
  pub stop_error : String → Option String
  pub remove_error : String → Option String

-- What was done to the container of tcpflow, in order. `followed` ends with the interrupt signal.
pub data Act : Type 0 where
  created started followed stopped removed : String → Act

abbrev pub Flow : Type 0
Flow = List Act × Option String

-- The two calls of the cleanup: an error is only printed, and the call has then done nothing.
abbrev pub stopping : String → Option String → List Act
stopping id none = stopped id ∷ []
stopping id (some e) = []

abbrev pub removing : String → Option String → List Act
removing id none = removed id ∷ []
removing id (some e) = []

abbrev pub wrap {ℓ} : {A : Type ℓ} → String → Result String A → Result String A
wrap message (ok a) = ok a
wrap message (err e) = err (message ⊕ e)

-- There is exactly one container.
abbrev pub single : String → List String → Result String String
single service_name [] = err ("no containers found for service " ⊕ service_name)
single service_name (id ∷ []) = ok id
single service_name (id ∷ (other ∷ more)) =
    err ("multiple containers found for service " ⊕ service_name)

abbrev pub labelled : String → String → Option String → Result String (String × String)
labelled port_name id none = err ("port " ⊕ port_name ⊕ " not found in container " ⊕ id)
labelled port_name id (some port_num) = ok (id, port_num)

module _ (client : Client) where
  -- `retrieveContainerDetails`
  unfoldable pub retrieve_container_details : String → String → Result String (String × String)
  retrieve_container_details service_name port_name = do
    containers ←
        wrap "error getting container list: " (client.container_list "service" service_name)
    id ← single service_name containers
    labels ← wrap ("error inspecting container " ⊕ id ⊕ ": ") (client.container_inspect id)
    labelled port_name id (lookup ("port." ⊕ port_name) labels)

  abbrev pub tcpflow_cmd : String → List String
  tcpflow_cmd port_name = "-c" ∷ "-p" ∷ "-i" ∷ "eth0" ∷ "port" ∷ port_name ∷ []

  -- The steps of `runTcpFlow` on what each call answered.
  abbrev pub streamed : String → Option String → Flow
  streamed id (some e) = (created id ∷ started id ∷ [], some ("failed to get container logs: " ⊕ e))
  streamed id none = (
    created id
        ∷ (started id
            ∷ (followed id
                ∷ (stopping id (client.stop_error id) ++ removing id (client.remove_error id)))),
    none,
  )

  abbrev pub running : String → Option String → Flow
  running id (some e) = (created id ∷ [], some ("failed to start container: " ⊕ e))
  running id none = streamed id (client.logs_error id)

  abbrev pub made : Result String String → Flow
  made (err e) = ([], some ("failed to create container: " ⊕ e))
  made (ok id) = running id (client.start_error id)

  -- `runTcpFlow`
  unfoldable pub run_tcp_flow : String → String → Flow
  run_tcp_flow container_id port_name =
      made (client.container_create (tcpflow_cmd port_name) ("container:" ⊕ container_id))

  abbrev pub flowing : Result String (String × String) → Flow
  flowing (err e) = ([], some ("failed to retrieve container details: " ⊕ e))
  flowing (ok (service_id, port_num)) = run_tcp_flow service_id port_num

-- `Inspect`, with the client or the error of making it.
unfoldable pub inspect : Result String Client → String → String → Flow
unfolding retrieve_container_details run_tcp_flow
inspect (err e) service_name port_name = ([], some ("failed to create docker client: " ⊕ e))
inspect (ok client) service_name port_name =
    flowing client (retrieve_container_details client service_name port_name)
