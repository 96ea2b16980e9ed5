-- ===== src/Proxy.antt =====
-- cl-proxy/cl-proxy.go: the proxy between a consensus client and its execution clients.
pub mod Mirror
pub mod Panics
use builder_playground.Prelude.{
  ℕ, String, Bool, true, false, Option, none, some, List, [], ◌∷◌, ◌++◌, if◌then◌else◌, ◌==◌, ◌⊕◌,
  has_prefix, eqb, length,
}

-- `Config`, less the writer of the log.
pub record Config : Type 0 where
  pub port : ℕ
  pub primary : String
  pub secondary : String

-- `DefaultConfig`
unfoldable pub default_config : Config
default_config = record { port = 5656; primary = ""; secondary = "" }

-- `jsonrpcMessage`; a raw message that is nil is `none`.
pub record JsonrpcMessage : Type 0 where
  pub version : String
  pub id : Option String
  pub method : String
  pub params : List (Option String)
  pub result : Option String

-- A request that arrives; `none` is a body that cannot be read.
pub record Request : Type 0 where
  pub method : String
  pub headers : List (String × String)
  pub body : Option String

-- A request that `proxy` sends.
pub record Sent : Type 0 where
  pub dst : String
  pub headers : List (String × String)
  pub content : String

-- What comes back for it: an error, or a status and a body, which may fail to be read.
pub data Response : Type 0 where
  failed : Response
  answered : ℕ → Option String → Response

pub record Reply : Type 0 where
  pub status : ℕ
  pub content_type : String
  pub body : String

pub data Ending : Type 0 where
  returned panicked : Ending

-- The reply that the handler writes, the requests that it sends, in order, and how it ends.
pub record Handled : Type 0 where
  pub reply : Reply
  pub sent : List Sent
  pub ending : Ending

-- `http.Error`
abbrev pub http_error : String → ℕ → Reply
http_error message status = record {
  status = status;
  content_type = "text/plain; charset=utf-8";
  body = message ⊕ "\n";
}

-- The assignment `Params[1] = nil`; `none` is the panic of an index out of range.
abbrev pub without_second : List (Option String) → Option (List (Option String))
without_second (first ∷ (second ∷ more)) = some (first ∷ (none ∷ more))
without_second _ = none

-- What the handler does for the secondary after it has replied.
pub data Copy : Type 0 where
  skipped crashes : Copy
  forwards : String → Copy

-- `encoding/json` and the HTTP client: reading a message, writing one, and sending a request.
pub record Net : Type 0 where
  pub unmarshal : String → Option JsonrpcMessage
  pub marshal : JsonrpcMessage → Option String
  pub do_request : Sent → Response

module _ (net : Net) (config : Config) where
  -- An error of `json.Marshal` ends the handler.
  abbrev pub written : Option String → Copy
  written none = skipped
  written (some content) = forwards content

  abbrev pub strip_attributes : JsonrpcMessage → Copy
  strip_attributes message = elim (without_second message.params) [
    | none ↦ crashes
    | some params ↦ written (net.marshal (record message { params = params }))
  ]

  -- The part of `handleRequest` between the reply and the request to the secondary.
  unfoldable pub copy_of : JsonrpcMessage → String → Copy
  copy_of message content =
      if config.secondary == ""
      then skipped
      else if has_prefix message.method "engine_getPayload"
      then skipped
      else if has_prefix message.method "engine_forkchoiceUpdated"
      then (if eqb (length message.params) 1 then forwards content else strip_attributes message)
      else forwards content

  -- The end of `handleRequest`: an error of the secondary is only logged.
  unfoldable pub mirrored : Request → Sent → Reply → Copy → Handled
  mirrored r first reply skipped = record { reply = reply; sent = first ∷ []; ending = returned }
  mirrored r first reply crashes = record { reply = reply; sent = first ∷ []; ending = panicked }
  mirrored r first reply (forwards content) = record {
    reply = reply;
    sent = first ∷ (record { dst = config.secondary; headers = r.headers; content = content } ∷ []);
    ending = returned;
  }

  abbrev pub refused : Reply → List Sent → Handled
  refused reply sent = record { reply = reply; sent = sent; ending = returned }

  -- The reply that is made of the primary's answer.
  unfoldable pub from_primary : Request → Sent → JsonrpcMessage → Response → Handled
  unfolding copy_of mirrored
  from_primary r first message failed =
      refused (http_error "Internal server error" 500) (first ∷ [])
  from_primary r first message (answered status none) =
      refused (http_error "Internal server error" 500) (first ∷ [])
  from_primary r first message (answered status (some body)) =
      mirrored r first (record { status = status; content_type = "application/json"; body = body })
        (copy_of message first.content)

  -- The request to the primary, once the body is read and decoded.
  unfoldable pub decoded : Request → String → Option JsonrpcMessage → Handled
  unfolding from_primary
  decoded r content none = refused (http_error "Bad request" 400) []
  decoded r content (some message) =
      let first : Sent = record { dst = config.primary; headers = r.headers; content = content } in
      from_primary r first message (net.do_request first)

  unfoldable pub read_body : Request → Option String → Handled
  unfolding decoded
  read_body r none = refused (http_error "Bad request" 400) []
  read_body r (some content) = decoded r content (net.unmarshal content)

  -- `handleRequest`
  unfoldable pub handle_request : Request → Handled
  unfolding read_body
  handle_request r =
      if r.method == "POST"
      then read_body r r.body
      else refused (http_error "Method not allowed" 405) []
