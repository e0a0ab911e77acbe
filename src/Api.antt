-- ===== src/Api.antt =====
-- The client of the server: web/static/js/api.js. `encodeURIComponent` is the parameter `encode`. A
-- body is the text that `JSON.stringify` gives, or a form. The guard of changes is a function that
-- throws, or that tells whether it returns a callback.
pub mod Endpoints
pub mod Guarded
pub mod Conditional
use Prim.Native.String.{◌++◌ as str_append}
use wiredraft.Prelude.{
  ℕ, String, Bool, true, false, ◌&&◌, ◌||◌, not, List, [], ◌∷◌, ◌++◌, Option, none, some, ◌^◌, ◌==◌,
  string_eq, nat_eq, ltb, if◌then◌else◌, is_empty, contains, to_upper, decimal, any, Result, ok,
  err,
}

-- A part of a path: as it is written, through `encodeURIComponent`, or a number that is shown.
pub data Part : Type 0 where
  fixed : String → Part
  escaped : String → Part
  shown : String → Part

pub data HeaderKind : Type 0 where
  plain : HeaderKind
  json : HeaderKind
  plain_revision : HeaderKind
  json_revision : HeaderKind

pub data Content : Type 0 where
  nothing : Content
  text : String → Content
  -- the kind and the id of the target, and the photos
  form : String → String → List String → Content

pub record Call : Type 0 where
  pub path : List Part
  pub query : List (String × String)
  pub method : String
  pub headers : HeaderKind
  pub content : Content

abbrev pub path_text : (String → String) → List Part → String
path_text encode [] = ""
path_text encode (fixed part ∷ parts) = str_append "/" (str_append part (path_text encode parts))
path_text encode (escaped part ∷ parts) =
    str_append "/" (str_append (encode part) (path_text encode parts))
path_text encode (shown part ∷ parts) = str_append "/" (str_append part (path_text encode parts))

abbrev pub Header : Type 0
Header = String × String

abbrev pub json_headers : List Header
json_headers = ("Content-Type", "application/json") ∷ []

-- `revision ?? revisionProvider()`
abbrev pub or_provided : Option ℕ → Option ℕ → Option ℕ
or_provided none provided = provided
or_provided (some revision) provided = some revision

-- A revision that is no safe integer is `none` or from 2 ^ 53 on.
unfoldable pub revision_headers : Option ℕ → Option ℕ → List Header → List Header
revision_headers revision provided headers = elim (or_provided revision provided) [
  | none ↦ headers
  | some expected ↦
      if not (ltb expected (2 ^ 53)) || ltb expected 1
      then headers
      else headers ++ ("If-Match", str_append "\"rev-" (str_append (decimal expected) "\"")) ∷ []
]

unfoldable pub headers_of : Option ℕ → Option ℕ → HeaderKind → List Header
unfolding revision_headers
headers_of revision provided plain = []
headers_of revision provided json = json_headers
headers_of revision provided plain_revision = revision_headers revision provided []
headers_of revision provided json_revision = revision_headers revision provided json_headers

unfoldable pub is_mutation : String → Bool
is_mutation method = not (contains ("GET" ∷ "HEAD" ∷ "OPTIONS" ∷ []) (to_upper method))

pub record Reply : Type 0 where
  pub status : ℕ
  pub ok : Bool
  -- the text of the JSON body, `none` for `null`
  pub body : Option String

pub data Answer : Type 0 where
  replied : Reply → Answer
  network_error : Answer
  timed_out : Answer

pub data Failure (Thrown : Type 0) : Type 0 where
  refused : Thrown → Failure Thrown
  api_error : ℕ → Failure Thrown
  no_network : Failure Thrown
  timeout : Failure Thrown

pub record Client : Type 0 where
  pub csrf_token : String
  pub on_login_page : Bool

pub record Sent : Type 0 where
  pub call : Call
  pub headers : List Header

-- What a request does: what it sends, whether it goes to the login page, the body that the guard's
-- callback is given, and what it returns.
pub record Effects (Thrown : Type 0) : Type 0 where
  pub sent : Option Sent
  pub redirected : Bool
  pub acknowledged : Option (Option String)
  pub result : Result (Failure Thrown) (Option String)

unfoldable pub sent_headers : Client → Call → List Header → List Header
unfolding is_mutation
sent_headers client call headers =
    if is_mutation call.method && not (is_empty client.csrf_token)
    then headers ++ ("X-CSRF-Token", client.csrf_token) ∷ []
    else headers

module _ {Thrown : Type 0} where
  -- `mutationGuard?.(path, method, options.body)`, of a call that changes something.
  unfoldable pub ask_guard : Option (Call → Result Thrown Bool) → Call → Result Thrown Bool
  unfolding is_mutation
  ask_guard none call = ok false
  ask_guard (some guard) call = if is_mutation call.method then guard call else ok false

  -- The reply to what was sent, good or not.
  unfoldable pub handle_reply : Client → Bool → Sent → Reply → Bool → Effects Thrown
  handle_reply client watched sent reply false = record {
    sent = some sent;
    redirected = reply.status == 401 && not client.on_login_page;
    acknowledged = none;
    result = err (api_error reply.status);
  }
  handle_reply client watched sent reply true = record {
    sent = some sent;
    redirected = false;
    acknowledged = if watched then some reply.body else none;
    result = ok reply.body;
  }

  -- The answer to what was sent.
  unfoldable pub handle : Client → Bool → Sent → Answer → Effects Thrown
  unfolding handle_reply
  handle client watched sent network_error = record {
    sent = some sent;
    redirected = false;
    acknowledged = none;
    result = err no_network;
  }
  handle client watched sent timed_out = record {
    sent = some sent;
    redirected = false;
    acknowledged = none;
    result = err timeout;
  }
  handle client watched sent (replied reply) = handle_reply client watched sent reply reply.ok

  unfoldable pub request :
      Client → Option (Call → Result Thrown Bool) → Call → List Header → Answer → Effects Thrown
  unfolding ask_guard handle sent_headers
  request client guard call headers answer = elim (ask_guard guard call) [
    | err thrown ↦ record {
      sent = none;
      redirected = false;
      acknowledged = none;
      result = err (refused thrown);
    }
    | ok watched ↦
        handle client watched (record { call = call; headers = sent_headers client call headers })
          answer
  ]
