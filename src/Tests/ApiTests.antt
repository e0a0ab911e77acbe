-- ===== src/Tests/ApiTests.antt =====
-- Calls of the client, run.
use wiredraft.Prelude.{
  String, Bool, true, false, ◌&&◌, some, none, Result, ok, err, ◌≡◌, refl, ◌==◌, string_eq,
  if◌then◌else◌, any, arith,
}
use wiredraft.Api.{
  Call, Client, Effects, Answer, replied, headers_of, is_mutation, json_headers, request, path_text,
}
use wiredraft.Api.Endpoints.{Endpoint, link, configure_link, call_of}
use wiredraft.Api.Conditional.{is_if_match, is_in_map, headers_of-call_of}

abbrev configure_call : Endpoint
configure_call = link (configure_link "map" "l1")

headers_of-call_of_example :
    any is_if_match (headers_of (some 7) none (call_of "{}" configure_call).headers) ≡ (
      is_mutation (call_of "{}" configure_call).method
      && is_in_map (call_of "{}" configure_call).path)
headers_of-call_of_example =
    headers_of-call_of "{}" configure_call 7 none (omega arith) (omega arith)

-- The guard of a document that may not be changed in place.
abbrev read_only : Call → Result String Bool
read_only call = if call.method == "PUT" then err "locked" else ok true

abbrev client : Client
client = record { csrf_token = "token"; on_login_page = false }

abbrev good : Answer
good = replied (record { status = 200; ok = true; body = some "{}" })

abbrev configured : Effects String
configured = request client (some read_only) (call_of "{}" configure_call) json_headers good

configuration_path :
    path_text (λ part. part) (call_of "{}" configure_call).path
    ≡ "/api/v1/topologies/map/links/l1/configuration"
unfolding call_of
configuration_path = refl
