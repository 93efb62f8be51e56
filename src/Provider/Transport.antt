-- ===== src/Provider/Transport.antt =====
-- `createConfiguredTransport`: the transport of the configuration, or the requests over HTTP.
use react_native_nitro_sync.Prelude.{Bool, Option, none, some, String, if◌then◌else◌}
use react_native_nitro_sync.Value.Json.{Json}
use react_native_nitro_sync.Types.{thrown, Result, err, ◌>>=◌}
use react_native_nitro_sync.Protocol.Request.{SyncTransportRequest, build_sync_request_payload}
use react_native_nitro_sync.Provider.Process.{PullRequest}

-- What `fetch` answers: whether the status is a success, and the body read as JSON.
pub record HttpResponse : Type 0 where
  pub succeeded : Bool
  pub json : Result Json

-- `pushAndPull` of the transport over HTTP. The request is built from the arguments; `fetch` sends it, with the
-- token of the configuration, and may fail.
unfoldable pub push_and_pull :
    (Option String → SyncTransportRequest → Result HttpResponse)
    → Option String
    → PullRequest
    → Result Json
push_and_pull fetch auth_token r =
    build_sync_request_payload r.table_name r.mutations r.last_synced_at (some r.server_cursor)
      (some r.server_version) (some r.device_id) r.schema_version r.migration
    >>= λ body. fetch auth_token body >>= λ response.
        if response.succeeded then response.json else err (thrown "HTTP status")

-- `fetch` takes the endpoint as well.
unfoldable pub create_configured_transport :
    (String → Option String → SyncTransportRequest → Result HttpResponse)
    → Option (PullRequest → Result Json)
    → Option String
    → Option String
    → Option (PullRequest → Result Json)
create_configured_transport fetch (some transport) endpoint auth_token = some transport
create_configured_transport fetch none none auth_token = none
create_configured_transport fetch none (some endpoint) auth_token =
    some (push_and_pull (fetch endpoint) auth_token)
