-- ===== src/Httpserver.antt =====
-- backend/internal/platform/httpserver/server.go: the middleware and the handlers. An Exchange is what
-- src/ uses of a gin.Context; gin's answer to a request that matches no route is a parameter.
pub mod Identified
pub mod Probe
use mano_reck.Prelude.{
  ℕ, ◌*◌, Bool, true, false, not, ◌&&◌, ◌||◌, if◌then◌else◌, Option, none, some, List, [], ◌∷◌,
  Text, text_eq, codes, map,
}
use mano_reck.GoError.{Error, Result, ok, err}
use mano_reck.Identifier.{is_uuidv7}
use mano_reck.Requestcontext.{Context, with_identifiers}
use mano_reck.Dependency.{Set, CheckResult, ReadinessReport, readiness}

-- The JSON of a response: an error, a status, or a status with the checks.
pub data Body : Type 0 where
  empty : Body
  error_body status_body : Text → Body
  checks_body : Text → List (Text × Text) → Body

pub record Exchange : Type 0 where
  pub method : Text
  pub path : Text
  pub header : Text → Text
  pub context : Context
  pub response_header : Text → Text
  pub status : ℕ
  pub body : Body

abbrev pub second : ℕ
second = 1_000_000_000

-- http.Server, without its handler.
pub record Server : Type 0 where
  pub address : Text
  pub read_header_timeout : ℕ
  pub read_timeout : ℕ
  pub write_timeout : ℕ
  pub idle_timeout : ℕ

unfoldable pub new : Text → Server
new address = record {
  address = address;
  read_header_timeout = 5 * second;
  read_timeout = 15 * second;
  write_timeout = 15 * second;
  idle_timeout = 60 * second;
}

-- context.Header
abbrev pub set_header : Text → Text → Exchange → Exchange
set_header name content x = record x {
  response_header = λ n. if text_eq n name then content else x.response_header n;
}

-- context.JSON
abbrev pub json : ℕ → Body → Exchange → Exchange
json status body x = record x { status = status; body = body }

abbrev pub request_header : Text
request_header = codes "X-Request-ID"

abbrev pub correlation_header : Text
correlation_header = codes "X-Correlation-ID"

-- The exchange that requestIdentifiers hands on.
unfoldable pub identified : Text → Exchange → Exchange
identified request_id x =
    let sent = x.header correlation_header in
    let correlation_id = if is_uuidv7 sent then sent else request_id in
    let answered =
      set_header correlation_header correlation_id (set_header request_header request_id x) in
    record answered { context = with_identifiers x.context request_id correlation_id }

-- requestIdentifiers; `fresh` is what NewUUIDv7 returns, `next` the handlers after it.
unfoldable pub request_identifiers : Result Text → (Exchange → Exchange) → Exchange → Exchange
unfolding identified
request_identifiers fresh next x =
    let sent = x.header request_header in
    elim (if is_uuidv7 sent then ok sent else fresh) [
      | err e ↦ json 500 (error_body (codes "could not create request identifier")) x
      | ok request_id ↦ next (identified request_id x)
    ]

unfoldable pub liveness : Exchange → Exchange
liveness x = json 200 (status_body (codes "ok")) x

abbrev pub check_status : CheckResult → Text × Text
check_status r = (r.name, (if r.ready then codes "ok" else codes "unavailable"))

unfoldable pub readiness_handler : ReadinessReport → Exchange → Exchange
readiness_handler report x =
    let checks = map check_status report.checks in
    if not report.ready
    then json 503 (checks_body (codes "unavailable") checks) x
    else json 200 (checks_body (codes "ok") checks) x

-- The routes of New.
unfoldable pub route {ℓ} : {W : Type ℓ} → (Exchange → Exchange) → Set W → W → Exchange → Exchange
unfolding liveness readiness_handler
route unmatched set w x =
    if text_eq x.method (codes "GET")
      && (text_eq x.path (codes "/healthz") || text_eq x.path (codes "/livez"))
    then liveness x
    else if text_eq x.method (codes "GET") && text_eq x.path (codes "/readyz")
    then readiness_handler (readiness set w) x
    else unmatched x

-- The router; logRequests only logs, and Recovery answers to panics, of which the handlers have none.
unfoldable pub serve {ℓ} :
    {W : Type ℓ} → Result Text → (Exchange → Exchange) → Set W → W → Exchange → Exchange
unfolding request_identifiers route
serve fresh unmatched set w x = request_identifiers fresh (route unmatched set w) x
