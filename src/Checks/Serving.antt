-- ===== src/Checks/Serving.antt =====
-- The HTTP server at concrete requests.
use mano_reck.Prelude.{
  ◌≡◌, ◌↔◌, refl, true, none, some, List, [], ◌∷◌, All, Text, text_eq, codes, length, pos, arith,
  if◌then◌else◌, ◌==◌,
}
use mano_reck.GoError.{ok}
use mano_reck.Identifier.{Reader, new_uuidv7}
use mano_reck.Dependency.{Component, Set}
use mano_reck.Dependency.Readiness.{IsHealthy}
use mano_reck.Healthcheck
use mano_reck.Httpserver.{
  Body, Exchange, request_header, correlation_header, request_identifiers, liveness,
}
use mano_reck.Httpserver.Identified.{IsIdentified, request_identifiers-IsIdentified}
use mano_reck.Httpserver.Probe.{local_client, probe_iff}
use mano_reck.Checks.Fixtures.{first_id, second_id, failure}

abbrev reader : Reader
reader = record {
  bytes = 1 ∷ 2 ∷ 3 ∷ 4 ∷ 5 ∷ 6 ∷ 7 ∷ 8 ∷ 9 ∷ 10 ∷ 11 ∷ 12 ∷ 13 ∷ 14 ∷ 15 ∷ 255 ∷ [];
  failure = failure;
}

-- A readiness request with a correlation identifier and a request identifier that is malformed.
abbrev request : Exchange
request = record {
  method = codes "GET";
  path = codes "/readyz";
  header = λ name.
      if text_eq name correlation_header
      then second_id
      else if text_eq name request_header
      then codes "forged"
      else [];
  context = [];
  response_header = λ name. [];
  status = 200;
  body = Body.empty;
}

request_identifiers-IsIdentified_example :
    (y : Exchange) × (request_identifiers
        (new_uuidv7 (pos 1_700_000_000_000) reader)
        liveness
        request
      ≡ liveness y)
    × IsIdentified request y
request_identifiers-IsIdentified_example =
    request_identifiers-IsIdentified (pos 1_700_000_000_000) reader liveness request (omega arith)
      (ground arith)

abbrev steady : Text → Component (List Text)
steady name = record {
  name = name;
  start = λ w. (w, none);
  check = λ w. if 0 == length w then none else some failure;
  close = λ w. (w, none);
}

abbrev started_set : Set (List Text)
started_set = record {
  components = steady (codes "postgres") ∷ steady (codes "nats") ∷ [];
  timeout = pos 2;
  active = true;
  started = 2;
}

probe_iff_example :
    Healthcheck.check
        (λ e. none)
        (some (local_client (ok first_id) (λ x. x) started_set [] request))
        (codes "http://127.0.0.1:8080/readyz")
      ≡ none
    ↔ (started_set.active ≡ true)
      × (started_set.started ≡ length started_set.components)
      × All (IsHealthy []) started_set.components
probe_iff_example =
    probe_iff (ok first_id) (λ x. x) started_set [] request (codes "http://127.0.0.1:8080/readyz")
      first_id refl refl refl
