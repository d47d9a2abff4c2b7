-- ===== src/Healthcheck.antt =====
-- backend/internal/platform/healthcheck/check.go: the readiness probe.
use mano_reck.Prelude.{ℕ, ◌==◌, if◌then◌else◌, Option, none, some, [], ◌∷◌, Text, pos}
use mano_reck.GoError.{Error, errorf, wrapf, Result, ok, err}
use mano_reck.GoStrings.{itoa}

-- The status of the response, or the error of Do.
pub record Client : Type 0 where
  pub do_request : Text → Result ℕ

abbrev pub after_do : Result ℕ → Option Error
after_do (err e) = some (wrapf "request readiness: %w" [] e)
after_do (ok status) =
    if status == 200
    then none
    else some (errorf "readiness returned HTTP %d" (itoa (pos status) ∷ []))

-- Check; `create` is the error of NewRequestWithContext.
unfoldable pub check : (Text → Option Error) → Option Client → Text → Option Error
check create none endpoint = some (errorf "health check HTTP client is required" [])
check create (some client) endpoint = elim (create endpoint) [
  | some e ↦ some (wrapf "create health check request: %w" [] e)
  | none ↦ after_do (client.do_request endpoint)
]
