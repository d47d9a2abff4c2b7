-- ===== src/Httpserver/Probe.antt =====
-- The readiness probe of the container, over the readiness endpoint and the dependency set.
use mano_reck.Prelude.{
  ℕ, ◌≡◌, ◌↔◌, refl, sym, subst, true, ◌==◌, inl, inr, Bool-cases, none, some, All, Text, text_eq,
  codes, length, arith,
}
use mano_reck.GoError.{Result, ok}
use mano_reck.Identifier.{is_uuidv7}
use mano_reck.Dependency.{Set, readiness}
use mano_reck.Dependency.Readiness.{IsHealthy, readiness_iff}
use mano_reck.Healthcheck.{Client}
use mano_reck.Healthcheck
use mano_reck.Httpserver.{
  Exchange, request_header, identified, request_identifiers, readiness_handler, route, serve,
}

check-client :
    (status : ℕ) (endpoint : Text)
    → Healthcheck.check (λ e. none) (some (record { do_request = λ e. ok status })) endpoint ≡ none
      ↔ ((status == 200) ≡ true)
unfolding Healthcheck.check
check-client status endpoint = (λ h. ground arith, λ h. ground arith)

module _ {ℓ} {W : Type ℓ} where
  -- A client whose requests for the endpoint reach the server as the exchange `x`.
  abbrev pub local_client : Result Text → (Exchange → Exchange) → Set W → W → Exchange → Client
  local_client fresh unmatched set w x = record {
    do_request = λ endpoint. ok (serve fresh unmatched set w x).status;
  }

  handler_status :
      (set : Set W) (w : W) (x : Exchange)
      → (((readiness_handler (readiness set w) x).status == 200) ≡ true)
        ↔ ((readiness set w).ready ≡ true)
  unfolding readiness_handler
  handler_status set w x = elim (Bool-cases (readiness set w).ready) [
    | inl t ↦ (λ h. t, λ h. rw (readiness_handler, t) refl)
    | inr f ↦ (λ h. absurd (ground arith), λ h. absurd (ground arith))
  ]

  route-readyz :
      (unmatched : Exchange → Exchange) (set : Set W) (w : W) (x : Exchange)
      → x.method ≡ codes "GET"
      → x.path ≡ codes "/readyz"
      → route unmatched set w x ≡ readiness_handler (readiness set w) x
  unfolding route text_eq
  route-readyz unmatched set w x m p = rw (route, m, p) refl

  serve-readyz :
      (fresh : Result Text) (unmatched : Exchange → Exchange) (set : Set W) (w : W) (x : Exchange)
      (id : Text)
      → x.method ≡ codes "GET"
      → x.path ≡ codes "/readyz"
      → fresh ≡ ok id
      → (y : Exchange) × (serve fresh unmatched set w x ≡ readiness_handler (readiness set w) y)
  unfolding serve request_identifiers identified
  serve-readyz fresh unmatched set w x id m p f =
      elim (Bool-cases (is_uuidv7 (x.header request_header))) [
        | inl t ↦
            let y = identified (x.header request_header) x in
            (y, rw (serve, request_identifiers, t) (route-readyz unmatched set w y m p))
        | inr n ↦
            let y = identified id x in
            (y, rw (serve, request_identifiers, n, f) (route-readyz unmatched set w y m p))
      ]

  -- The probe succeeds exactly when the dependency set is started in full and every component is healthy,
  -- for a client that can make its request and whose GET of /readyz reaches the server, where a request
  -- identifier can be made.
  pub probe_iff :
      (fresh : Result Text) (unmatched : Exchange → Exchange) (set : Set W) (w : W) (x : Exchange)
      (endpoint id : Text)
      → x.method ≡ codes "GET"
      → x.path ≡ codes "/readyz"
      → fresh ≡ ok id
      → Healthcheck.check (λ e. none) (some (local_client fresh unmatched set w x)) endpoint ≡ none
        ↔ (set.active ≡ true)
          × (set.started ≡ length set.components)
          × All (IsHealthy w) set.components
  probe_iff fresh unmatched set w x endpoint id m p f =
      let (y, served) = serve-readyz fresh unmatched set w x id m p f in
      let checked = check-client (serve fresh unmatched set w x).status endpoint in
      let ready = handler_status set w y in
      let healthy = readiness_iff set w in
      (
        λ h. healthy.0 (ready.0 (subst (λ z. (z.status == 200) ≡ true) served (checked.0 h))),
        λ h. checked.1 (subst (λ z. (z.status == 200) ≡ true) (sym served) (ready.1 (healthy.1 h))),
      )
