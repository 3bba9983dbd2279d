-- ===== src/Backend/Tests.antt =====
-- Sample routes.
use ig.Base.{◌≡◌, refl, true, false, none, some, [], ◌∷◌, contains}
use ig.Base.Text.{text}
use ig.Backend.{Route, BackendSpec, validate}
use ig.Backend.Validation.{Verdict, CanWork, validate-Verdict}

abbrev api : Route
api = record {
  host = some (text "api.local");
  prefix = some (text "/v1");
  upstream = some (text "127.0.0.1:8080");
  unix = none;
  tls = false;
  sni = none;
  strip_prefix = true;
  host_header = none;
}

validate-Verdict_example :
    Verdict (CanWork (BackendSpec.http (api ∷ []))) (validate (BackendSpec.http (api ∷ [])) 80)
validate-Verdict_example = validate-Verdict (BackendSpec.http (api ∷ [])) 80

no_colon : contains (text "8080") b':' ≡ false
unfolding text
no_colon = refl
