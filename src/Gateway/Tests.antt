-- ===== src/Gateway/Tests.antt =====
-- A sample proxy.
use ig.Base.{ℕ, true, false, Option, none, some, List, [], ◌∷◌, arith}
use ig.Base.Text.{Text, text}
use ig.Backend.{Route}
use ig.Service.{Gateway}
use ig.Gateway.{Resolved, find_answer, request_filter, resolve}
use ig.Gateway.Routing.{FilterOutcome, request_filter-FilterOutcome}
use ig.Gateway.Cache.{IsHonest, ResolveOutcome, resolve-Outcome}

abbrev api : Route
api = record {
  host = none;
  prefix = some (text "/api");
  upstream = some (text "api.internal:80");
  unix = none;
  tls = false;
  sni = none;
  strip_prefix = true;
  host_header = none;
}

abbrev gateway : Gateway
gateway = record { port = 80; routes = api ∷ [] }

request_filter-FilterOutcome_example :
    FilterOutcome gateway
      (some (text "site"))
      (text "/api/users")
      (request_filter gateway (some (text "site")) (text "/api/users"))
request_filter-FilterOutcome_example =
    request_filter-FilterOutcome gateway (some (text "site")) (text "/api/users")

abbrev one_address : ℕ → Text → Option (List Text)
one_address now name = some (text "10.0.0.7:80" ∷ [])

abbrev kept : Resolved
kept = (text "api.internal:80", record { addr = text "10.0.0.7:80"; at = 7 }) ∷ []

kept-IsHonest : IsHonest one_address kept
unfolding find_answer
kept-IsHonest = record { answered = λ name a e. ([], ground arith) }

resolve-Outcome_example :
    ResolveOutcome one_address
      (text "api.internal:80")
      9
      (resolve (one_address 9) (text "api.internal:80") 9 kept)
resolve-Outcome_example = resolve-Outcome one_address (text "api.internal:80") 9 kept kept-IsHonest
