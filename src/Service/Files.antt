-- ===== src/Service/Files.antt =====
-- service.rs, the two files of the configuration: the startup file of services and the route table
-- of `expose --routes`. Reading a file and parsing TOML are a `Loader`.
use ig.Base.{ℕ, List, [], ◌∷◌, ◌++◌, is_empty, if◌then◌else◌}
use ig.Base.Text.{Text, text}
use ig.Failure.{Result, ok, err, fail, invalid, with_context, ◌>>=◌}
use ig.Backend.{Route, BackendSpec}

pub record ServiceEntry : Type 0 where
  pub port : ℕ
  pub backend : BackendSpec

pub record ServiceFile : Type 0 where
  pub services : List ServiceEntry

pub record RoutesFile : Type 0 where
  pub routes : List Route

pub record Loader : Type 0 where
  pub read_to_string : Text → Result Text
  pub parse_services : Text → Result ServiceFile
  pub parse_routes : Text → Result RoutesFile

-- `T` is given by its parser.
unfoldable pub load_toml : {T : Type 0} → Loader → (Text → Result T) → Text → Text → Result T
load_toml l from_str path what = do
  content ←
      with_context (text "failed to read " ++ (what ++ (text " " ++ path))) (l.read_to_string path)
  with_context (text "failed to parse " ++ (what ++ (text " " ++ path))) (from_str content)

routes_of : Text → RoutesFile → Result (List Route)
routes_of path file =
    if is_empty file.routes
    then err (fail invalid (text "route table " ++ (path ++ text " has no [[route]] entries")))
    else ok file.routes

unfoldable pub load_routes : Loader → Text → Result (List Route)
unfolding load_toml routes_of
load_routes l path = do
  file ← load_toml l l.parse_routes path (text "route table")
  routes_of path file

unfoldable pub entries : List ServiceEntry → List (ℕ × BackendSpec)
entries [] = []
entries (e ∷ es) = (e.port, e.backend) ∷ entries es

unfoldable pub services_of : Text → ServiceFile → Result (List (ℕ × BackendSpec))
unfolding entries
services_of path file =
    if is_empty file.services
    then err (fail invalid (text "service config " ++ (path ++ text " has no [[service]] entries")))
    else ok (entries file.services)

unfoldable pub load_service_file : Loader → Text → Result (List (ℕ × BackendSpec))
unfolding load_toml services_of
load_service_file l path = do
  file ← load_toml l l.parse_services path (text "service config")
  services_of path file
