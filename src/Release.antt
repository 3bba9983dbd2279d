-- ===== src/Release.antt =====
-- upgrade.rs: asking GitHub for the latest release and its files. What GitHub answers, the digest and
-- the parser of the release listing, which are other code, and the environment are a `Site`.
use ig.Base.{
  ℕ, Bool, true, false, ◌||◌, Option, none, some, List, [], ◌∷◌, ◌++◌, ◌==◌, leb, ◌&&◌,
  if◌then◌else◌, is_empty,
}
use ig.Base.Text.{Text, text, text_eq}
use ig.Base.Lines.{trim, trim_start_matches}
use ig.Failure.{
  Result, ok, err, fail, anyhow, ErrorKind, not_found, denied, unavailable, with_context, ◌>>=◌,
}
use ig.Console.{Json}
use ig.Disk.{Answers}

pub record Asset : Type 0 where
  pub name : Text
  pub url : Text

pub record Release : Type 0 where
  pub tag_name : Text
  pub assets : List Asset

-- What a request comes back with: nothing was reached, or a status and, if it was read whole, a
-- body.
pub data Reply : Type 0 where
  unreachable : Text → Reply
  answered : ℕ → Text → Option (List ℕ) → Reply

-- `gh` is the output of `gh auth token`: whether it succeeded, and its text if that is UTF-8.
pub record Site : Type 0 where
  pub target : Text
  pub current : Text
  pub gh_token : Option Text
  pub github_token : Option Text
  pub gh : Option (Bool × Option Text)
  pub http_client : Result (Unit {0})
  pub send : Option Text → Text → Text → Reply
  pub parse_release : List ℕ → Result Release
  pub from_utf8_lossy : List ℕ → Text
  pub sha256 : List ℕ → List ℕ
  pub pretty : Json → Result Text
  pub exe : Result Text
  pub pid : ℕ
  pub answers : Answers

unfoldable pub version : Release → Text
version r = trim_start_matches b'v' r.tag_name

find_asset : List Asset → Text → Option Asset
find_asset [] name = none
find_asset (a ∷ assets) name = if text_eq a.name name then some a else find_asset assets name

asset_found : Text → Text → Option Asset → Result Asset
asset_found tag name (some a) = ok a
asset_found tag name none = err (fail not_found (tag ++ (text " has no " ++ name)))

unfoldable pub asset : Release → Text → Result Asset
unfolding find_asset asset_found
asset r name = asset_found r.tag_name name (find_asset r.assets name)

-- A variable that is set to more than white space.
from_env : Option Text → Option Text
from_env none = none
from_env (some token) = if is_empty (trim token) then none else some (trim token)

from_gh : Option (Bool × Option Text) → Option Text
unfolding from_env
from_gh none = none
from_gh (some (false, out)) = none
from_gh (some (true, out)) = from_env out

or_else : Option Text → Option Text → Option Text
or_else (some token) other = some token
or_else none other = other

unfoldable pub token : Site → Option Text
unfolding from_gh from_env or_else
token s = or_else (from_env s.gh_token) (or_else (from_env s.github_token) (from_gh s.gh))

unfoldable pub status_kind : ℕ → ErrorKind
status_kind status =
    if status == 401 || status == 403
    then denied
    else if status == 404
    then not_found
    else unavailable

hint : Option Text → Text
hint none = text "; set GH_TOKEN or run `gh auth login` -- the repository is private"
hint (some token) = []

downloaded : Option (List ℕ) → Result (List ℕ)
downloaded none = err (anyhow (text "the download was cut short"))
downloaded (some body) = ok body

unfoldable pub received : Option Text → Reply → Result (List ℕ)
unfolding hint downloaded
received token (unreachable e) =
    err (fail unavailable (text "cannot reach GitHub (" ++ (e ++ text ")")))
received token (answered status shown body) =
    if leb 200 status && leb status 299
    then downloaded body
    else err (fail (status_kind status) (text "GitHub answered " ++ (shown ++ hint token)))

-- The function of the source named `get`.
unfoldable pub get_url : Site → Option Text → Text → Text → Result (List ℕ)
unfolding received
get_url s token url accept = received token (s.send token url accept)

abbrev pub release_url : Text
release_url = text "https://api.github.com/repos/Lincyaw/ig/releases/latest"

unfoldable pub latest : Site → Option Text → Result Release
unfolding get_url
latest s token = do
  body ← get_url s token release_url (text "application/vnd.github+json")
  with_context (text "could not read the release listing from GitHub") (s.parse_release body)

unfoldable pub fetch : Site → Option Text → Asset → Result (List ℕ)
unfolding get_url
fetch s token a = get_url s token a.url (text "application/octet-stream")
