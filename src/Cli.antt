-- ===== src/Cli.antt =====
-- main.rs: the command tree, the values that the command line is read into, and the two parsers
-- that are not clap's.
pub mod Binds
mod Tests
use ig.Base.{
  ℕ, zero, suc, ◌+◌, ◌*◌, ◌-◌, ◌≡◌, Bool, true, false, ◌&&◌, Option, none, some, List, [], ◌∷◌,
  ◌++◌, leb, ltb, ◌==◌, ◌⊎◌, inl, inr, if◌then◌else◌,
}
use ig.Base.Text.{Text, text, is_digit}
use ig.Base.Lines.{split_once, trim}
use ig.Failure.{Result, ok, err, anyhow}
use ig.Console.{Format}
use ig.Service.{IpAddr}

pub data AutostartCmd : Type 0 where
  install : List Text → Bool → AutostartCmd
  uninstall restart : Bool → AutostartCmd
  status : AutostartCmd

pub record DaemonArgs : Type 0 where
  pub host : IpAddr
  pub peers : List Text
  pub ports : List ℕ
  pub key_path : Option Text
  pub enroll_file : Option Text
  pub enroll : Option Text
  pub binds : List (ℕ × ℕ)
  pub services : List Text

pub data PeerCmd : Type 0 where
  add rm : Text → Bool → PeerCmd
  ls : PeerCmd
  pin : Text → Text → Bool → PeerCmd
  token : Text → PeerCmd

-- `expose` has the port, the grantees, the upstream, the Unix socket, the file of routes and the
-- dry run; `bind` the port, the local port, and whether to clear.
pub data PortCmd : Type 0 where
  expose : ℕ → List Text → Option Text → Option Text → Option Text → Bool → PortCmd
  unexpose : ℕ → Option Text → Bool → PortCmd
  ls : PortCmd
  bind : ℕ → Option ℕ → Bool → Bool → PortCmd

pub data Command : Type 0 where
  daemon : DaemonArgs → Command
  id status : Command
  peer : PeerCmd → Command
  port : PortCmd → Command
  autostart : AutostartCmd → Command
  upgrade : Bool → Command
  completion : Text → Command

pub record Cli : Type 0 where
  pub socket : Text
  pub format : Format
  pub quiet : Bool
  pub dump_schema : Bool
  pub command : Option Command

-- `str::parse::<u16>`: decimal digits after at most one plus sign, and no number above 65535.
pub in_u16 : ℕ → Option ℕ
in_u16 n = if ltb n 65536 then some n else none

push_digit : ℕ → Option ℕ → Option ℕ
unfolding is_digit in_u16
push_digit c none = none
push_digit c (some n) = if is_digit c then in_u16 (n * 10 + (c - 48)) else none

digits : Option ℕ → Text → Option ℕ
unfolding push_digit
digits n [] = n
digits n (c ∷ cs) = digits (push_digit c n) cs

-- Without a sign, from the first character on.
unsigned : Text → Option ℕ
unfolding digits
unsigned [] = none
unsigned (c ∷ cs) = digits (some 0) (c ∷ cs)

unfoldable pub parse_u16 : Text → Option ℕ
unfolding unsigned
parse_u16 [] = none
parse_u16 (c ∷ cs) = if c == 43 then unsigned cs else unsigned (c ∷ cs)

-- What clap reports when a value is refused.
pub data Parsed (A : Type 0) : Type 0 where
  parsed : A → Parsed A
  refused : Text → Parsed A

local_part : ℕ → Text → Option ℕ → Parsed (ℕ × ℕ)
local_part remote local none = refused (text "bad local port " ++ local)
local_part remote local (some n) = parsed (remote, n)

remote_part : Text → Text → Option ℕ → Parsed (ℕ × ℕ)
unfolding local_part
remote_part remote local none = refused (text "bad remote port " ++ remote)
remote_part remote local (some n) = local_part n local (parse_u16 local)

bind_parts : Text → Option (Text × Text) → Parsed (ℕ × ℕ)
unfolding remote_part
bind_parts arg none = refused (text "wants REMOTE:LOCAL, got " ++ arg)
bind_parts arg (some (remote, local)) = remote_part remote local (parse_u16 remote)

unfoldable pub parse_bind : Text → Parsed (ℕ × ℕ)
unfolding bind_parts
parse_bind arg = bind_parts arg (split_once (text ":") arg)

-- `read_token`, given what `read_to_string` answers.
unfoldable pub read_token : Text → Text ⊎ Text → Result Text
read_token path (inl e) =
    err (anyhow (text "cannot read enrollment token " ++ (path ++ (text ": " ++ e))))
read_token path (inr content) = ok (trim content)
