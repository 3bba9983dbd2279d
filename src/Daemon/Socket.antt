-- ===== src/Daemon/Socket.antt =====
-- daemon.rs, `bind_control_socket`: claiming the control socket, or refusing to start. The path is an
-- `Endpoint`; what the system answers is a `Sockets`.
pub mod Claimed
pub mod Tests
use ig.Base.{ℕ, ◌≡◌, Bool, true, false, Option, none, some, [], ◌∷◌, ◌++◌}
use ig.Base.Text.{Text, text}
use ig.Failure.{Error, Result, ok, err, fail, anyhow, note, conflict, ◌>>=◌}

-- Nothing at the path, a socket that nobody listens on, or one that a process listens on, with the
-- mode of the file.
pub data Endpoint : Type 0 where
  absent dead : Endpoint
  live : ℕ → ℕ → Endpoint

-- How a connection attempt ends: it is accepted, it fails with `NotFound` or `ConnectionRefused`, or
-- it fails otherwise.
pub data Connected : Type 0 where
  accepted gone : Connected
  unclear : Text → Connected

pub record Sockets : Type 0 where
  pub pid : ℕ
  pub connect : Endpoint → Connected
  pub removes : Bool
  pub bind : Option Text
  pub default_mode : ℕ
  pub set_permissions : Option Text

nobody_there : Text → Connected → Result (Unit {0})
nobody_there path accepted = err (
    fail conflict (
      text "a daemon is already listening on "
      ++ (path ++ text "; stop it first, or pass a different --socket")))
nobody_there path gone = ok tt
nobody_there path (unclear message) =
    err (anyhow (text "cannot tell whether a daemon holds " ++ (path ++ (text ": " ++ message))))

-- The first half: whether somebody listens there.
unfoldable pub check : Text → Sockets → Endpoint → Result (Unit {0})
unfolding nobody_there
check path s e = nobody_there path (s.connect e)

-- The file is removed, whatever it is; an error is ignored.
remove_file : Bool → Endpoint → Endpoint
remove_file true e = absent
remove_file false e = e

-- Binding fails where there is a file.
bound : Text → Sockets → Option Text → Endpoint → Endpoint × Result (Unit {0})
bound path s (some e) endpoint = (endpoint, err (note (text "failed to bind " ++ path) ∷ anyhow e))
bound path s none absent = (live s.pid s.default_mode, ok tt)
bound path s none dead =
    (dead, err (note (text "failed to bind " ++ path) ∷ anyhow (text "address already in use")))
bound path s none (live pid mode) = (
  live pid mode,
  err (note (text "failed to bind " ++ path) ∷ anyhow (text "address already in use")),
)

-- A listener that is dropped leaves its file behind.
restricted :
    Text → Sockets → Option Text → Endpoint × Result (Unit {0}) → Endpoint × Result (Unit {0})
restricted path s answer (e, err x) = (e, err x)
restricted path s none (e, ok _) = (live s.pid 0o600, ok tt)
restricted path s (some x) (e, ok _) =
    (dead, err (note (text "failed to restrict " ++ path) ∷ anyhow x))

-- The second half: the file goes, and a listener of this process takes its place.
unfoldable pub take_over : Text → Sockets → Endpoint → Endpoint × Result (Unit {0})
unfolding remove_file bound restricted
take_over path s e =
    restricted path s s.set_permissions (bound path s s.bind (remove_file s.removes e))

after_check :
    Result (Unit {0}) → Endpoint → Endpoint × Result (Unit {0}) → Endpoint × Result (Unit {0})
after_check (err x) e taken = (e, err x)
after_check (ok _) e taken = taken

unfoldable pub bind_control_socket : Text → Sockets → Endpoint → Endpoint × Result (Unit {0})
unfolding after_check
bind_control_socket path s e = after_check (check path s e) e (take_over path s e)
