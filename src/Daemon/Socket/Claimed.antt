-- ===== src/Daemon/Socket/Claimed.antt =====
-- daemon.rs, `bind_control_socket`: who holds the socket afterwards.
use ig.Base.{ℕ, ◌≡◌, ◌≢◌, refl, true, Option, none, some, ap, sym, ◌∙◌}
use ig.Base.Text.{Text}
use ig.Failure.{Result, ok, err, kind_of, conflict}
use ig.Daemon.Socket.{
  Endpoint, absent, dead, live, Connected, accepted, gone, unclear, Sockets, check, nobody_there,
  bound, restricted, remove_file, take_over, after_check, bind_control_socket,
}

-- A socket that somebody listens on does not look abandoned, which is what connect(2) promises.
abbrev pub Honest : Sockets → Type 0
Honest s = (pid mode : ℕ) → s.connect (live pid mode) ≢ gone

-- Somebody listens there.
abbrev pub IsLive : Endpoint → Type 0
IsLive absent = ⊥
IsLive dead = ⊥
IsLive (live pid mode) = Unit {0}

-- What a claim can come to.
abbrev pub Claim : Sockets → Endpoint → Endpoint × Result (Unit {0}) → Type 0
Claim s e (e', ok _) = (e' ≡ live s.pid 0o600) × (¬ IsLive e)
Claim s e (e', err x) =
    (IsLive e → e' ≡ e) × (s.connect e ≡ accepted → (kind_of x ≡ conflict) × (e' ≡ e))

restricted-held :
    (path : Text) (s : Sockets) (o : Option Text) (r : Endpoint × Result (Unit {0}))
    → (restricted path s o r).1 ≡ ok tt
    → (restricted path s o r).0 ≡ live s.pid 0o600
unfolding restricted
restricted-held path s o (e, err x) h = cc
restricted-held path s none (e, ok _) h = refl
restricted-held path s (some x) (e, ok _) h = cc

not-IsLive : (s : Sockets) (e : Endpoint) → Honest s → s.connect e ≡ gone → ¬ IsLive e
not-IsLive s absent honest h l = l
not-IsLive s dead honest h l = l
not-IsLive s (live pid mode) honest h l = honest pid mode h

taken-Claim :
    (s : Sockets) (e : Endpoint) (out : Endpoint × Result (Unit {0}))
    → Honest s
    → s.connect e ≡ gone
    → (out.1 ≡ ok tt → out.0 ≡ live s.pid 0o600)
    → Claim s e out
taken-Claim s e (e', ok _) honest h held = (held refl, not-IsLive s e honest h)
taken-Claim s e (e', err x) honest h held =
    (λ l. absurd (not-IsLive s e honest h l), λ a. let c : accepted ≡ gone = sym a ∙ h in cc)

checked-Claim :
    (path : Text) (s : Sockets) (e : Endpoint) (c : Connected)
    (taken : Endpoint × Result (Unit {0}))
    → Honest s
    → s.connect e ≡ c
    → (taken.1 ≡ ok tt → taken.0 ≡ live s.pid 0o600)
    → Claim s e (after_check (nobody_there path c) e taken)
unfolding after_check nobody_there kind_of
checked-Claim path s e accepted taken honest h held = (λ l. refl, λ a. (refl, refl))
checked-Claim path s e gone taken honest h held = taken-Claim s e taken honest h held
checked-Claim path s e (unclear message) taken honest h held =
    (λ l. refl, λ a. let c : accepted ≡ unclear message = sym a ∙ h in cc)

take_over-held :
    (path : Text) (s : Sockets) (e : Endpoint)
    → (take_over path s e).1 ≡ ok tt
    → (take_over path s e).0 ≡ live s.pid 0o600
unfolding take_over
take_over-held path s e =
    restricted-held path s s.set_permissions (bound path s s.bind (remove_file s.removes e))

-- A daemon that claims the socket listens there itself, with the mode 0600, and nobody listened there
-- before. One that does not has left a socket that somebody listens on as it was; and if its
-- connection was accepted the error is a conflict. The system must not answer that nobody is there
-- for a socket that somebody listens on, and nothing else may happen in between.
pub bind_control_socket-Claim :
    (path : Text) (s : Sockets) (e : Endpoint) → Honest s → Claim s e (bind_control_socket path s e)
unfolding bind_control_socket check
bind_control_socket-Claim path s e honest =
    checked-Claim path s e (s.connect e) (take_over path s e) honest refl (take_over-held path s e)

-- A system that answers each call with success.
pub record Willing (s : Sockets) : Type 0 where
  pub removes : s.removes ≡ true
  pub binds : s.bind ≡ none
  pub sets : s.set_permissions ≡ none

take_over-Willing :
    (path : Text) (s : Sockets) (e : Endpoint)
    → Willing s
    → take_over path s e ≡ (live s.pid 0o600, ok tt)
unfolding take_over remove_file bound restricted
take_over-Willing path s e w = rw (w.removes, remove_file, w.binds, bound, w.sets, restricted) refl

-- Two daemons that both look before either takes over both claim an abandoned socket, and the second
-- removes the socket that the first listens on: the path is left to the second alone. All calls are
-- answered with success.
pub bind_control_socket-diverges :
    (path : Text) (a b : Sockets) (e : Endpoint)
    → Willing a
    → Willing b
    → a.connect e ≡ gone
    → b.connect e ≡ gone
    → let first = take_over path a e in
      let second = take_over path b first.0 in
      (check path a e ≡ ok tt)
      × (check path b e ≡ ok tt)
      × (first.1 ≡ ok tt)
      × (second ≡ (live b.pid 0o600, ok tt))
unfolding check nobody_there
bind_control_socket-diverges path a b e wa wb ga gb = (
  rw ga refl,
  rw gb refl,
  ap (λ r. r.1) (take_over-Willing path a e wa),
  take_over-Willing path b _ wb,
)
