-- ===== src/Peer/Loop/Backoff.antt =====
-- peer.rs, `peer_connection_loop`: its backoff, whom it dials, and how it ends.
use ig.Base.{
  ℕ, ◌*◌, ◌≤◌, ◌≡◌, ◌≢◌, min, refl, Bool, true, false, not, Option, none, some, List, [], ◌∷◌,
  arith, if◌then◌else◌,
}
use ig.Peer.{Peer}
use ig.Peer.Loop.{
  Loop, Place, running, waiting, sleeping, dialling, returned, Happening, lost, notified, slept,
  dialled, Event, own, replaced, evicted, on_loop, start, run, step, happens, enter, run_or,
  unconnected, redial, called_in, connected, backoff_initial, backoff_max, taken, at_place,
}

-- Sleeping and dialling are for a peer that is dialled.
abbrev Dials : Place → Bool → Type 0
Dials (running c) dial = Unit {0}
Dials waiting dial = Unit {0}
Dials returned dial = Unit {0}
Dials sleeping dial = dial ≡ true
Dials dialling dial = dial ≡ true

-- The backoff is within its bounds, and the peer is dialled only if it is one to dial.
record Kept (dial : Bool) (l : Loop) : Type 0 where
  same : l.peer.dial ≡ dial
  low : backoff_initial ≤ l.backoff
  high : l.backoff ≤ backoff_max
  dials : Dials l.place dial

-- By whichever way a test goes.
if-Kept :
    (dial b : Bool) (l n : Loop)
    → (b ≡ true → Kept dial l)
    → (b ≡ false → Kept dial n)
    → Kept dial (if b then l else n)
if-Kept dial true l n h k = h refl
if-Kept dial false l n h k = k refl

redial-Kept :
    (dial : Bool) (l : Loop)
    → l.peer.dial ≡ dial
    → backoff_initial ≤ l.backoff
    → l.backoff ≤ backoff_max
    → dial ≡ true
    → Kept dial (redial l)
unfolding redial
redial-Kept dial l same low high d =
    if-Kept dial l.peer.removed (at_place returned l) (at_place sleeping l)
      (λ e. record { same = same; low = low; high = high; dials = tt })
      (λ e. record { same = same; low = low; high = high; dials = d })

unconnected-Kept :
    (dial : Bool) (l : Loop)
    → l.peer.dial ≡ dial
    → backoff_initial ≤ l.backoff
    → l.backoff ≤ backoff_max
    → Kept dial (unconnected l)
unfolding unconnected
unconnected-Kept dial l same low high =
    if-Kept dial l.peer.removed (at_place returned l) _
      (λ e. record { same = same; low = low; high = high; dials = tt })
      (λ e.
        if-Kept dial (not l.peer.dial) (at_place waiting l) (redial l)
          (λ d. record { same = same; low = low; high = high; dials = tt })
          (λ d. redial-Kept dial l same low high (ground arith)))

enter-Kept :
    (dial : Bool) (l : Loop)
    → l.peer.dial ≡ dial
    → backoff_initial ≤ l.backoff
    → l.backoff ≤ backoff_max
    → Kept dial (enter l)
unfolding enter run_or
enter-Kept dial l same low high = go l.peer.connection
  where
    go : (o : Option ℕ) → Kept dial (run_or o l)
    go none = unconnected-Kept dial l same low high
    go (some c) = record { same = same; low = low; high = high; dials = tt }

called_in-Kept :
    (dial : Bool) (l : Loop)
    → l.peer.dial ≡ dial
    → backoff_initial ≤ l.backoff
    → l.backoff ≤ backoff_max
    → Kept dial (called_in l)
unfolding called_in
called_in-Kept dial l same low high =
    if-Kept dial l.peer.removed (at_place returned l) (enter l)
      (λ e. record { same = same; low = low; high = high; dials = tt })
      (λ e. enter-Kept dial l same low high)

happens-Kept :
    (dial : Bool) (place : Place) (h : Happening) (l : Loop)
    → Kept dial l
    → Dials place dial
    → Kept dial (happens place h l)
unfolding happens
happens-Kept dial (running c) lost l k d = unconnected-Kept dial l k.same k.low k.high
happens-Kept dial (running c) notified l k d = k
happens-Kept dial (running c) slept l k d = k
happens-Kept dial (running c) (dialled o) l k d = k
happens-Kept dial waiting lost l k d = k
happens-Kept dial waiting notified l k d =
    if-Kept dial l.peer.notified (called_in (taken l)) l
      (λ e. called_in-Kept dial (taken l) k.same k.low k.high) (λ e. k)
happens-Kept dial waiting slept l k d = k
happens-Kept dial waiting (dialled o) l k d = k
happens-Kept dial sleeping lost l k d = k
happens-Kept dial sleeping notified l k d =
    if-Kept dial l.peer.notified _ l
      (λ e.
        enter-Kept dial (record (taken l) { backoff = backoff_initial }) k.same (omega arith)
          (omega arith))
      (λ e. k)
happens-Kept dial sleeping slept l k d =
    if-Kept dial l.peer.removed (at_place returned l) (at_place dialling l)
      (λ e. record { same = k.same; low = k.low; high = k.high; dials = tt })
      (λ e. record { same = k.same; low = k.low; high = k.high; dials = d })
happens-Kept dial sleeping (dialled o) l k d = k
happens-Kept dial dialling lost l k d = k
happens-Kept dial dialling notified l k d = k
happens-Kept dial dialling slept l k d = k
happens-Kept dial dialling (dialled none) l k d =
    let low = k.low in
    redial-Kept dial (record l { backoff = min (l.backoff * 2) backoff_max }) k.same (omega arith)
      (omega arith) d
happens-Kept dial dialling (dialled (some c)) l k d =
    unfold connected in
    enter-Kept dial
      (record l { backoff = backoff_initial; peer = record l.peer { connection = some c } }) k.same
      (omega arith) (omega arith)
happens-Kept dial returned h l k d = k

run-Kept : (p : Peer) (events : List Event) → Kept p.dial (run p events)
unfolding run start step
run-Kept p [] =
    enter-Kept p.dial (record { place = waiting; backoff = backoff_initial; peer = p }) refl
      (omega arith) (omega arith)
run-Kept p (own h ∷ events) =
    let k = run-Kept p events in happens-Kept p.dial (run p events).place h (run p events) k k.dials
run-Kept p (replaced c ∷ events) =
    let k = run-Kept p events in
    record { same = k.same; low = k.low; high = k.high; dials = k.dials }
run-Kept p (evicted ∷ events) =
    let k = run-Kept p events in
    record { same = k.same; low = k.low; high = k.high; dials = k.dials }

Dials-false : (place : Place) → Dials place false → (place ≢ sleeping) × (place ≢ dialling)
Dials-false (running c) d = (λ e. cc, λ e. cc)
Dials-false waiting d = (λ e. cc, λ e. cc)
Dials-false returned d = (λ e. cc, λ e. cc)
Dials-false sleeping d = absurd (cc)
Dials-false dialling d = absurd (cc)

-- Whatever happens to a connection loop, its backoff stays from one second to sixty.
pub run-backoff :
    (p : Peer) (events : List Event)
    → (backoff_initial ≤ (run p events).backoff) × ((run p events).backoff ≤ backoff_max)
run-backoff p events = let k = run-Kept p events in (k.low, k.high)

-- The loop of a peer that is to call in never dials, nor waits to.
pub run-waits :
    (p : Peer) (events : List Event)
    → p.dial ≡ false
    → ((run p events).place ≢ sleeping) × ((run p events).place ≢ dialling)
run-waits p events e = Dials-false (run p events).place (rw (← e) (run-Kept p events).dials)

-- Evicting a peer ends its loop at the next thing that happens to it: where it runs a connection,
-- when that breaks; where it waits for a call or for the backoff, by the notification that came
-- with the eviction, or when the backoff has passed; and where a dial is under way, if that fails.
-- A dial that succeeds after the eviction has the loop run its connection.
pub evicted-returned :
    (l : Loop) (c : ℕ)
    → let gone = on_loop evicted l in
      ((step lost (record gone { place = running c })).place ≡ returned)
      × ((step notified (record gone { place = waiting })).place ≡ returned)
      × ((step notified (record gone { place = sleeping })).place ≡ returned)
      × ((step slept (record gone { place = sleeping })).place ≡ returned)
      × ((step (dialled none) (record gone { place = dialling })).place ≡ returned)
      × ((step (dialled (some c)) (record gone { place = dialling })).place ≡ running c)
unfolding step happens unconnected called_in redial connected enter run_or
evicted-returned l c = (refl, refl, refl, refl, refl, refl)
