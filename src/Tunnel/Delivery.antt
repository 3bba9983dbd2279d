-- ===== src/Tunnel/Delivery.antt =====
-- tunnel.rs: what arrives through a tunnel.
use ig.Base.{
  ℕ, ◌≡◌, refl, sym, ap, ◌∙◌, true, false, List, [], ◌∷◌, ◌++◌, take, drop, take-drop, subst, arith,
  is_empty, Bool-cases, inl, inr,
}
use mathlib.Core.List.{append-nil, append_assoc}
use ig.Tunnel.{
  Way, idle, Copying, reads, writes, ends, fails, Event, local_to_quic, quic_to_local, Tunnel,
  opened, copy, returns, happens, step, forward_bidirectional,
}

-- What was read is what was written followed by what is held.
abbrev pub InOrder : Way → Type 0
InOrder w = w.taken ≡ w.passed ++ w.held

idle-InOrder : InOrder idle
idle-InOrder = refl

copy-InOrder : (c : Copying) (w : Way) → InOrder w → InOrder (copy c w)
unfolding copy
copy-InOrder (reads bytes) w h = ap (λ xs. xs ++ bytes) h ∙ append_assoc w.passed w.held bytes
copy-InOrder (writes n) w h =
    h
    ∙ ap (λ xs. w.passed ++ xs) (sym (take-drop n w.held))
    ∙ sym (append_assoc w.passed (take n w.held) (drop n w.held))
copy-InOrder ends w h = h
copy-InOrder fails w h = h

-- Both directions are in order, and the stream of the peer is finished only when the tunnel is over.
pub record Sound (t : Tunnel) : Type 0 where
  pub up_in_order : InOrder t.up
  pub down_in_order : InOrder t.down
  pub finished_over : t.finished ≡ true → t.over ≡ true

opened-Sound : Sound opened
opened-Sound = record { up_in_order = refl; down_in_order = refl; finished_over = λ h. cc }

happens-Sound : (e : Event) (t : Tunnel) → t.over ≡ false → Sound t → Sound (happens e t)
unfolding happens
happens-Sound (local_to_quic c) t running s = record {
  up_in_order = copy-InOrder c t.up s.up_in_order;
  down_in_order = s.down_in_order;
  finished_over = λ h. h;
}
happens-Sound (quic_to_local c) t running s = record {
  up_in_order = s.up_in_order;
  down_in_order = copy-InOrder c t.down s.down_in_order;
  finished_over = λ h. let over = s.finished_over h in cc;
}

step_over : (e : Event) (t : Tunnel) → t.over ≡ true → step e t ≡ t
unfolding step
step_over e t h = ground arith

step_running : (e : Event) (t : Tunnel) → t.over ≡ false → step e t ≡ happens e t
unfolding step
step_running e t h = ground arith

step-Sound : (e : Event) (t : Tunnel) → Sound t → Sound (step e t)
step-Sound e t s = elim (Bool-cases t.over) [
  | inl h ↦ subst Sound (sym (step_over e t h)) s
  | inr h ↦ subst Sound (sym (step_running e t h)) (happens-Sound e t h s)
]

forward-Sound : (es : List Event) (t : Tunnel) → Sound t → Sound (forward_bidirectional es t)
unfolding forward_bidirectional
forward-Sound [] t s = s
forward-Sound (e ∷ es) t s = forward-Sound es (step e t) (step-Sound e t s)

-- Whatever a tunnel meets, in each direction the bytes that were written are the bytes that were
-- read, in their order and none twice, but for those that it still holds at the end; and the stream
-- of the peer is not finished while the tunnel goes on.
pub forward_bidirectional-Sound : (es : List Event) → Sound (forward_bidirectional es opened)
forward_bidirectional-Sound es = forward-Sound es opened opened-Sound

over-stays : (es : List Event) (t : Tunnel) → t.over ≡ true → forward_bidirectional es t ≡ t
unfolding forward_bidirectional
over-stays [] t h = refl
over-stays (e ∷ es) t h = ap (forward_bidirectional es) (step_over e t h) ∙ over-stays es t h

forward-append :
    (before after : List Event) (t : Tunnel)
    → forward_bidirectional (before ++ after) t
      ≡ forward_bidirectional after (forward_bidirectional before t)
unfolding forward_bidirectional
forward-append [] after t = refl
forward-append (e ∷ before) after t = forward-append before after (step e t)

-- What a tunnel is like after the local side has closed its half of the connection.
pub record HalfClosed (before after : Tunnel) : Type 0 where
  pub all_up : after.up.passed ≡ before.up.taken
  pub finished : after.finished ≡ true
  pub over : after.over ≡ true
  pub nothing_down : after.down.passed ≡ before.down.passed

held-none : (xs : List ℕ) → is_empty xs ≡ true → xs ≡ []
held-none [] h = refl
held-none (x ∷ xs) h = cc

ended-HalfClosed :
    (t : Tunnel)
    → Sound t
    → is_empty t.up.held ≡ true
    → HalfClosed t (happens (local_to_quic ends) t)
unfolding happens copy returns
ended-HalfClosed t s h = record {
  all_up =
      sym (append-nil t.up.passed)
      ∙ ap (λ xs. t.up.passed ++ xs) (sym (held-none t.up.held h))
      ∙ sym s.up_in_order;
  finished = h;
  over = h;
  nothing_down = refl;
}

-- When the local side closes its half of a connection, in a tunnel that still goes on and has written
-- all that it read from there, all that it sent has gone to the peer and the stream is finished; and
-- whatever the peer sends from then on, nothing more of it reaches the local side.
pub forward_bidirectional-HalfClosed :
    (before after : List Event)
    → (forward_bidirectional before opened).over ≡ false
    → is_empty (forward_bidirectional before opened).up.held ≡ true
    → HalfClosed
        (forward_bidirectional before opened)
        (forward_bidirectional (before ++ local_to_quic ends ∷ after) opened)
unfolding forward_bidirectional
forward_bidirectional-HalfClosed before after running h =
    let t = forward_bidirectional before opened in
    let closed = ended-HalfClosed t (forward_bidirectional-Sound before) h in
    subst (HalfClosed t)
      (sym (
        forward-append before (local_to_quic ends ∷ after) opened
        ∙ ap (forward_bidirectional after) (step_running (local_to_quic ends) t running)
        ∙ over-stays after (happens (local_to_quic ends) t) closed.over))
      closed
