-- ===== src/Peer/Binding/Recreated.antt =====
-- peer.rs, `recreate_all`: the listeners of every peer after the table of remaps changed.
use ig.Base.{
  ℕ, ◌≡◌, refl, Bool, true, false, ◌&&◌, ◌||◌, none, some, List, [], ◌∷◌, arith, ◌==◌,
  if◌then◌else◌, contains, ◌⊎◌, Bool-cases, Option-cases, inl, inr, sym, ap, ◌∙◌, is_some,
}
use ig.Base.Map.{get, get-insert}
use ig.Peer.{Peer, PeerManager, World, with_peer}
use ig.Peer.Binding.{recreate_all, create_binding, add_binding, exposes, local_for, held}
use ig.Peer.Binding.Heap.{get-on_object}

-- What became of the peer `p`: its other ports are as they were, and the port listens nowhere or
-- where the operating system put it. If `must`, it listens or the operating system refused.
pub record Moved (w : World) (port local : ℕ) (must : Bool) (p q : Peer) : Type 0 where
  pub exposed : q.exposed ≡ p.exposed
  pub others : (k : ℕ) → (port == k) ≡ false → get k q.bindings ≡ get k p.bindings
  pub lands :
      (get port q.bindings ≡ none)
      ⊎ ((l : ℕ) × ((taken : List ℕ) × (w.bind_os taken local ≡ some l)
            × (get port q.bindings ≡ some l)))
  pub tried :
      must ≡ true
      → (is_some (get port q.bindings) ≡ true) ⊎ ((taken : List ℕ) × (w.bind_os taken local ≡ none))

-- The object at the address, after some steps.
abbrev pub MovedAt : World → ℕ → ℕ → Bool → ℕ → Peer → PeerManager → Type 0
MovedAt w port local must addr p n =
    (q : Peer) × (get addr n.objects ≡ some q)
    × Moved w port local must p q
    × (local_for n port ≡ local)

pub create-MovedAt :
    (w : World) (port local : ℕ) (must : Bool) (a addr : ℕ) (p : Peer) (m : PeerManager)
    → MovedAt w port local must addr p m
    → MovedAt w port local (must || a == addr) addr p (create_binding w a port m)
unfolding local_for
create-MovedAt w port local must a addr p m (q, at, moved, same) =
    elim (Option-cases (w.bind_os (held m) (local_for m port))) [
      | inl h ↦
          unfold create_binding in
          rw (h, create_binding)
            (
              q,
              at,
              record {
                exposed = moved.exposed;
                others = moved.others;
                lands = moved.lands;
                tried = λ e. inr (held m, rw (← same) h);
              },
              same,
            )
      | inr (l, h) ↦ unfold create_binding in rw (h, create_binding) (added l h)
    ]
  where
    added :
        (l : ℕ)
        → w.bind_os (held m) (local_for m port) ≡ some l
        → MovedAt w port local (must || a == addr) addr p (with_peer a (add_binding port l) m)
    added l h = elim (Bool-cases (a == addr)) [
      | inl e ↦ (
        add_binding port l q,
        ground (arith, get-on_object a (add_binding port l) addr m.objects, at, e),
        record {
          exposed = moved.exposed;
          others = λ k ne. ground (arith, get-insert port k l q.bindings, moved.others k ne);
          lands =
              inr (l, (held m, rw (← same) h, ground (arith, get-insert port port l q.bindings)));
          tried = λ t. inl (ground (arith, get-insert port port l q.bindings));
        },
        same,
      )
      | inr e ↦ (
        q,
        ground (arith, get-on_object a (add_binding port l) addr m.objects, at, e),
        record {
          exposed = moved.exposed;
          others = moved.others;
          lands = moved.lands;
          tried = λ t. moved.tried (ground arith);
        },
        same,
      )
    ]

pub weaken :
    (w : World) (port local : ℕ) (strong must : Bool) (addr : ℕ) (p : Peer) (n : PeerManager)
    → (must ≡ true → strong ≡ true)
    → MovedAt w port local strong addr p n
    → MovedAt w port local must addr p n
weaken w port local strong must addr p n f (q, at, moved, same) = (
  q,
  at,
  record {
    exposed = moved.exposed;
    others = moved.others;
    lands = moved.lands;
    tried = λ e. moved.tried (f e);
  },
  same,
)

pub recreate_all-MovedAt :
    (w : World) (port local : ℕ) (must : Bool) (addrs : List ℕ) (addr : ℕ) (p : Peer)
    (m : PeerManager)
    → MovedAt w port local must addr p m
    → MovedAt w port local
        (must || (contains p.exposed port && contains addrs addr))
        addr
        p
        (recreate_all w addrs port m)
unfolding recreate_all create_binding
recreate_all-MovedAt w port local must [] addr p m h =
    weaken w port local must _ addr p m (λ e. ground arith) h
recreate_all-MovedAt w port local must (a ∷ addrs) addr p m (q, at, moved, same) =
    go (exposes port (get a m.objects)) refl
      (λ must' n h. recreate_all-MovedAt w port local must' addrs addr p n h)
  where
    less :
        exposes port (get a m.objects) ≡ false
        → (must || (contains p.exposed port && (a == addr || contains addrs addr))) ≡ true
        → (must || (contains p.exposed port && contains addrs addr)) ≡ true
    less e t = elim (Bool-cases (a == addr)) [
      | inl here ↦
          let there : a ≡ addr = ground arith in
          let silent : contains p.exposed port ≡ false =
            rw (← moved.exposed) (ap (exposes port) (sym at) ∙ rw (← there) e) in
          ground (arith, silent)
      | inr ne ↦ ground arith
    ]

    go :
        (b : Bool)
        → exposes port (get a m.objects) ≡ b
        → ((must' : Bool) (n : PeerManager)
            → MovedAt w port local must' addr p n
            → MovedAt w port local
                (must' || (contains p.exposed port && contains addrs addr))
                addr
                p
                (recreate_all w addrs port n))
        → MovedAt w port local
            (must || (contains p.exposed port && contains (a ∷ addrs) addr))
            addr
            p
            (recreate_all w addrs port (if b then create_binding w a port m else m))
    go true e rest =
        weaken w port local _ _ addr p (recreate_all w addrs port (create_binding w a port m))
          (λ t. ground arith)
          (rest (must || a == addr) (create_binding w a port m)
            (create-MovedAt w port local must a addr p m (q, at, moved, same)))
    go false e rest =
        weaken w port local _ _ addr p (recreate_all w addrs port m) (λ t. less e t)
          (rest must m (q, at, moved, same))
