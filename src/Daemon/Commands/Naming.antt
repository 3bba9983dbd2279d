-- ===== src/Daemon/Commands/Naming.antt =====
-- daemon.rs, `handle_request`: the peers that the keys of a request name.
use ig.Base.{
  ℕ, ◌≡◌, false, Option, none, some, List, [], ◌∷◌, contains, ap, ◌∙◌, is_empty, sym, subst,
}
use ig.Base.Text.{Text}
use ig.Failure.{Error, ok, err, ok-injective, bind-ok}
use ig.Base.Map.{contains_key, contains-keys}
use ig.Peer.{World}
use ig.Peer.Outgoing.{peer_ids}
use ig.Daemon.{Daemon, parse_key}
use ig.Daemon.Commands.{grantees, parse_optional, parse_keys, known_peers}

-- The keys of a request name these peers: each parses, in the order given; and without a key they are
-- the known peers, of which there is one.
abbrev pub EachNames : World → List Text → List ℕ → Type 0
EachNames w [] [] = Unit {0}
EachNames w [] (id ∷ ids) = ⊥
EachNames w (key ∷ keys) [] = ⊥
EachNames w (key ∷ keys) (id ∷ ids) = (w.parse key ≡ some id) × EachNames w keys ids

abbrev pub Named : World → Daemon → List Text → List ℕ → Type 0
Named w d [] ids =
    (is_empty ids ≡ false) × ((id : ℕ) → contains ids id ≡ contains_key id d.manager.peers)
Named w d (key ∷ keys) ids = EachNames w (key ∷ keys) ids

parsed-some :
    (o : Option ℕ) (x : Error) (id : ℕ)
    → elim o [ some i ↦ ok i | none ↦ err x ] ≡ ok id
    → o ≡ some id
parsed-some none x id h = cc
parsed-some (some i) x id h = ap some (ok-injective i id h)

pub parse_key-ok :
    (w : World) (key : Text) (id : ℕ) → parse_key w key ≡ ok id → w.parse key ≡ some id
unfolding parse_key
parse_key-ok w key id h = parsed-some (w.parse key) _ id h

parse_keys-EachNames :
    (w : World) (keys : List Text) (ids : List ℕ)
    → parse_keys w keys ≡ ok ids
    → EachNames w keys ids
unfolding parse_keys
parse_keys-EachNames w [] [] h = tt
parse_keys-EachNames w [] (id ∷ ids) h = cc
parse_keys-EachNames w (key ∷ keys) ids h =
    let (id, one, rest) = bind-ok (parse_key w key) _ ids h in
    let (more, others, last) = bind-ok (parse_keys w keys) _ ids rest in
    subst (EachNames w (key ∷ keys)) (ok-injective (id ∷ more) ids last)
      (parse_key-ok w key id one, parse_keys-EachNames w keys more others)

known_peers-same :
    (peers ids : List ℕ) → known_peers peers ≡ ok ids → (peers ≡ ids) × (is_empty ids ≡ false)
unfolding known_peers
known_peers-same [] ids h = cc
known_peers-same (p ∷ peers) ids h =
    let same = ok-injective (p ∷ peers) ids h in (same, ap is_empty (sym same))

pub grantees-Named :
    (w : World) (to : List Text) (d : Daemon) (ids : List ℕ)
    → grantees w to d ≡ ok ids
    → Named w d to ids
unfolding grantees
grantees-Named w [] d ids h =
    let (same, some_peer) = known_peers-same (peer_ids d.manager) ids h in
    (
      some_peer,
      λ id.
          ap (λ xs. contains xs id) (sym same)
          ∙ unfold peer_ids in contains-keys id d.manager.peers,
    )
grantees-Named w (key ∷ keys) d ids h = parse_keys-EachNames w (key ∷ keys) ids h

-- The key of a request to revoke names this peer; without a key it is about every peer.
abbrev pub NamesOne : World → Option Text → Option ℕ → Type 0
NamesOne w none none = Unit {0}
NamesOne w none (some id) = ⊥
NamesOne w (some key) none = ⊥
NamesOne w (some key) (some id) = w.parse key ≡ some id

pub parse_optional-NamesOne :
    (w : World) (to : Option Text) (id : Option ℕ) → parse_optional w to ≡ ok id → NamesOne w to id
unfolding parse_optional
parse_optional-NamesOne w none none h = tt
parse_optional-NamesOne w none (some id) h = cc
parse_optional-NamesOne w (some key) id h =
    let (i, one, rest) = bind-ok (parse_key w key) _ id h in
    subst (NamesOne w (some key)) (ok-injective (some i) id rest) (parse_key-ok w key i one)
