-- ===== src/Peer/Binding/Heap.antt =====
-- Reading the heap of peers after an object was rewritten.
use mathlib.Core.Bool.{false≢true}
use ig.Base.{
  ℕ, ◌≡◌, refl, true, Option, none, some, List, [], ◌∷◌, arith, ◌==◌, if◌then◌else◌, contains,
}
use ig.Base.Map.{Map, get, keys, map_option, contains-keys-remove}
use ig.Base.Map
use ig.Peer.{Peer, PeerManager, on_object}
use ig.Peer.Binding.{drop_binding, release_each, release_binding}

pub get-on_object :
    (addr : ℕ) (f : Peer → Peer) (a : ℕ) (objects : Map Peer)
    → get a (on_object addr f objects)
      ≡ (if addr == a then map_option f (get a objects) else get a objects)
unfolding get on_object
get-on_object addr f a [] = ground arith
get-on_object addr f a ((b, p) ∷ objects) = ground (arith, get-on_object addr f a objects)

pub keys-on_object :
    (addr : ℕ) (f : Peer → Peer) (objects : Map Peer)
    → keys (on_object addr f objects) ≡ keys objects
unfolding keys on_object
keys-on_object addr f [] = refl
keys-on_object addr f ((b, p) ∷ objects) = ground (arith, keys-on_object addr f objects)

-- The bindings that are left after releasing some ports.
abbrev pub without_ports : List ℕ → Map ℕ → Map ℕ
without_ports [] bindings = bindings
without_ports (port ∷ ports) bindings = without_ports ports (Map.remove port bindings)

abbrev pub release_in : List ℕ → Peer → Peer
release_in ports p = record p { bindings = without_ports ports p.bindings }

pub objects_after : ℕ → List ℕ → Map Peer → Map Peer
objects_after addr [] objects = objects
objects_after addr (port ∷ ports) objects =
    objects_after addr ports (on_object addr (drop_binding port) objects)

pub release_each-eq :
    (addr : ℕ) (ports : List ℕ) (m : PeerManager)
    → release_each addr ports m ≡ record m { objects = objects_after addr ports m.objects }
unfolding release_each objects_after release_binding
release_each-eq addr [] m = refl
release_each-eq addr (port ∷ ports) m = release_each-eq addr ports (release_binding addr port m)

pub get-objects_after :
    (addr : ℕ) (ports : List ℕ) (a : ℕ) (objects : Map Peer)
    → get a (objects_after addr ports objects)
      ≡ (if addr == a then map_option (release_in ports) (get a objects) else get a objects)
unfolding objects_after
get-objects_after addr [] a objects = same (get a objects)
  where
    same : (o : Option Peer) → o ≡ (if addr == a then map_option (release_in []) o else o)
    same none = ground arith
    same (some p) = ground arith
get-objects_after addr (port ∷ ports) a objects = ground (
  arith,
  get-objects_after addr ports a (on_object addr (drop_binding port) objects),
  get-on_object addr (drop_binding port) a objects,
)

-- Releasing every port that is bound leaves no binding.
pub without_ports-all :
    (ports : List ℕ) (bindings : Map ℕ)
    → ((k : ℕ) → contains (keys bindings) k ≡ true → contains ports k ≡ true)
    → without_ports ports bindings ≡ []
without_ports-all [] [] h = refl
without_ports-all [] ((j, l) ∷ bindings) h = absurd (false≢true (h j (unfold keys in ground arith)))
without_ports-all (port ∷ ports) bindings h =
    without_ports-all ports (Map.remove port bindings)
      λ k c. ground (arith, contains-keys-remove port k bindings, h k)
