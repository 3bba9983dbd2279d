-- ===== src/Grants/Access.antt =====
-- grants.rs: each operation, and what `allows` answers afterwards.
use ig.Base.{
  refl, false, ℕ, ◌≡◌, Bool, not, ◌&&◌, ◌||◌, Option, none, some, List, [], arith, ◌==◌, contains,
  set_insert, set_remove, contains-set_insert, contains-set_remove, contains-is_empty, unwrap_or,
  Option-cases, inl, inr,
}
use ig.Base.Map.{Map, get, get-insert, get-remove, get-retain}
use ig.Grants.{
  Grants, default, add, remove, remove_one, revoke_grantee, allows, among, without, IsValid,
}

-- Default deny.
pub allows-default : (q peer : ℕ) → allows default q peer ≡ false
unfolding allows get
allows-default q peer = refl

-- Granting changes the answer at that port and that peer alone.
pub allows-add :
    (g : Grants) (port grantee q peer : ℕ)
    → allows (add g port grantee) q peer ≡ ((port == q && grantee == peer) || allows g q peer)
unfolding allows add
allows-add g port grantee q peer = ground (
  arith,
  get-insert port q (set_insert grantee (unwrap_or (get port g.by_port) [])) g.by_port,
  contains-set_insert grantee peer (unwrap_or (get port g.by_port) []),
  contains-set_insert grantee peer [],
)

among-without :
    (peer other : ℕ) (grantees : List ℕ)
    → among (without peer grantees) other ≡ (not (peer == other) && contains grantees other)
among-without peer other grantees = ground (
  arith,
  contains-set_remove peer other grantees,
  contains-is_empty (set_remove peer grantees) other,
)

among-remove_one :
    (port grantee q peer : ℕ) (m : Map (List ℕ))
    → among (get q (remove_one port grantee m)) peer
      ≡ (not (port == q && grantee == peer) && among (get q m) peer)
unfolding remove_one
among-remove_one port grantee q peer m = elim (Option-cases (get port m)) [
  | inl e ↦ rw (e, remove_one) (ground (arith, e))
  | inr (grantees, e) ↦
      rw (e, remove_one)
        (ground (
          arith,
          e,
          among-without grantee peer grantees,
          get-remove port q m,
          get-insert port q (set_remove grantee grantees) m,
        ))
]

-- Does a revocation of `port` for `grantee`, or for everyone, cover this port and peer?
abbrev pub revokes : ℕ → Option ℕ → ℕ → ℕ → Bool
revokes port none q peer = port == q
revokes port (some grantee) q peer = port == q && grantee == peer

-- Revoking takes away what it names, and nothing else.
pub allows-remove :
    (g : Grants) (port : ℕ) (to : Option ℕ) (q peer : ℕ)
    → allows (remove g port to) q peer ≡ (not (revokes port to q peer) && allows g q peer)
unfolding allows remove
allows-remove g port (some grantee) q peer = among-remove_one port grantee q peer g.by_port
allows-remove g port none q peer = ground (arith, get-remove port q g.by_port)

-- An evicted peer loses every grant, and the others keep theirs.
pub allows-revoke_grantee :
    (g : Grants) (gone q peer : ℕ)
    → IsValid g
    → allows (revoke_grantee g gone) q peer ≡ (not (gone == peer) && allows g q peer)
unfolding allows revoke_grantee
allows-revoke_grantee g gone q peer v = elim (Option-cases (get q g.by_port)) [
  | inl e ↦ rw (get-retain (without gone) q g.by_port v.one_entry, e) (ground arith)
  | inr (grantees, e) ↦
      rw (get-retain (without gone) q g.by_port v.one_entry, e) (among-without gone peer grantees)
]
