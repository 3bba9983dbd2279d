-- ===== src/Grants/Invariant.antt =====
-- grants.rs: the representation, one entry for each port with at least one grantee in it.
use ig.Base.{
  ℕ, ◌≡◌, refl, false, Option, none, some, List, [], ◌∷◌, arith, set_insert, set_remove, is_empty,
  unwrap_or, Option-cases, inl, inr,
}
use ig.Base.Map.{
  Map, get, insert, retain, keys, keys-insert-Distinct, keys-remove-Distinct, keys-retain-Distinct,
}
use ig.Base.Map
use ig.Grants.{
  Grants, default, add, remove, remove_one, revoke_grantee, without, IsValid, NoneEmpty,
}

insert-NoneEmpty :
    (port : ℕ) (grantees : List ℕ) (m : Map (List ℕ))
    → is_empty grantees ≡ false
    → NoneEmpty m
    → NoneEmpty (insert port grantees m)
unfolding insert
insert-NoneEmpty port grantees [] h v = (h, tt)
insert-NoneEmpty port grantees ((q, w) ∷ m) h v = ground (arith, insert-NoneEmpty port grantees m h)

remove-NoneEmpty : (port : ℕ) (m : Map (List ℕ)) → NoneEmpty m → NoneEmpty (Map.remove port m)
unfolding Map.remove
remove-NoneEmpty port [] v = tt
remove-NoneEmpty port ((q, w) ∷ m) v = ground (arith, remove-NoneEmpty port m)

retain-NoneEmpty : (peer : ℕ) (m : Map (List ℕ)) → NoneEmpty (retain (without peer) m)
unfolding retain
retain-NoneEmpty peer [] = tt
retain-NoneEmpty peer ((q, w) ∷ m) = ground (arith, retain-NoneEmpty peer m)

set_insert-not_empty : (a : ℕ) (xs : List ℕ) → is_empty (set_insert a xs) ≡ false
unfolding set_insert
set_insert-not_empty a [] = refl
set_insert-not_empty a (x ∷ xs) = ground arith

pub default-IsValid : IsValid default
unfolding keys
default-IsValid = record { one_entry = tt; granted = tt }

pub add-IsValid : (g : Grants) (port grantee : ℕ) → IsValid g → IsValid (add g port grantee)
unfolding add
add-IsValid g port grantee v =
    let grantees = set_insert grantee (unwrap_or (get port g.by_port) []) in
    record {
      one_entry = keys-insert-Distinct port grantees g.by_port v.one_entry;
      granted =
          insert-NoneEmpty port grantees g.by_port
            (set_insert-not_empty grantee (unwrap_or (get port g.by_port) [])) v.granted;
    }

remove_one-IsValid :
    (port grantee : ℕ) (m : Map (List ℕ))
    → IsValid (record { by_port = m })
    → IsValid (record { by_port = remove_one port grantee m })
unfolding remove_one
remove_one-IsValid port grantee m v = elim (Option-cases (get port m)) [
  | inl e ↦ rw (e, remove_one) v
  | inr (grantees, e) ↦
      rw (e, remove_one)
        (ground (
          arith,
          keys-remove-Distinct port m v.one_entry,
          remove-NoneEmpty port m v.granted,
          keys-insert-Distinct port (set_remove grantee grantees) m v.one_entry,
          insert-NoneEmpty port (set_remove grantee grantees) m,
        ))
]

pub remove-IsValid :
    (g : Grants) (port : ℕ) (to : Option ℕ) → IsValid g → IsValid (remove g port to)
unfolding remove
remove-IsValid g port (some grantee) v = remove_one-IsValid port grantee g.by_port v
remove-IsValid g port none v = record {
  one_entry = keys-remove-Distinct port g.by_port v.one_entry;
  granted = remove-NoneEmpty port g.by_port v.granted;
}

pub revoke_grantee-IsValid : (g : Grants) (peer : ℕ) → IsValid g → IsValid (revoke_grantee g peer)
unfolding revoke_grantee
revoke_grantee-IsValid g peer v = record {
  one_entry = keys-retain-Distinct (without peer) g.by_port v.one_entry;
  granted = retain-NoneEmpty peer g.by_port;
}
