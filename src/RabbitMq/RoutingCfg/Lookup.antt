-- ===== src/RabbitMq/RoutingCfg/Lookup.antt =====
-- bingo/RabbitMQ/config/rb_sendor_cfg.cpp: how get_by_key and map_to_routingkey agree.
use bingo_v.Prelude.{
  ℕ, zero, suc, ◌<◌, ◌≡◌, ◌↔◌, ◌⊎◌, refl, inl, inr, Option, none, some, List, [], ◌∷◌, length,
  get_elem?, arith,
}
use bingo_v.Bytes.{Bytes}
use bingo_v.RabbitMq.RoutingCfg.{
  RbRoutingSendorCfgValue, RbRoutingSendorCfg, route, by_key, get_by_key, to_route,
  map_to_routingkey, at_index, element,
}

-- The value found for a key holds the pair that map_to_routingkey uses.
abbrev HasRoute : Bytes → Bytes → Option RbRoutingSendorCfgValue → Type 0
HasRoute k r none = ◌≡◌ {A = Bytes} r []
HasRoute k r (some v) = route k v.routingkeyset ≡ some r

by_key-HasRoute :
    (k : Bytes) (vs : List RbRoutingSendorCfgValue) → HasRoute k (to_route k vs) (by_key k vs)
unfolding by_key to_route
by_key-HasRoute k [] = refl
by_key-HasRoute k (v ∷ vs) = ground (arith, by_key-HasRoute k vs)

-- If get_by_key finds a value for a key, map_to_routingkey gives the routing key of the first pair of that
-- value with this key; if it finds none, map_to_routingkey gives the empty text.
pub map_to_routingkey_lem :
    (c : RbRoutingSendorCfg) (k : Bytes)
    → ((v : RbRoutingSendorCfgValue) × (get_by_key c k ≡ some v)
        × (route k v.routingkeyset ≡ some (map_to_routingkey c k)))
      ⊎ ((get_by_key c k ≡ none) × (map_to_routingkey c k ≡ []))
unfolding get_by_key map_to_routingkey
map_to_routingkey_lem c k = by (by_key k c.values) refl (by_key-HasRoute k c.values)
  where
    by :
        (o : Option RbRoutingSendorCfgValue)
        → by_key k c.values ≡ o
        → HasRoute k (to_route k c.values) o
        → ((v : RbRoutingSendorCfgValue) × (by_key k c.values ≡ some v)
            × (route k v.routingkeyset ≡ some (to_route k c.values)))
          ⊎ ((by_key k c.values ≡ none) × (to_route k c.values ≡ []))
    by none e h = inr (e, h)
    by (some v) e h = inl (v, e, h)

get_elem?-within :
    {A : Type 0} (xs : List A) (i : ℕ) → i < length xs → (a : A) × (get_elem? xs i ≡ some a)
get_elem?-within [] i h = absurd (omega arith)
get_elem?-within (x ∷ xs) zero h = (x, refl)
get_elem?-within (x ∷ xs) (suc i) h = get_elem?-within xs i (omega arith)

-- operator[] reads past the end exactly when the configuration is empty and the index is 0.
pub at_index_iff :
    (c : RbRoutingSendorCfg) (i : ℕ) → (at_index c i ≡ none) ↔ ((c.values ≡ []) × (i ≡ 0))
unfolding at_index element
at_index_iff c i = by c.values refl
  where
    by :
        (vs : List RbRoutingSendorCfgValue)
        → c.values ≡ vs
        → (at_index c i ≡ none) ↔ ((c.values ≡ []) × (i ≡ 0))
    by [] e = ground arith
    by (v ∷ vs) e = ground (arith, get_elem?-within (v ∷ vs) i)
