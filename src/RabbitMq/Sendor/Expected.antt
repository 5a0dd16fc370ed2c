-- ===== src/RabbitMq/Sendor/Expected.antt =====
-- bingo/RabbitMQ/handlers: what is to be published for a key and a body, by the configuration.
use bingo_v.Prelude.{
  ◌≡◌, refl, ap₂, first, false, Option, none, some, List, [], ◌∷◌, ◌++◌, map, arith,
}
use bingo_v.Bytes.{Bytes, c_str, same}
use bingo_v.PtrMap.{find}
use bingo_v.RabbitMq.SendorCfg as Keys
use bingo_v.RabbitMq.SendorCfg.{RbSendorCfg, RbSendorCfgValue}
use bingo_v.RabbitMq.RoutingCfg as Routes
use bingo_v.RabbitMq.RoutingCfg.{RbRoutingSendorCfg, RbRoutingSendorCfgValue}
use bingo_v.RabbitMq.Sendor.{Publish}
use bingo_v.RabbitMq.Sendor.Keyed.{Packet}
use bingo_v.RabbitMq.Sendor.Simple as Simple

-- What the senders with the configuration by key publish for a key and a body.
abbrev pub keyed_value : Packet → Bytes → Option RbSendorCfgValue → List Publish
keyed_value packet body none = []
keyed_value packet body (some p) = elim p.channel [ none ↦ [] | some ch ↦ packet p ch body ∷ [] ]

abbrev pub keyed_packets : Packet → RbSendorCfg → List (Bytes × Bytes) → List Publish
keyed_packets packet c [] = []
keyed_packets packet c ((key, body) ∷ ms) =
    keyed_value packet body (Keys.get_by_key c key) ++ keyed_packets packet c ms

abbrev pub routed_value : Bytes → Bytes → Option RbRoutingSendorCfgValue → List Publish
routed_value r body none = []
routed_value r body (some p) = elim p.channel [
  | none ↦ []
  | some ch ↦
      record {
        channel = ch;
        exchange = c_str p.exchange;
        routingkey = c_str r;
        body = body;
        persistent = false;
      }
      ∷ []
]

abbrev pub routed_packets : RbRoutingSendorCfg → List (Bytes × Bytes) → List Publish
routed_packets c [] = []
routed_packets c ((key, body) ∷ ms) =
    routed_value (Routes.map_to_routingkey c key) body (Routes.get_by_key c key)
    ++ routed_packets c ms

-- What is expected of the configuration by key: the body, for the value of the first entry with the key,
-- to the default exchange with its routing key; nothing without an entry or without a channel.
abbrev to_default : Bytes → Option (Bytes × RbSendorCfgValue) → List Publish
to_default body none = []
to_default body (some (k, v)) = elim v.channel [
  | none ↦ []
  | some ch ↦
      record {
        channel = ch;
        exchange = [];
        routingkey = c_str v.routingkey;
        body = body;
        persistent = false;
      }
      ∷ []
]

abbrev pub expected : RbSendorCfg → List (Bytes × Bytes) → List Publish
expected c [] = []
expected c ((key, body) ∷ ms) =
    to_default body (first (λ entry. same entry.0 key) c.values) ++ expected c ms

find-first :
    (key body : Bytes) (vs : Keys.Values)
    → keyed_value Simple.packet body (find key vs)
      ≡ to_default body (first (λ entry. same entry.0 key) vs)
unfolding find Simple.packet
find-first key body [] = refl
find-first key body ((k, v) ∷ vs) = ground (arith, find-first key body vs)

pub keyed_packets-expected :
    (c : RbSendorCfg) (ms : List (Bytes × Bytes)) → keyed_packets Simple.packet c ms ≡ expected c ms
unfolding Keys.get_by_key
keyed_packets-expected c [] = refl
keyed_packets-expected c ((key, body) ∷ ms) =
    ap₂ ◌++◌ (find-first key body c.values) (keyed_packets-expected c ms)

-- The pairs of a key and a routing key, each with its value, over all values in their order.
abbrev routes_of : List RbRoutingSendorCfgValue → List (RbRoutingSendorCfgValue × Bytes × Bytes)
routes_of [] = []
routes_of (v ∷ vs) = map (λ pair. (v, pair.0, pair.1)) v.routingkeyset ++ routes_of vs

-- What is expected of the configuration by routing keys: the body, for the first pair with the key, to
-- the exchange of its value with its routing key; nothing without a pair or without a channel.
abbrev to_exchange : Bytes → Option (RbRoutingSendorCfgValue × Bytes × Bytes) → List Publish
to_exchange body none = []
to_exchange body (some (v, j, r)) = elim v.channel [
  | none ↦ []
  | some ch ↦
      record {
        channel = ch;
        exchange = c_str v.exchange;
        routingkey = c_str r;
        body = body;
        persistent = false;
      }
      ∷ []
]

abbrev pub expected_routed : RbRoutingSendorCfg → List (Bytes × Bytes) → List Publish
expected_routed c [] = []
expected_routed c ((key, body) ∷ ms) =
    to_exchange body (first (λ route. same route.1 (c_str key)) (routes_of c.values))
    ++ expected_routed c ms

abbrev on_route : Bytes → RbRoutingSendorCfgValue → Option Bytes → List Publish → List Publish
on_route body v none later = later
on_route body v (some r) later = routed_value r body (some v)

route-first :
    (key body : Bytes) (v : RbRoutingSendorCfgValue) (set : List (Bytes × Bytes))
    (rest : List (RbRoutingSendorCfgValue × Bytes × Bytes))
    → to_exchange body
        (first (λ route. same route.1 (c_str key)) (map (λ pair. (v, pair.0, pair.1)) set ++ rest))
      ≡ on_route body v
          (Routes.route key set)
          (to_exchange body (first (λ route. same route.1 (c_str key)) rest))
unfolding Routes.route
route-first key body v [] rest = refl
route-first key body v ((j, r) ∷ set) rest = ground (arith, route-first key body v set rest)

by_key-first :
    (key body : Bytes) (vs : List RbRoutingSendorCfgValue)
    → routed_value (Routes.to_route key vs) body (Routes.by_key key vs)
      ≡ to_exchange body (first (λ route. same route.1 (c_str key)) (routes_of vs))
unfolding Routes.to_route Routes.by_key
by_key-first key body [] = refl
by_key-first key body (v ∷ vs) =
    ground (arith, by_key-first key body vs, route-first key body v v.routingkeyset (routes_of vs))

pub routed_packets-expected :
    (c : RbRoutingSendorCfg) (ms : List (Bytes × Bytes))
    → routed_packets c ms ≡ expected_routed c ms
unfolding Routes.get_by_key Routes.map_to_routingkey
routed_packets-expected c [] = refl
routed_packets-expected c ((key, body) ∷ ms) =
    ap₂ ◌++◌ (by_key-first key body c.values) (routed_packets-expected c ms)
