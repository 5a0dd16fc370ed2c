-- ===== src/PtrMap.antt =====
-- boost::ptr_map from strings to values, as bingo/RabbitMQ/config and bingo/TCP/config use it: a list in
-- the order of its keys.
pub mod Keys
use bingo_v.Prelude.{Option, none, some, List, [], ◌∷◌, if◌then◌else◌}
use bingo_v.Bytes.{Bytes, same, before}

abbrev pub PtrMap : Type 0 → Type 0
PtrMap V = List (Bytes × V)

-- value_.insert(key, v): a key that is there keeps its value.
unfoldable pub insert : {V : Type 0} → Bytes → V → PtrMap V → PtrMap V
insert k v [] = (k, v) ∷ []
insert k v ((k', v') ∷ rest) =
    let later = (k', v') ∷ insert k v rest in
    if before k k' then (k, v) ∷ (k', v') ∷ rest else if before k' k then later else (k', v') ∷ rest

-- value_.find(key)
unfoldable pub find : {V : Type 0} → Bytes → PtrMap V → Option V
find k [] = none
find k ((k', v') ∷ rest) = let later = find k rest in if same k' k then some v' else later
