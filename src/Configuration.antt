-- ===== src/Configuration.antt =====
-- bingo/configuration/node.h and node.cpp: the tree of nodes that a parser of a configuration file
-- makes. What boost::property_tree reads from a file is a parameter of the components that use it.
pub mod Checks
use bingo_v.Prelude.{Option, none, some, List, [], ◌∷◌, if◌then◌else◌}
use bingo_v.ErrorWhat.{ErrorWhat}
use bingo_v.Bytes.{Bytes, same}

pub record NodeAttr : Type 0 where
  pub name : Bytes
  pub value : Bytes

mutual
  -- The struct node.
  pub data Node : Type 0 where
    node : Bytes → Bytes → List NodeAttr → NodeSet → Node

  pub data NodeSet : Type 0 where
    no_node : NodeSet
    and_node : Node → NodeSet → NodeSet

-- What xml_parser::get_node gives: 0 with the error that the parser then has, or the node.
pub data Found : Type 0 where
  missing : ErrorWhat → Found
  found : Node → Found

unfoldable pub attrs : Node → List NodeAttr
attrs (node n v as_ cs) = as_

-- node_attr_set::operator[](const char*)
unfoldable pub find_attr : List NodeAttr → Bytes → Option NodeAttr
find_attr [] n = none
find_attr (a ∷ rest) n = let later = find_attr rest n in if same a.name n then some a else later

-- node_set::collection()
unfoldable pub collection : NodeSet → List Node
collection no_node = []
collection (and_node n ns) = n ∷ collection ns

-- node::child, and node::value
unfoldable pub child : Node → NodeSet
child (node n v as_ cs) = cs

unfoldable pub value : Node → Bytes
value (node n v as_ cs) = v

unfoldable pub name : Node → Bytes
name (node n v as_ cs) = n

-- node_set::push_back(n)
unfoldable pub push_back : NodeSet → Node → NodeSet
push_back no_node n = and_node n no_node
push_back (and_node m ns) n = and_node m (push_back ns n)

-- node_set::operator[](const char*)
unfoldable pub find_node : NodeSet → Bytes → Option Node
unfolding name
find_node no_node n = none
find_node (and_node m ns) n =
    let later = find_node ns n in if same (name m) n then some m else later
