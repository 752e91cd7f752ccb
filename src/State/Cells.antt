-- ===== src/State/Cells.antt =====
-- The tail queue of an event's subscriptions: searching, unlinking, and the nodes that it names.
use dimmon.Prelude.{
  ◌++◌, ap, suc, length, ◌≡◌, refl, List, [], ◌∷◌, map, arith, ◌==◌, if◌then◌else◌, unlink,
}
use dimmon.State.{Addr, Eventnode}

abbrev pub nodes_of : List Eventnode → List Addr
nodes_of = map λ c. c.en_node

-- Unlinks the first cell of a node.
unfoldable pub unlink_node : Addr → List Eventnode → List Eventnode
unlink_node n [] = []
unlink_node n (c ∷ cs) = if c.en_node == n then cs else c ∷ unlink_node n cs

pub nodes_of-unlink_node :
    (n : Addr) (cs : List Eventnode) → nodes_of (unlink_node n cs) ≡ unlink n (nodes_of cs)
unfolding unlink_node unlink
nodes_of-unlink_node n [] = refl
nodes_of-unlink_node n (c ∷ cs) = ground (arith, nodes_of-unlink_node n cs)

pub length-nodes_of : (cs : List Eventnode) → length (nodes_of cs) ≡ length cs
length-nodes_of [] = refl
length-nodes_of (c ∷ cs) = ap suc (length-nodes_of cs)

pub nodes_of-append :
    (cs : List Eventnode) (c : Eventnode) → nodes_of (cs ++ c ∷ []) ≡ nodes_of cs ++ c.en_node ∷ []
nodes_of-append [] c = refl
nodes_of-append (d ∷ cs) c = ap (◌∷◌ d.en_node) (nodes_of-append cs c)
