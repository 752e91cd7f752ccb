-- ===== src/Graph/Names.antt =====
-- dmm_node_setname in dmm_base.c: which names it takes.
use dimmon.Prelude.{◌≡◌, ℕ, List, not, ◌&&◌, if◌then◌else◌, arith}
use dimmon.State.{Addr, Sys, ok, einval, with_node}
use dimmon.Hook.Names.{is_plain, name_stop-is_plain}
use dimmon.Graph.{node_setname}

-- Of a valid node, a name of at most 31 bytes without brackets becomes the name; any other name,
-- and any name for a node that is not valid, is refused with EINVAL and changes nothing.
pub node_setname-is_plain :
    (a : Addr) (name : List ℕ) (s : Sys)
    → node_setname a name s ≡ (
        if not (s.node a).nd_invalid && is_plain 31 name
        then ok 0 (with_node a (λ n. record n { nd_name = name }) s)
        else ok einval s)
unfolding node_setname
node_setname-is_plain a name s = ground (arith, name_stop-is_plain 31 name)
