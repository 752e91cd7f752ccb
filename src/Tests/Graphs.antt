-- ===== src/Tests/Graphs.antt =====
-- The theorems on nodes, hooks and types, applied to the sample.
use dimmon.Prelude.{ℕ, ◌≤◌, ◌≡◌, refl, List, [], ◌∷◌, arith}
use dimmon.State.{eexist, hook_out}
use dimmon.State.Returns.{Returns}
use dimmon.Hook.{hook_create}
use dimmon.Hook.Create
use dimmon.Hook.Create.{hook_create-Created}
use dimmon.Hook.Peers.{PeerInv, Linked, peered, link_peers-Linked}
use dimmon.Module.{register_types}
use dimmon.Module.Registry.{RegistryInv, register_types-RegistryInv}
use dimmon.Graph.{link_peers, node_create}
use dimmon.Graph.Ids.{Created, node_create-Created}
use dimmon.Tests.Sample.{sample, sample-PeerInv, sample-Ends, sample-NodesInv, sample-RegistryInv}

abbrev cpu : List ℕ
cpu = b'c' ∷ b'p' ∷ b'u' ∷ []

link_peers-Linked_example :
    Returns
      (link_peers 5 6 sample)
      (λ err t. PeerInv t × Linked 5 6 sample err t × (1 ≤ peered sample 5 6 → err ≡ eexist))
link_peers-Linked_example = link_peers-Linked 5 6 sample sample-PeerInv sample-Ends

node_create-Created_example : Returns (node_create cpu sample) (λ r t. Created sample r t)
node_create-Created_example = node_create-Created cpu sample sample-NodesInv (ground arith)

register_types-RegistryInv_example :
    Returns (register_types (2 ∷ 3 ∷ []) sample) (λ _ u. RegistryInv u)
register_types-RegistryInv_example =
    register_types-RegistryInv (2 ∷ 3 ∷ []) sample sample-RegistryInv

-- A second output of the node at 2.
hook_create-Created_example :
    Returns (hook_create 2 hook_out cpu sample) (λ r t. Create.Outcome 2 hook_out cpu sample r t)
hook_create-Created_example =
    hook_create-Created 2 hook_out cpu sample refl (ground arith) (λ _. refl)
