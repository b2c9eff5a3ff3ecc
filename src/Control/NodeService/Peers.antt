-- ===== src/Control/NodeService/Peers.antt =====
-- `getPeers` of control-plane/service/node_service.go.
use Prim.Native.String.{String}
use res.Base.{Bool, false, not, ◌==◌, string_eq}
use res.Control.Nodes.{Node, NodeStatus, text_or_empty}
use res.Control.NodeService.{Peer}

-- What a peer is told of a node.
abbrev pub peer_of : Node → Peer
peer_of n = record {
  public_key = n.public_key;
  endpoint = text_or_empty n.endpoint;
  internal_ip = n.internal_ip;
  node_type = n.node_type;
}

-- Who is told of a node: any other than itself, whatever the account, unless the node is offline.
abbrev pub is_told : String → Node → Bool
is_told id n = elim n.status [
  | NodeStatus.offline ↦ false
  | NodeStatus.online ↦ not (n.id == id)
  | NodeStatus.degraded ↦ not (n.id == id)
]
