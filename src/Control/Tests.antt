-- ===== src/Control/Tests.antt =====
-- Runs of the control plane on concrete input, and the theorems applied to them.
use res.Base.{
  get, ◌+◌, ◌≡◌, ◌↔◌, refl, true, false, none, some, List, [], ◌∷◌, ◌++◌, arith, length, Bytes, ok,
  err, map, string_eq, nat_eq, be64, be_value, take, bytes_eq,
}
use res.Control.ToyCrypto.{toy_hmac, toy_base64, raw_key}
use res.Relay.Auth.{authenticate, verify_mesh_token, is_expired}
use res.Relay.SessionTable.{UdpAddr}
use res.Control.Nodes.{
  Node, NodeStatus, Db, is_free, delete_stale_before, count_devices_by_account, update_reregister,
  find_by_device_id_global, most_recent, first_of, update_where, delete_other_by_device_id,
  delete_where, get_all_online, null_string, text_or_empty,
}
use res.Control.Nodes.Filters.{Nodup, same_id}
use res.Control.NodeService.{
  Env, Request, Response, ServiceError, Op, run, register_node, register_known, re_register,
  get_peers, peers_among,
}
use res.Control.NodeService.Linked.{IsOthers, register-err, already_linked_iff}
use res.Control.NodeService.OneRow.{IsOneRow, register-IsOneRow}
use res.Control.NodeService.Unique.{IsValid}
use res.Control.NodeService.Runs.{run-IsValid}
use res.Control.NodeService.Devices.{IsCapped, IsGuarded, run-IsCapped}
use res.Control.NodeService.Addresses.{swept_address_is_lost}
use res.Control.NodeHandler.{Call, serve}
use res.Control.NodeHandler.Owner.{others}
use res.Control.NodeHandler.Foreign.{serve-others}
use res.Control.Scheduler.{cleanup}
use res.Control.Scheduler.Cleanup.{as_expected, cleanup_exact}
use res.Control.Stun.{binding_request, ip_bytes}
use res.Control.Stun.{Server as StunServer, Event as StunEvent, serve as serve_stun}
use res.Control.Graph.Links.{IsIn}
use res.Control.Stun.Answer.{IsAddr, transaction, xor_address, mapped_address, runs_of, binding_lem}
use res.Control.Events.{Event, contains, subscribe, new_broker, publish, send_all, subs_of}
use res.Control.Events.{run as run_broker, step as step_broker}
use res.Control.Events.Wakes.{published, wake_exact}
use res.Control.Nodes.{update_where}
use res.Control.MeshToken.{mint, mesh_token_ttl, mint_binding}

abbrev other_key : Bytes
other_key =
    1 ∷ 0 ∷ 0 ∷ 0 ∷ 0 ∷ 0 ∷ 0 ∷ 0 ∷ 0 ∷ 0 ∷ 0 ∷ 0 ∷ 0 ∷ 0 ∷ 0 ∷ 0 ∷ 0 ∷ 0 ∷ 0 ∷ 0 ∷ 0 ∷ 0 ∷ 0 ∷ 0
    ∷ 0 ∷ 0 ∷ 0 ∷ 0 ∷ 0 ∷ 0 ∷ 0 ∷ 0 ∷ []

-- Under this MAC all keys coincide.
other_accepted :
    authenticate toy_hmac
      (1 ∷ [])
      (other_key ++ (mint toy_hmac toy_base64 (1 ∷ []) raw_key 100 ++ []))
      200
    ≡ ok other_key
unfolding authenticate verify_mesh_token mint is_expired be_value be64
other_accepted = refl

mint_binding_example :
    (other_key ≡ other_key)
    × (toy_hmac.mac (1 ∷ []) (other_key ++ be64 (100 + mesh_token_ttl))
        ≡ toy_hmac.mac (1 ∷ []) (raw_key ++ be64 (100 + mesh_token_ttl)))
mint_binding_example =
    mint_binding toy_hmac toy_base64 (1 ∷ []) [] raw_key other_key other_key 100 200 (λ e. cc e)
      refl other_accepted

abbrev all_up : Env
all_up = record { up = λ s. true; now = 1000; fresh_id = "n2"; pick = 0; bits = 3 }

-- A device of the account a, and a node of b without one.
abbrev pub phone : Node
phone = record {
  id = "n0";
  account_id = "a";
  name = "phone";
  node_type = "client";
  os = none;
  device_id = some "d0";
  public_key = "k0";
  endpoint = none;
  nat_type = none;
  internal_ip = some 1;
  status = NodeStatus.online;
  sort_order = 0;
  shared_folder = none;
  lan_ip = none;
  last_seen = some 100;
  created_at = 50;
}

abbrev pub laptop : Node
laptop = record phone {
  id = "n1";
  account_id = "b";
  device_id = none;
  public_key = "k1";
  internal_ip = some 2;
  last_seen = some 900;
}

abbrev two_nodes : Db
two_nodes = record {
  nodes = phone ∷ laptop ∷ [];
  ip_allocations = (1, some "n0") ∷ (2, some "n1") ∷ [];
}

abbrev move_request : Request
move_request = record {
  name = "phone";
  node_type = "client";
  os = "android";
  public_key = "k9";
  device_id = "d0";
}

two_nodes_ids : Nodup same_id two_nodes.nodes
two_nodes_ids = (refl, (refl, tt))

two_nodes-IsValid : IsValid two_nodes
two_nodes-IsValid = record {
  ids = two_nodes_ids;
  keys = (refl, (refl, tt));
  ips = (refl, (refl, tt));
}

abbrev move_response : Response
move_response = record {
  node_id = "n0";
  internal_ip = some 1;
  peers =
      record { public_key = "k1"; endpoint = ""; internal_ip = some 2; node_type = "client" } ∷ [];
}

move_succeeds : (register_node all_up false "b" move_request two_nodes).0 ≡ ok move_response
unfolding register_node register_known re_register update_reregister find_by_device_id_global
    most_recent first_of update_where delete_other_by_device_id delete_where get_peers
    get_all_online peers_among null_string text_or_empty
move_succeeds = refl

register-IsOneRow_example :
    IsOneRow "b" move_request move_response
      (register_node all_up false "b" move_request two_nodes).1
register-IsOneRow_example =
    register-IsOneRow all_up false "b" move_request two_nodes move_response (λ e. cc e) refl refl
      two_nodes_ids move_succeeds

move_refused :
    (register_node all_up true "b" move_request two_nodes).0
    ≡ err ServiceError.device_already_linked
unfolding register_node register_known find_by_device_id_global most_recent first_of
move_refused = refl

register-err_example : (register_node all_up true "b" move_request two_nodes).1 ≡ two_nodes
register-err_example =
    register-err all_up true "b" move_request two_nodes ServiceError.device_already_linked
      move_refused

already_linked_iff_example :
    ((register_node all_up true "b" move_request two_nodes).0
      ≡ err ServiceError.device_already_linked)
    ↔ IsOthers all_up true "b" move_request two_nodes
already_linked_iff_example = already_linked_iff all_up true "b" move_request two_nodes

abbrev day : List Op
day =
    Op.register all_up true "a" move_request
    ∷ Op.heartbeat all_up "n1" "1.2.3.4:5" ""
    ∷ Op.deregister all_up "n0"
    ∷ Op.sweep 1
    ∷ []

run-IsValid_example : IsValid (run day two_nodes)
run-IsValid_example = run-IsValid day two_nodes two_nodes-IsValid

two_nodes-IsCapped : IsCapped two_nodes
unfolding IsCapped count_devices_by_account
two_nodes-IsCapped account = ground arith

run-IsCapped_example : IsCapped (run day two_nodes)
unfolding IsGuarded
run-IsCapped_example =
    run-IsCapped day two_nodes (refl, (tt, (tt, (tt, tt)))) two_nodes-IsCapped two_nodes-IsValid

serve-others_example :
    others "b" (serve all_up "b" (Call.deletes "n0") two_nodes) ≡ others "b" two_nodes
serve-others_example = serve-others all_up "b" (Call.deletes "n0") two_nodes two_nodes_ids

swept_address_is_lost_example : is_free 1 (delete_stale_before 500 two_nodes).0 ≡ false
swept_address_is_lost_example = swept_address_is_lost 500 1 two_nodes refl

cleanup_exact_example :
    ((cleanup true (λ id. true) 1000 500 two_nodes).0.nodes
      ≡ map (as_expected (λ id. true) 1000 500) two_nodes.nodes)
    × (cleanup false (λ id. true) 1000 500 two_nodes ≡ (two_nodes, []))
cleanup_exact_example = cleanup_exact (λ id. true) 1000 500 two_nodes two_nodes_ids

abbrev stun_client : UdpAddr
stun_client = record { a = 203; b = 0; c = 113; d = 7; port = 40000 }

abbrev stun_request : Bytes
stun_request =
    0 ∷ 1 ∷ 0 ∷ 0 ∷ 33 ∷ 18 ∷ 164 ∷ 66 ∷ 1 ∷ 2 ∷ 3 ∷ 4 ∷ 5 ∷ 6 ∷ 7 ∷ 8 ∷ 9 ∷ 10 ∷ 11 ∷ 12 ∷ []

stun_client-IsAddr : IsAddr stun_client
stun_client-IsAddr = record {
  a = omega arith;
  b = omega arith;
  c = omega arith;
  d = omega arith;
  port = omega arith;
}

stun_request_type : be_value (take 2 stun_request) ≡ binding_request
unfolding be_value
stun_request_type = refl

abbrev stun_server : StunServer
stun_server = record { buf = []; tasks = []; sent = [] }

binding_lem_example :
    (resp : Bytes) × IsIn
      (resp, stun_client)
      (serve_stun
        (StunEvent.arrives (some stun_client) stun_request ∷ runs_of (0 ∷ 4 ∷ 0 ∷ []))
        stun_server).sent
    × (length resp ≡ 44)
    × (transaction resp ≡ transaction stun_request)
    × (xor_address resp ≡ (stun_client.port, ip_bytes stun_client))
    × (mapped_address resp ≡ (stun_client.port, ip_bytes stun_client))
binding_lem_example =
    binding_lem stun_client stun_request stun_server (0 ∷ 4 ∷ 0 ∷ []) stun_client-IsAddr
      (omega arith) stun_request_type (omega arith)

abbrev wakes : List Event
wakes = Event.publishes "b" ∷ Event.receives 7 ∷ Event.publishes "a" ∷ Event.subscribes "a" ∷ []

wake_exact_example :
    contains
      (subscribe "a" (run_broker (Event.publishes "a" ∷ []) new_broker)).0
      (run_broker wakes (subscribe "a" (run_broker (Event.publishes "a" ∷ []) new_broker)).1).full
    ≡ published "a" wakes
unfolding run_broker step_broker publish send_all subs_of get subscribe new_broker
wake_exact_example = wake_exact (Event.publishes "a" ∷ []) wakes "a" (tt, (refl, (tt, (tt, tt))))
