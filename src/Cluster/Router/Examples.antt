-- ===== src/Cluster/Router/Examples.antt =====
-- Two nodes, a provider that counts, and the theorem on routes applied to them.
use poker.Cluster.Registry.{
  NodeInfo, NodeRegistry, allocate_table_id, assign_room, consume_join_ticket, count_table,
  healthy_nodes, heartbeat, insert_node, is_issued, is_new_assignment, is_taken, live_nodes,
  node_before, node_is_healthy, room_owner, sort_nodes, store_join_ticket, text_lt,
}
use poker.Cluster.Router.{
  LobbyRouter, RouteAssignment, assign_new_table, assign_to, claim_room, issue, node_of,
  route_existing_table, route_to,
}
use poker.Cluster.Router.Routes.{IsRoute, assign_new_table-routes}
use poker.Prelude.{
  [], erase_key, erase_text, find_key, find_text, put_key, put_text, refl, suc, text_eq, ℕ, ◌+◌,
  ◌∷◌,
}
use poker.Security.Crypto.{CryptoProvider}

abbrev counting : CryptoProvider
counting = record {
  State = ℕ;
  hash_password = λ s password. (password, s);
  verify_password = text_eq;
  generate_session_token = λ s. (s ∷ [], suc s);
  hash_session_token = λ token. b'h' ∷ token;
}

abbrev node : ℕ → ℕ → NodeInfo
node name tables = record {
  node_id = name ∷ [];
  endpoint = b'e' ∷ [];
  active_tables = tables;
  connections = 0;
}

abbrev two_nodes : NodeRegistry
two_nodes = record {
  nodes =
      (b'a' ∷ [], record { value = node b'a' 3; expires_at_ms = 900 })
      ∷ (b'b' ∷ [], record { value = node b'b' 2; expires_at_ms = 900 })
      ∷ (b'c' ∷ [], record { value = node b'c' 0; expires_at_ms = 100 })
      ∷ [];
  rooms = [];
  tickets = [];
  next_table_id = 1000;
}

abbrev lobby : LobbyRouter
lobby = record { room_ttl_seconds = 86400; ticket_ttl_seconds = 30 }

abbrev ticking : ℕ → ℕ
ticking n = 200 + n

abbrev routed : NodeRegistry
unfolding heartbeat text_lt node_before insert_node sort_nodes live_nodes healthy_nodes
    allocate_table_id node_is_healthy count_table is_taken is_new_assignment assign_room room_owner
    is_issued store_join_ticket consume_join_ticket node_of issue assign_to assign_new_table
    route_to claim_room route_existing_table find_text put_text erase_text find_key put_key
    erase_key text_eq
routed = (assign_new_table counting lobby two_nodes 5 ticking 1000 7).1.0

abbrev to_second : RouteAssignment
to_second = record { node = node b'b' 2; join_ticket = 5 ∷ [] }

assign_new_table-routes_example : IsRoute counting lobby two_nodes routed ticking 1000 7 to_second
unfolding routed heartbeat text_lt node_before insert_node sort_nodes live_nodes healthy_nodes
    allocate_table_id node_is_healthy count_table is_taken is_new_assignment assign_room room_owner
    is_issued store_join_ticket consume_join_ticket node_of issue assign_to assign_new_table
    route_to claim_room route_existing_table find_text put_text erase_text find_key put_key
    erase_key text_eq
assign_new_table-routes_example =
    assign_new_table-routes counting lobby two_nodes routed 5 6 ticking 1000 7 to_second refl
