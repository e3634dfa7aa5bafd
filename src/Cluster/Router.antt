-- ===== src/Cluster/Router.antt =====
-- `LobbyRouter` of include/poker/cluster/lobby_router.hpp and src/poker/cluster/lobby_router.cpp, over
-- the registry in memory. The clock is an argument of a call: the time of each of its readings, which
-- are as many as the call's operations on the registry, in their order.
pub mod Order
pub mod Routes
mod Examples
use poker.Cluster.Registry.{
  JoinTicket, NodeInfo, NodeRegistry, assign_room, healthy_nodes, room_owner, store_join_ticket,
}
use poker.Prelude.{
  Bool, List, Option, Text, [], false, if◌then◌else◌, is_empty_text, none, not, some, text_eq, ℕ,
  ◌&&◌, ◌==◌, ◌||◌, ◌∷◌,
}
use poker.Security.Crypto.{CryptoProvider}

pub record RouteAssignment : Type 0 where
  pub node : NodeInfo
  pub join_ticket : Text

pub record LobbyRouter : Type 0 where
  pub room_ttl_seconds : ℕ
  pub ticket_ttl_seconds : ℕ

-- The search for a node by its id.
unfoldable pub node_of : Text → List NodeInfo → Option NodeInfo
node_of node_id [] = none
node_of node_id (n ∷ nodes) = if text_eq n.node_id node_id then some n else node_of node_id nodes

module _ (crypto : CryptoProvider) (router : LobbyRouter) where
  open crypto use {State, generate_session_token, hash_session_token}

  -- The route, and the state of the registry and of the provider.
  abbrev pub Routed : Type 0
  Routed = Option RouteAssignment × (NodeRegistry × State)

  unfoldable pub issue : NodeRegistry → State → ℕ → NodeInfo → ℕ → ℕ → Routed
  unfolding store_join_ticket
  issue r s now node table_id user_id =
      let raw = generate_session_token s in
      let ticket : JoinTicket = record { user_id = user_id; table_id = table_id } in
      let stored =
        store_join_ticket r now (hash_session_token raw.0) ticket router.ticket_ttl_seconds in
      if stored.0
      then (some (record { node = node; join_ticket = raw.0 }), (stored.1, raw.1))
      else (none, (stored.1, raw.1))

  -- `assignNewTable` with the first of the healthy nodes.
  unfoldable pub assign_to : NodeRegistry → State → (ℕ → ℕ) → NodeInfo → ℕ → ℕ → Routed
  unfolding assign_room issue
  assign_to r s clock node table_id user_id =
      let assigned = assign_room r (clock 1) table_id node.node_id router.room_ttl_seconds in
      if assigned.0
      then issue assigned.1 s (clock 2) node table_id user_id
      else (none, (assigned.1, s))

  unfoldable pub assign_new_table : NodeRegistry → State → (ℕ → ℕ) → ℕ → ℕ → Routed
  unfolding healthy_nodes assign_to
  assign_new_table r s clock table_id creator_user_id =
      let healthy = healthy_nodes r (clock 0) in
      if table_id == 0 || creator_user_id == 0 then (none, (healthy.1, s)) else elim healthy.0 [
        | [] ↦ (none, (healthy.1, s))
        | node ∷ nodes ↦ assign_to healthy.1 s clock node table_id creator_user_id
      ]

  -- The end of `routeExistingTable`: the owner must be the one expected, and healthy.
  unfoldable pub route_to :
      NodeRegistry → State → ℕ → List NodeInfo → Option Text → ℕ → ℕ → Text → Routed
  unfolding issue node_of
  route_to r s now nodes none table_id user_id expected = (none, (r, s))
  route_to r s now nodes (some owner) table_id user_id expected =
      if not (is_empty_text expected) && not (text_eq owner expected)
      then (none, (r, s))
      else elim (node_of owner nodes) [
        | none ↦ (none, (r, s))
        | some node ↦ issue r s now node table_id user_id
      ]

  -- A room without an owner goes to the expected node, if that is healthy.
  unfoldable pub claim_room : NodeRegistry → ℕ → List NodeInfo → ℕ → Text → Bool × NodeRegistry
  unfolding assign_room node_of
  claim_room r now nodes table_id expected = elim (node_of expected nodes) [
    | none ↦ (false, r)
    | some node ↦ assign_room r now table_id expected router.room_ttl_seconds
  ]

  unfoldable pub route_existing_table : NodeRegistry → State → (ℕ → ℕ) → ℕ → ℕ → Text → Routed
  unfolding room_owner healthy_nodes claim_room route_to
  route_existing_table r s clock table_id user_id expected =
      let owner = room_owner r (clock 0) table_id in
      let healthy = healthy_nodes owner.1 (clock 1) in
      if table_id == 0 || user_id == 0 then (none, (r, s)) else elim owner.0 [
        | some id ↦ route_to healthy.1 s (clock 2) healthy.0 (some id) table_id user_id expected
        | none ↦
            let claimed = claim_room healthy.1 (clock 2) healthy.0 table_id expected in
            if is_empty_text expected
            then (none, (healthy.1, s))
            else if claimed.0
            then route_to claimed.1 s (clock 3) healthy.0 (some expected) table_id user_id expected
            else (none, (claimed.1, s))
      ]
