-- ===== src/Cluster/Registry.antt =====
-- `InMemoryNodeRegistry` of include/poker/cluster/in_memory_node_registry.hpp and
-- src/poker/cluster/in_memory_node_registry.cpp, with the types of node_registry.hpp. An operation runs
-- under the registry's mutex, so it is one step; the time that the clock shows is an argument. Times
-- are not negative, and do not wrap around.
use poker.Prelude.{
  Bool, List, Option, Text, [], erase_key, erase_text, false, find_key, find_text, if◌then◌else◌,
  inc64, is_empty_text, leb, ltb, none, not, put_key, put_text, some, text_eq, true, ℕ, ◌&&◌, ◌*◌,
  ◌+◌, ◌==◌, ◌||◌, ◌∷◌,
}

pub record NodeInfo : Type 0 where
  pub node_id : Text
  pub endpoint : Text
  pub active_tables : ℕ
  pub connections : ℕ

pub record JoinTicket : Type 0 where
  pub user_id : ℕ
  pub table_id : ℕ

pub record Expiring (A : Type 0) : Type 0 where
  pub value : A
  pub expires_at_ms : ℕ

pub record NodeRegistry : Type 0 where
  pub nodes : List (Text × Expiring NodeInfo)
  pub rooms : List (ℕ × Expiring Text)
  pub tickets : List (Text × Expiring JoinTicket)
  pub next_table_id : ℕ

abbrev pub expiry : ℕ → ℕ → ℕ
expiry now ttl_seconds = now + ttl_seconds * 1000

unfoldable pub heartbeat : NodeRegistry → ℕ → NodeInfo → ℕ → Bool × NodeRegistry
heartbeat r now node ttl_seconds =
    if is_empty_text node.node_id || is_empty_text node.endpoint || ttl_seconds == 0
    then (false, r)
    else (
      true,
      record r {
        nodes =
            put_text node.node_id (record { value = node; expires_at_ms = expiry now ttl_seconds })
              r.nodes;
      },
    )

-- `operator<` of `std::string`.
unfoldable pub text_lt : Text → Text → Bool
text_lt [] [] = false
text_lt [] (y ∷ ys) = true
text_lt (x ∷ xs) [] = false
text_lt (x ∷ xs) (y ∷ ys) = ltb x y || (x == y && text_lt xs ys)

-- The comparison that `healthyNodes` sorts by.
unfoldable pub node_before : NodeInfo → NodeInfo → Bool
unfolding text_lt
node_before lhs rhs =
    if not (lhs.active_tables == rhs.active_tables)
    then ltb lhs.active_tables rhs.active_tables
    else if not (lhs.connections == rhs.connections)
    then ltb lhs.connections rhs.connections
    else text_lt lhs.node_id rhs.node_id

unfoldable pub insert_node : NodeInfo → List NodeInfo → List NodeInfo
insert_node n [] = n ∷ []
insert_node n (m ∷ nodes) = if node_before m n then m ∷ insert_node n nodes else n ∷ m ∷ nodes

unfoldable pub sort_nodes : List NodeInfo → List NodeInfo
unfolding insert_node
sort_nodes [] = []
sort_nodes (n ∷ nodes) = insert_node n (sort_nodes nodes)

-- The entries that have not expired.
unfoldable pub live_nodes : ℕ → List (Text × Expiring NodeInfo) → List (Text × Expiring NodeInfo)
live_nodes now [] = []
live_nodes now ((id, n) ∷ nodes) =
    if leb n.expires_at_ms now then live_nodes now nodes else (id, n) ∷ live_nodes now nodes

abbrev pub values : List (Text × Expiring NodeInfo) → List NodeInfo
values [] = []
values ((id, n) ∷ nodes) = n.value ∷ values nodes

unfoldable pub healthy_nodes : NodeRegistry → ℕ → List NodeInfo × NodeRegistry
unfolding live_nodes sort_nodes
healthy_nodes r now =
    (sort_nodes (values (live_nodes now r.nodes)), record r { nodes = live_nodes now r.nodes })

unfoldable pub allocate_table_id : NodeRegistry → Option ℕ × NodeRegistry
allocate_table_id r =
    if r.next_table_id == 0
    then (none, r)
    else (some r.next_table_id, record r { next_table_id = inc64 r.next_table_id })

unfoldable pub node_is_healthy : NodeRegistry → Text → ℕ → Bool
node_is_healthy r node_id now = elim (find_text node_id r.nodes) [
  | none ↦ false
  | some n ↦ not (leb n.expires_at_ms now)
]

abbrev pub counted : Expiring NodeInfo → Expiring NodeInfo
counted n = record n { value = record n.value { active_tables = inc64 n.value.active_tables } }

-- The increment of `active_tables` of the node.
unfoldable pub count_table :
    Text → List (Text × Expiring NodeInfo) → List (Text × Expiring NodeInfo)
count_table node_id nodes = elim (find_text node_id nodes) [
  | none ↦ nodes
  | some n ↦ put_text node_id (counted n) nodes
]

-- The room is kept by a node of another name.
unfoldable pub is_taken : Option (Expiring Text) → Text → ℕ → Bool
is_taken none node_id now = false
is_taken (some e) node_id now = not (leb e.expires_at_ms now) && not (text_eq e.value node_id)

unfoldable pub is_new_assignment : Option (Expiring Text) → ℕ → Bool
is_new_assignment none now = true
is_new_assignment (some e) now = leb e.expires_at_ms now

unfoldable pub assign_room : NodeRegistry → ℕ → ℕ → Text → ℕ → Bool × NodeRegistry
unfolding node_is_healthy is_taken is_new_assignment count_table
assign_room r now table_id node_id ttl_seconds =
    let existing = find_key table_id r.rooms in
    if table_id == 0 || ttl_seconds == 0 || not (node_is_healthy r node_id now)
    then (false, r)
    else if is_taken existing node_id now
    then (false, r)
    else (
      true,
      record r {
        rooms =
            put_key table_id (record { value = node_id; expires_at_ms = expiry now ttl_seconds })
              r.rooms;
        nodes = if is_new_assignment existing now then count_table node_id r.nodes else r.nodes;
      },
    )

unfoldable pub room_owner : NodeRegistry → ℕ → ℕ → Option Text × NodeRegistry
unfolding node_is_healthy
room_owner r now table_id = elim (find_key table_id r.rooms) [
  | none ↦ (none, r)
  | some room ↦
      if leb room.expires_at_ms now || not (node_is_healthy r room.value now)
      then (none, record r { rooms = erase_key table_id r.rooms })
      else (some room.value, r)
]

-- A ticket with the hash that is still to expire.
unfoldable pub is_issued : Option (Expiring JoinTicket) → ℕ → Bool
is_issued none now = false
is_issued (some t) now = not (leb t.expires_at_ms now)

unfoldable pub store_join_ticket : NodeRegistry → ℕ → Text → JoinTicket → ℕ → Bool × NodeRegistry
unfolding is_issued
store_join_ticket r now token_hash ticket ttl_seconds =
    if is_empty_text token_hash || ticket.user_id == 0 || ticket.table_id == 0 || ttl_seconds == 0
    then (false, r)
    else if is_issued (find_text token_hash r.tickets) now
    then (false, r)
    else (
      true,
      record r {
        tickets =
            put_text token_hash (record { value = ticket; expires_at_ms = expiry now ttl_seconds })
              r.tickets;
      },
    )

unfoldable pub consume_join_ticket : NodeRegistry → ℕ → Text → Option JoinTicket × NodeRegistry
consume_join_ticket r now token_hash = elim (find_text token_hash r.tickets) [
  | none ↦ (none, r)
  | some t ↦ (
    if leb t.expires_at_ms now then none else some t.value,
    record r { tickets = erase_text token_hash r.tickets },
  )
]
