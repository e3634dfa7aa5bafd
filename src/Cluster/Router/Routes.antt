-- ===== src/Cluster/Router/Routes.antt =====
-- What a route that is handed out is worth.
use poker.Cluster.Registry.{
  Expiring, JoinTicket, NodeInfo, NodeRegistry, assign_room, consume_join_ticket, expiry,
  healthy_nodes, is_issued, is_taken, live_nodes, node_is_healthy, store_join_ticket, values,
}
use poker.Cluster.Router.{LobbyRouter, RouteAssignment, assign_new_table, assign_to, issue}
use poker.Cluster.Router.Order.{HeadIsFirst, IsFirst, node_before_irrefl, sort_nodes-first}
use poker.Domain.Table.Sums.{held}
use poker.Prelude.{
  Bool, Bool-cases, List, Text, [], ap, erase_text, false, find_key, find_key-put, find_text,
  find_text-erase, find_text-put_if, if◌then◌else◌, inl, inr, is_empty_text, leb, none, not,
  put_key, put_text, refl, some, subst, text_eq_refl, true, ℕ, ◌==◌, ◌||◌, ◌∷◌, ◌≡◌,
}
use poker.Security.Crypto.{CryptoProvider}

-- A ticket that is stored is delivered once: before it expires to whoever comes first with it, and
-- never again.
abbrev pub IsTicketOnce : NodeRegistry → Text → JoinTicket → ℕ → Type 0
IsTicketOnce r token_hash ticket expires =
    (t u : ℕ)
    → ((consume_join_ticket r t token_hash).0 ≡ (if leb expires t then none else some ticket))
      × ((consume_join_ticket (consume_join_ticket r t token_hash).1 u token_hash).0 ≡ none)

consume_join_ticket-once :
    (r : NodeRegistry) (token_hash : Text) (e : Expiring JoinTicket)
    → find_text token_hash r.tickets ≡ some e
    → IsTicketOnce r token_hash e.value e.expires_at_ms
unfolding consume_join_ticket
consume_join_ticket-once r token_hash e h t u =
    let r' : NodeRegistry = record r { tickets = erase_text token_hash r.tickets } in
    let q : consume_join_ticket r t token_hash
        ≡ (if leb e.expires_at_ms t then none else some e.value, r') =
      rw (h, consume_join_ticket) refl in
    let gone : find_text token_hash r'.tickets ≡ none = find_text-erase token_hash r.tickets in
    let w : consume_join_ticket r' u token_hash ≡ (none, r') =
      rw (gone, consume_join_ticket) refl in
    (rw q refl, rw (q, w) refl)

store_join_ticket-once :
    (r r' : NodeRegistry) (now : ℕ) (token_hash : Text) (ticket : JoinTicket) (ttl : ℕ)
    → store_join_ticket r now token_hash ticket ttl ≡ (true, r')
    → (r'.rooms ≡ r.rooms) × IsTicketOnce r' token_hash ticket (expiry now ttl)
unfolding store_join_ticket
store_join_ticket-once r r' now token_hash ticket ttl h =
    elim (Bool-cases
      (is_empty_text token_hash || ticket.user_id == 0 || ticket.table_id == 0 || ttl == 0)) [
        | inl wrong ↦ let q = rw (wrong, store_join_ticket) at h in cc
        | inr right ↦ elim (Bool-cases (is_issued (find_text token_hash r.tickets) now)) [
          | inl issued ↦ let q = rw (right, issued, store_join_ticket) at h in cc
          | inr fresh_ ↦
              let e : Expiring JoinTicket = record {
                value = ticket;
                expires_at_ms = expiry now ttl;
              } in
              let q = rw (right, fresh_, store_join_ticket) at h in
              let same : record r { tickets = put_text token_hash e r.tickets } ≡ r' = cc in
              let there : find_text token_hash (put_text token_hash e r.tickets) ≡ some e =
                rw (find_text-put_if token_hash token_hash e r.tickets, text_eq_refl token_hash)
                  refl in
              subst
                (λ (n : NodeRegistry).
                  (n.rooms ≡ r.rooms) × IsTicketOnce n token_hash ticket (expiry now ttl))
                same
                (
                  refl,
                  consume_join_ticket-once (record r { tickets = put_text token_hash e r.tickets })
                      token_hash e there,
                )
        ]
      ]

assign_room-keeps :
    (r r' : NodeRegistry) (now table_id : ℕ) (node_id : Text) (ttl : ℕ)
    → assign_room r now table_id node_id ttl ≡ (true, r')
    → find_key table_id r'.rooms ≡ some (record { value = node_id; expires_at_ms = expiry now ttl })
unfolding assign_room
assign_room-keeps r r' now table_id node_id ttl h =
    elim (Bool-cases (table_id == 0 || ttl == 0 || not (node_is_healthy r node_id now))) [
      | inl wrong ↦ let q = rw (wrong, assign_room) at h in cc
      | inr right ↦ elim (Bool-cases (is_taken (find_key table_id r.rooms) node_id now)) [
        | inl held ↦ let q = rw (right, held, assign_room) at h in cc
        | inr free_ ↦
            let q = rw (right, free_, assign_room) at h in
            let e : Expiring Text = record { value = node_id; expires_at_ms = expiry now ttl } in
            let same : put_key table_id e r.rooms ≡ r'.rooms =
              ap (λ (x : Bool × NodeRegistry). x.1.rooms) q in
            subst (λ m. find_key table_id m ≡ some e) same (find_key-put table_id e r.rooms)
      ]
    ]

module _ (crypto : CryptoProvider) (router : LobbyRouter) where
  open crypto use {State, generate_session_token, hash_session_token}

  -- The room is the node's, no healthy node stands before it, and the ticket admits the user once.
  abbrev pub IsRoute : NodeRegistry → NodeRegistry → (ℕ → ℕ) → ℕ → ℕ → RouteAssignment → Type 0
  IsRoute r r' clock table_id user_id a =
      (find_key table_id r'.rooms
        ≡ some (record {
          value = a.node.node_id;
          expires_at_ms = expiry (clock 1) router.room_ttl_seconds;
        }))
      × IsFirst a.node (healthy_nodes r (clock 0)).0
      × IsTicketOnce r' (hash_session_token a.join_ticket)
          (record { user_id = user_id; table_id = table_id })
          (expiry (clock 2) router.ticket_ttl_seconds)

  issue-once :
      (r r' : NodeRegistry) (s s' : State) (now : ℕ) (node : NodeInfo) (table_id user_id : ℕ)
      (a : RouteAssignment)
      → issue crypto router r s now node table_id user_id ≡ (some a, (r', s'))
      → (a.node ≡ node)
        × (r'.rooms ≡ r.rooms)
        × IsTicketOnce r'
            (hash_session_token a.join_ticket)
            (record { user_id = user_id; table_id = table_id })
            (expiry now router.ticket_ttl_seconds)
  unfolding issue
  issue-once r r' s s' now node table_id user_id a h =
      by_answer (store_join_ticket r now (hash_session_token raw) ticket router.ticket_ttl_seconds)
        refl
    where
      raw : Text
      raw = (generate_session_token s).0

      ticket : JoinTicket
      ticket = record { user_id = user_id; table_id = table_id }

      by_answer :
          (x : Bool × NodeRegistry)
          → store_join_ticket r now (hash_session_token raw) ticket router.ticket_ttl_seconds ≡ x
          → (a.node ≡ node)
            × (r'.rooms ≡ r.rooms)
            × IsTicketOnce r'
                (hash_session_token a.join_ticket)
                ticket
                (expiry now router.ticket_ttl_seconds)
      by_answer (false, x) e = let q = rw (e, issue) at h in cc
      by_answer (true, x) e =
          let q = rw (e, issue) at h in
          let route : RouteAssignment = record { node = node; join_ticket = raw } in
          let b : route ≡ a = cc in
          let c : x ≡ r' = cc in
          let stored =
            store_join_ticket-once r x now (hash_session_token raw) ticket router.ticket_ttl_seconds
              e in
          rw⁻¹ b (rw⁻¹ c (refl, stored.0, stored.1))

  -- A new table that is assigned is kept by a node before which no healthy node stands in the order of
  -- the load, and the ticket handed out admits its user to the table once, until it expires.
  pub assign_new_table-routes :
      (r r' : NodeRegistry) (s s' : State) (clock : ℕ → ℕ) (table_id user_id : ℕ)
      (a : RouteAssignment)
      → assign_new_table crypto router r s clock table_id user_id ≡ (some a, (r', s'))
      → IsRoute r r' clock table_id user_id a
  unfolding assign_new_table assign_to issue
  assign_new_table-routes r r' s s' clock table_id user_id a h =
      elim (Bool-cases (table_id == 0 || user_id == 0)) [
        | inl wrong ↦ let q = rw (wrong, assign_new_table) at h in cc
        | inr right ↦
            by_nodes (healthy_nodes r (clock 0)).0 refl
              (sort_nodes-first (values (live_nodes (clock 0) r.nodes))) right
      ]
    where
      healthy : List NodeInfo × NodeRegistry
      healthy = healthy_nodes r (clock 0)

      by_room :
          (n : NodeInfo) (x : Bool × NodeRegistry)
          → assign_room healthy.1 (clock 1) table_id n.node_id router.room_ttl_seconds ≡ x
          → assign_to crypto router healthy.1 s clock n table_id user_id ≡ (some a, (r', s'))
          → IsFirst n healthy.0
          → IsRoute r r' clock table_id user_id a
      by_room n (false, x) e q first_ = let w = rw (e, assign_to) at q in cc
      by_room n (true, x) e q first_ =
          let w = rw (e, assign_to) at q in
          let (same, rooms, once) = issue-once x r' s s' (clock 2) n table_id user_id a w in
          let keeps =
            assign_room-keeps healthy.1 x (clock 1) table_id n.node_id router.room_ttl_seconds e in
          (rw (rooms, same) keeps, rw same first_, once)

      by_nodes :
          (l : List NodeInfo)
          → healthy.0 ≡ l
          → HeadIsFirst healthy.0
          → (table_id == 0 || user_id == 0) ≡ false
          → IsRoute r r' clock table_id user_id a
      by_nodes [] e f right = let q = rw (right, e, assign_new_table) at h in cc
      by_nodes (n ∷ l) e f right =
          let q = rw (right, e, assign_new_table) at h in
          let g : HeadIsFirst (n ∷ l) = subst HeadIsFirst e f in
          by_room n (assign_room healthy.1 (clock 1) table_id n.node_id router.room_ttl_seconds)
            refl q (rw e (node_before_irrefl n, g))
