-- ===== src/Cluster/Reaper/Examples.antt =====
-- A table on a node that is long gone, and the theorem on sweeps applied to it.
use poker.Cluster.Reaper.{
  NodeFailureReaper, forget_nodes, is_healthy, new_reaper, ping, reap, sweep, sweep_table,
  sweep_tables,
}
use poker.Cluster.Reaper.Sweep.{IsCareful, sweep-IsCareful}
use poker.Cluster.Registry.{
  NodeRegistry, allocate_table_id, assign_room, consume_join_ticket, count_table, healthy_nodes,
  heartbeat, insert_node, is_issued, is_new_assignment, is_taken, live_nodes, node_before,
  node_is_healthy, room_owner, sort_nodes, store_join_ticket, text_lt,
}
use poker.Prelude.{
  [], arith, erase_key, erase_text, false, find_key, find_text, put_key, put_text, refl, text_eq,
  true, ◌<◌, ◌∷◌, ◌≡◌,
}
use poker.Storage.Games.Hands.{abort_table_and_refund, refund_seats}
use poker.Storage.Games.Records.{GameStore, StoredTable}
use poker.Storage.Games.Store.{insert_table, list_open_tables, open_tables}

abbrev gone_table : StoredTable
gone_table = record {
  info = record {
    table_id = 3;
    name = b't' ∷ [];
    node_id = b'n' ∷ [];
    config = record {
      min_players = 2;
      max_players = 2;
      small_blind = 1;
      big_blind = 2;
      min_buy_in = 2;
      max_buy_in = 100;
    };
    created_by = 7;
  };
  is_aborted = false;
  hand_in_progress = true;
  seats = (7, record { user_id = 7; seat = 0; stack = 40 }) ∷ [];
  occupied_seats = (0, 7) ∷ [];
}

abbrev one_seated : GameStore
one_seated = record {
  wallets = (7, 60) ∷ [];
  tables = (3, gone_table) ∷ [];
  ledger = [];
  actions = [];
  hand_starts = [];
  settlements = [];
}

abbrev nobody : NodeRegistry
nobody = record { nodes = []; rooms = []; tickets = []; next_table_id = 1000 }

abbrev waiting_reaper : NodeFailureReaper
waiting_reaper = record { grace_period_ms = 15; missing_since = (b'n' ∷ [], 100) ∷ [] }

refunded-test :
    (sweep waiting_reaper nobody one_seated 115 115).0
    ≡ record { refunded_tables = 3 ∷ []; failed_tables = [] }
unfolding heartbeat text_lt node_before insert_node sort_nodes live_nodes healthy_nodes
    allocate_table_id node_is_healthy count_table is_taken is_new_assignment assign_room room_owner
    is_issued store_join_ticket consume_join_ticket ping new_reaper forget_nodes is_healthy reap
    sweep_table sweep_tables sweep find_text put_text erase_text find_key put_key erase_key text_eq
    list_open_tables open_tables insert_table abort_table_and_refund refund_seats
refunded-test = refl

sweep-IsCareful_example :
    IsCareful waiting_reaper nobody one_seated 115 115
      (sweep waiting_reaper nobody one_seated 115 115)
unfolding find_key
sweep-IsCareful_example =
    sweep-IsCareful waiting_reaper nobody one_seated 115 115 (((refl, tt), (refl, tt)), tt) ltd
  where
    ltd : 0 < 15
    ltd = omega arith
