-- ===== src/Domain/Table/View.antt =====
-- `snapshot` and `auditSnapshot`: what a viewer is shown.
use mathlib.Core.Option
use poker.Domain.Card.{Card}
use poker.Domain.Table.Seats.{find_player, player_at, pot_size}
use poker.Domain.Table.State.{
  Player, PlayerStatus, Seats, Street, Table, is_folded, is_settled, is_waiting,
}
use poker.Prelude.{
  Bool, List, Option, [], false, if◌then◌else◌, map, none, not, some, ℕ, ◌&&◌, ◌==◌, ◌||◌, ◌∷◌,
}

pub record PlayerView : Type 0 where
  pub id : ℕ
  pub seat : ℕ
  pub stack : ℕ
  pub street_commitment : ℕ
  pub hand_commitment : ℕ
  pub status : PlayerStatus
  pub ready : Bool
  pub connected : Bool
  pub hole_cards : List Card

pub record TableSnapshot : Type 0 where
  pub street : Street
  pub hand_id : ℕ
  pub server_sequence : ℕ
  pub dealer : Option ℕ
  pub acting_player : Option ℕ
  pub current_bet : ℕ
  pub minimum_raise : ℕ
  pub pot : ℕ
  pub board : List Card
  pub players : List PlayerView

abbrev pub hole_cards_of : Player → List Card
hole_cards_of p = p.hole0 ∷ p.hole1 ∷ []

unfoldable pub is_viewer : Option ℕ → ℕ → Bool
is_viewer none id = false
is_viewer (some v) id = v == id

-- `own_cards || showdown_cards`.
unfoldable pub shows_cards : Street → Option ℕ → Player → Bool
shows_cards street viewer p =
    is_viewer viewer p.id
    || (is_settled street && not (is_folded p.status) && not (is_waiting p.status))

unfoldable pub view_of : Street → Option ℕ → Player → PlayerView
view_of street viewer p = record {
  id = p.id;
  seat = p.seat;
  stack = p.stack;
  street_commitment = p.street_commitment;
  hand_commitment = p.hand_commitment;
  status = p.status;
  ready = p.ready;
  connected = p.connected;
  hole_cards = if p.has_hole && shows_cards street viewer p then hole_cards_of p else [];
}

unfoldable pub views_of : (Player → PlayerView) → Seats → List PlayerView
views_of f [] = []
views_of f (none ∷ seats) = views_of f seats
views_of f (some p ∷ seats) = f p ∷ views_of f seats

-- The id of the player in an optional seat.
unfoldable pub id_in : Seats → Option ℕ → Option ℕ
id_in seats none = none
id_in seats (some i) = Option.map (λ (p : Player). p.id) (player_at seats i)

unfoldable pub snapshot : Table → Option ℕ → TableSnapshot
snapshot t viewer = record {
  street = t.street;
  hand_id = t.hand_id;
  server_sequence = t.server_sequence;
  dealer = id_in t.seats t.dealer_seat;
  acting_player = id_in t.seats t.acting_seat;
  current_bet = t.current_bet;
  minimum_raise = t.minimum_raise;
  pot = if is_settled t.street then 0 else pot_size t.seats;
  board = t.board;
  players = views_of (view_of t.street viewer) t.seats;
}

-- The loop of `auditSnapshot`.
unfoldable pub reveal_view : Seats → PlayerView → PlayerView
reveal_view seats v = elim (find_player v.id seats) [
  | none ↦ v
  | some p ↦ if p.has_hole then record v { hole_cards = hole_cards_of p } else v
]

unfoldable pub audit_snapshot : Table → TableSnapshot
audit_snapshot t =
    let shown = snapshot t none in
    record shown { players = map (reveal_view t.seats) shown.players }
