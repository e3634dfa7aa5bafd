-- ===== src/Domain/Table/Secrecy.antt =====
-- Who sees hole cards in a snapshot.
use poker.Domain.Table.State.{Player, Seats, Table, is_folded, is_settled, is_waiting}
use poker.Domain.Table.View.{PlayerView, is_viewer, shows_cards, snapshot, view_of, views_of}
use poker.Prelude.{All, Option, [], arith, false, none, some, true, ℕ, ◌||◌, ◌∷◌, ◌≡◌}

-- A view that shows no card of another player, unless the hand is settled.
abbrev pub Hides : Option ℕ → PlayerView → Type 0
Hides viewer v = (is_viewer viewer v.id ≡ false) → v.hole_cards ≡ []

views_of-All :
    (P : PlayerView → Type 0) (f : Player → PlayerView) (seats : Seats)
    → ((p : Player) → P (f p))
    → All P (views_of f seats)
unfolding views_of
views_of-All P f [] h = tt
views_of-All P f (none ∷ seats) h = views_of-All P f seats h
views_of-All P f (some p ∷ seats) h = (h p, views_of-All P f seats h)

-- Until the hand is settled, a snapshot shows a viewer no hole cards but the viewer's own.
pub snapshot-Hides :
    (t : Table) (viewer : Option ℕ)
    → is_settled t.street ≡ false
    → All (Hides viewer) (snapshot t viewer).players
unfolding snapshot view_of shows_cards
snapshot-Hides t viewer h =
    views_of-All (Hides viewer) (view_of t.street viewer) t.seats λ p other. ground arith

-- A view that shows no card of another player who folded or was not dealt in.
abbrev pub HidesFolded : Option ℕ → PlayerView → Type 0
HidesFolded viewer v =
    is_viewer viewer v.id ≡ false
    → (is_folded v.status || is_waiting v.status) ≡ true
    → v.hole_cards ≡ []

-- In every snapshot, after the hand too, the cards of a player who folded or was not dealt in stay
-- hidden from the others.
pub snapshot-HidesFolded :
    (t : Table) (viewer : Option ℕ) → All (HidesFolded viewer) (snapshot t viewer).players
unfolding snapshot view_of shows_cards
snapshot-HidesFolded t viewer =
    views_of-All (HidesFolded viewer) (view_of t.street viewer) t.seats λ p other out. ground arith
