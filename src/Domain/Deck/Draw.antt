-- ===== src/Domain/Deck/Draw.antt =====
-- Drawing from a deck, and the check of a given deck.
use poker.Domain.Card.{Card}
use poker.Domain.Deck.{Deck, draw, remaining}
use poker.Prelude.{
  Bool-cases, List, [], arith, done, drop, get_elem?, inl, inr, leb, length, length-drop, refl,
  some, suc, threw, zero, ℕ, ◌<◌, ◌∷◌, ◌≡◌, ◌⊎◌,
}

pub get_elem?-some :
    {A : Type 0} (xs : List A) (i : ℕ) → i < length xs → (a : A) × (get_elem? xs i ≡ some a)
get_elem?-some [] i h = elim h [ ]
get_elem?-some (x ∷ xs) zero h = (x, refl)
get_elem?-some (x ∷ xs) (suc i) h = get_elem?-some xs i (omega arith)

get_elem?-drop :
    {A : Type 0} (xs : List A) (i : ℕ) (a : A)
    → get_elem? xs i ≡ some a
    → drop i xs ≡ a ∷ drop (suc i) xs
get_elem?-drop [] i a e = cc
get_elem?-drop (x ∷ xs) zero a e = ground arith
get_elem?-drop (x ∷ xs) (suc i) a e = get_elem?-drop xs i a e

-- The cards still to come, in their order.
abbrev pub cards_left : Deck → List Card
cards_left d = drop d.next d.cards

pub length-cards_left : (d : Deck) → length (cards_left d) ≡ remaining d
unfolding remaining
length-cards_left d = length-drop d.next d.cards

-- A draw throws exactly if no card is left, and otherwise takes the first of the cards to come.
pub draw_lem :
    (d : Deck)
    → ((remaining d ≡ 0) × (draw d ≡ threw))
      ⊎ ((c : Card) × (d' : Deck) × (draw d ≡ done (c, d'))
          × (cards_left d ≡ c ∷ cards_left d')
          × (d'.cards ≡ d.cards))
unfolding draw remaining
draw_lem d = elim (Bool-cases (leb (length d.cards) d.next)) [
  | inl e ↦ inl (ground arith, rw e refl)
  | inr e ↦
      let (c, p) = get_elem?-some d.cards d.next (ground arith) in
      inr (c, record d { next = suc d.next }, ground arith, get_elem?-drop d.cards d.next c p, refl)
]
