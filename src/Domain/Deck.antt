-- ===== src/Domain/Deck.antt =====
-- include/poker/domain/deck.hpp and src/poker/domain/deck.cpp: sources of random numbers, the
-- shuffled deck, and drawing from it.
mod Examples
pub mod Shuffle
pub mod Draw
pub mod Distinct
pub mod Fair
use Prim.Native.Nat.{bit_xor}
use poker.Domain.Card.{Card, card_index, ordered_deck}
use poker.Prelude.{
  Bool, List, Run, [], done, false, get_elem?, if◌then◌else◌, leb, length, ltb, none, or_throw,
  out_of_fuel, set, some, suc, threw, true, u64_mod, zero, ℕ, ◌%◌, ◌*◌, ◌+◌, ◌-◌, ◌/◌, ◌<◌, ◌==◌,
  ◌>>=◌, ◌^◌, ◌||◌, ◌∷◌, ◌≡◌,
}

-- `class RandomSource`: the numbers that it returns are below the bound that it is given.
pub record RandomSource : Type 1 where
  pub State : Type 0
  pub uniform : State → ℕ → Run (ℕ × State)
  pub uniform-lt :
      (s : State) (bound v : ℕ) (s' : State) → uniform s bound ≡ done (v, s') → v < bound

-- `DeterministicRandomSource`, a xorshift generator on 64 bits.
unfoldable pub seeded : ℕ → ℕ
seeded seed = if seed == 0 then 0x9e3779b97f4a7c15 else seed

unfoldable pub xorshift : ℕ → ℕ
xorshift s =
    let a = bit_xor s (s / 2 ^ 12) in
    let b = bit_xor a (a * 2 ^ 25 % u64_mod) in bit_xor b (b / 2 ^ 27)

unfoldable pub deterministic_uniform : ℕ → ℕ → Run (ℕ × ℕ)
unfolding xorshift
deterministic_uniform s bound =
    if bound == 0
    then threw
    else done (xorshift s * 2685821657736338717 % u64_mod % bound, xorshift s)

-- `SystemRandomSource::uniform` as built without libsodium: the loop that takes two numbers of
-- `std::random_device` until they make a value below the limit. The device is a parameter, and no
-- number of rounds is enough for every device.
module _ {S : Type 0} (device : S → ℕ × S) where
  unfoldable pub system_value : ℕ → ℕ → S → Run (ℕ × S)
  system_value zero limit s = out_of_fuel
  system_value (suc fuel) limit s =
      let high = device s in
      let low = device high.1 in
      let value = bit_xor (high.0 * 2 ^ 32 % u64_mod) low.0 in
      let again = system_value fuel limit low.1 in
      if ltb value limit then done (value, low.1) else again

  unfoldable pub system_uniform : ℕ → S → ℕ → Run (ℕ × S)
  system_uniform fuel s bound =
      let maximum = u64_mod - 1 in
      if bound == 0
      then threw
      else (system_value fuel (maximum - maximum % bound) s >>= λ r. done (r.0 % bound, r.1))

-- `std::swap(cards[i], cards[j])`, inside the array.
unfoldable pub swap_at : ℕ → ℕ → List Card → List Card
swap_at i j cards = elim (get_elem? cards i) [
  | none ↦ cards
  | some a ↦ elim (get_elem? cards j) [ none ↦ cards | some b ↦ set (set cards i b) j a ]
]

-- The next card to draw stands at `next`.
pub record Deck : Type 0 where
  pub cards : List Card
  pub next : ℕ

module _ (random : RandomSource) where
  open random use {State, uniform}

  -- The loop of `Deck(RandomSource&)`, for `index` from `suc rounds` down to 2.
  unfoldable pub shuffle_from : ℕ → List Card → State → Run (List Card × State)
  unfolding swap_at
  shuffle_from zero cards s = done (cards, s)
  shuffle_from (suc rounds) cards s = uniform s (suc (suc rounds)) >>= λ drawn.
      shuffle_from rounds (swap_at (suc rounds) drawn.0 cards) drawn.1

  unfoldable pub shuffled_deck : State → Run (Deck × State)
  unfolding shuffle_from
  shuffled_deck s = shuffle_from (length ordered_deck - 1) ordered_deck s >>= λ r.
      done (record { cards = r.0; next = 0 }, r.1)

-- `seen[index]`, over the indices seen so far.
unfoldable pub contains : List ℕ → ℕ → Bool
contains [] i = false
contains (j ∷ seen) i = i == j || contains seen i

-- The validating loop of `Deck(std::vector<Card>)` and of the evaluator: true if every index is
-- below 52 and new.
unfoldable pub all_new : List ℕ → List Card → Bool
unfolding contains
all_new seen [] = true
all_new seen (c ∷ cards) =
    if leb 52 (card_index c) || contains seen (card_index c)
    then false
    else all_new (card_index c ∷ seen) cards

unfoldable pub fixed_deck : List Card → Run Deck
unfolding all_new
fixed_deck cards =
    if length cards == 52
    then if all_new [] cards then done (record { cards = cards; next = 0 }) else threw
    else threw

unfoldable pub draw : Deck → Run (Card × Deck)
draw d =
    if leb (length d.cards) d.next
    then threw
    else or_throw (get_elem? d.cards d.next) >>= λ c. done (c, record d { next = d.next + 1 })

unfoldable pub burn : Deck → Run Deck
unfolding draw
burn d = draw d >>= λ r. done r.1

unfoldable pub remaining : Deck → ℕ
remaining d = length d.cards - d.next
