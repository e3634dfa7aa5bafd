-- ===== src/Application/Idempotency/Evict.antt =====
-- Eviction takes no request whose response is still to come, and makes room where it can.
use poker.Application.Idempotency.{Entries, Entry, evict_oldest}
use poker.Prelude.{
  Bool, Bool-cases, List, Option, Option-cases, [], arith, erase_key, false, find_key,
  find_key-erase, find_key-erase_other, inl, inr, length, ltb, none, some, subst, sym, true, ℕ, ◌<◌,
  ◌==◌, ◌||◌, ◌∙◌, ◌∷◌, ◌≡◌, ◌≢◌, ◌⊎◌,
}

-- The response of the entry, if there is one, is still to come.
abbrev pub IsPending : Option Entry → Type 0
IsPending none = Unit
IsPending (some e) = e.response ≡ none

answered-differs :
    (entries : Entries) (r request : ℕ) (e entry : Entry) (response : List ℕ)
    → find_key r entries ≡ some e
    → e.response ≡ none
    → find_key request entries ≡ some entry
    → entry.response ≡ some response
    → request ≢ r
answered-differs entries r request e entry response known pending found answered same =
    let here : find_key r entries ≡ some entry =
      subst (λ k. find_key k entries ≡ some entry) same found in
    cc

-- A request whose response is still to come is kept by an eviction, unchanged.
pub evict_oldest-keeps :
    (limit : ℕ) (entries : Entries) (order : List ℕ) (r : ℕ) (e : Entry)
    → find_key r entries ≡ some e
    → e.response ≡ none
    → find_key r (evict_oldest limit entries order).0 ≡ some e
unfolding evict_oldest
evict_oldest-keeps limit entries [] r e known pending = known
evict_oldest-keeps limit entries (request ∷ order) r e known pending =
    let later = evict_oldest-keeps limit entries order r e known pending in
    elim (Bool-cases (ltb (length entries) limit)) [
      | inl room ↦ rw room known
      | inr full ↦ elim (Option-cases (find_key request entries)) [
        | inl unknown ↦ rw (full, unknown, evict_oldest) later
        | inr (entry, found) ↦ elim (Option-cases entry.response) [
          | inl waits ↦ rw (full, found, waits, evict_oldest) later
          | inr (response, answered) ↦
              let differs =
                answered-differs entries r request e entry response known pending found answered in
              rw (full, found, answered, evict_oldest)
                (evict_oldest-keeps limit (erase_key request entries) order r e
                  (find_key-erase_other request r entries differs ∙ known) pending)
        ]
      ]
    ]

abbrev pub stands : ℕ → List ℕ → Bool
stands r [] = false
stands r (request ∷ order) = r == request || stands r order

-- Each request that the cache knows of stands in the insertion order, or is in flight.
abbrev pub Covered : Entries → List ℕ → Type 0
Covered entries order =
    (r : ℕ) (e : Entry)
    → find_key r entries ≡ some e
    → (stands r order ≡ true) ⊎ (e.response ≡ none)

-- The outcome: there is room, or all that is left is in flight.
abbrev pub RoomOrPending : ℕ → Entries → Type 0
RoomOrPending limit entries =
    (length entries < limit)
    ⊎ ((r : ℕ) (e : Entry) → find_key r entries ≡ some e → e.response ≡ none)

Covered-tail :
    (entries : Entries) (request : ℕ) (order : List ℕ)
    → ((e : Entry) → find_key request entries ≡ some e → e.response ≡ none)
    → Covered entries (request ∷ order)
    → Covered entries order
Covered-tail entries request order pending covered r e known = elim (Bool-cases (r == request)) [
  | inl same ↦
      let eq : r ≡ request = ground arith in
      inr (pending e (subst (λ k. find_key k entries ≡ some e) eq known))
  | inr differs ↦ elim (covered r e known) [
    | inl here ↦ inl (ground (arith, here))
    | inr waits ↦ inr waits
  ]
]

Covered-erase :
    (entries : Entries) (request : ℕ) (order : List ℕ)
    → Covered entries (request ∷ order)
    → Covered (erase_key request entries) order
Covered-erase entries request order covered r e known = elim (Bool-cases (r == request)) [
  | inl same ↦
      let eq : r ≡ request = ground arith in
      let gone = find_key-erase request entries in
      let here = subst (λ k. find_key k (erase_key request entries) ≡ some e) eq known in
      let clash : ◌≡◌ {A = Option Entry} none (some e) = cc in cc
  | inr differs ↦
      let ne : request ≢ r = ground arith in
      elim (covered r e (sym (find_key-erase_other request r entries ne) ∙ known)) [
        | inl here ↦ inl (ground (arith, here))
        | inr waits ↦ inr waits
      ]
]

-- If each request that has its response stands in the insertion order, then after an eviction there
-- is room for one more request, or all the requests left are in flight.
pub evict_oldest-Covered :
    (limit : ℕ) (entries : Entries) (order : List ℕ)
    → Covered entries order
    → RoomOrPending limit (evict_oldest limit entries order).0
unfolding evict_oldest
evict_oldest-Covered limit entries [] covered =
    inr λ r e known. elim (covered r e known) [ inl here ↦ cc | inr pending ↦ pending ]
evict_oldest-Covered limit entries (request ∷ order) covered =
    elim (Bool-cases (ltb (length entries) limit)) [
      | inl room ↦ rw room (inl (ground arith))
      | inr full ↦ elim (Option-cases (find_key request entries)) [
        | inl unknown ↦
            rw (full, unknown, evict_oldest)
              (evict_oldest-Covered limit entries order
                (Covered-tail entries request order (λ e f. cc) covered))
        | inr (entry, found) ↦ elim (Option-cases entry.response) [
          | inl waits ↦
              rw (full, found, waits, evict_oldest)
                (evict_oldest-Covered limit entries order
                  (Covered-tail entries request order (λ e f. cc) covered))
          | inr (response, answered) ↦
              rw (full, found, answered, evict_oldest)
                (evict_oldest-Covered limit (erase_key request entries) order
                  (Covered-erase entries request order covered))
        ]
      ]
    ]
