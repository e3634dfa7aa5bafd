-- ===== src/Domain/Evaluator/Invariance.antt =====
-- The order in which five cards are given does not matter.
use mathlib.Core.List.{Perm, Permᴰ}
use mathlib.Core.Logic.{∥∥₁_elim}
use mathlib.Core.Path.{fun_ext}
use native.Mathlib.Decide.{ℕ_discrete}
use poker.Domain.Card.{Card, card_index}
use poker.Domain.Deck.{all_new}
use poker.Domain.Deck.Distinct.{all_new-swap}
use poker.Domain.Evaluator.{HandValue, count_rank, count_suit, evaluate_five}
use poker.Prelude.{
  List, Run, [], ap, ap₂, arith, if◌then◌else◌, refl, subst, ℕ, ◌==◌, ◌∙◌, ◌∷◌, ◌≡◌,
}

count_rank-Permᴰ : {xs ys : List Card} → Permᴰ xs ys → (r : ℕ) → count_rank xs r ≡ count_rank ys r
unfolding count_rank
count_rank-Permᴰ Permᴰ.nil r = refl
count_rank-Permᴰ (Permᴰ.cons {a = x} {b = y} e p) r =
    rw (ap (λ (c : Card). c.rank) e, count_rank-Permᴰ p r) refl
count_rank-Permᴰ (Permᴰ.swap {l = l} e d) r = omega (
  arith,
  ap {B = ℕ} (λ (c : Card). if c.rank == r then 1 else 0) e,
  ap {B = ℕ} (λ (c : Card). if c.rank == r then 1 else 0) d,
)
count_rank-Permᴰ (Permᴰ.trans p q) r = count_rank-Permᴰ p r ∙ count_rank-Permᴰ q r

count_suit-Permᴰ : {xs ys : List Card} → Permᴰ xs ys → (s : ℕ) → count_suit xs s ≡ count_suit ys s
unfolding count_suit
count_suit-Permᴰ Permᴰ.nil s = refl
count_suit-Permᴰ (Permᴰ.cons {a = x} {b = y} e p) s =
    rw (ap (λ (c : Card). c.suit) e, count_suit-Permᴰ p s) refl
count_suit-Permᴰ (Permᴰ.swap {l = l} e d) s = omega (
  arith,
  ap {B = ℕ} (λ (c : Card). if c.suit == s then 1 else 0) e,
  ap {B = ℕ} (λ (c : Card). if c.suit == s then 1 else 0) d,
)
count_suit-Permᴰ (Permᴰ.trans p q) s = count_suit-Permᴰ p s ∙ count_suit-Permᴰ q s

all_new-Permᴰ :
    {xs ys : List Card} → Permᴰ xs ys → (seen : List ℕ) → all_new seen xs ≡ all_new seen ys
unfolding all_new
all_new-Permᴰ Permᴰ.nil seen = refl
all_new-Permᴰ (Permᴰ.cons {a = x} {b = y} {l₁ = xs} {l₂ = ys} e p) seen =
    subst (λ z. all_new seen (x ∷ xs) ≡ all_new seen (z ∷ ys)) e
      (rw (all_new-Permᴰ p (card_index x ∷ seen)) refl)
all_new-Permᴰ (Permᴰ.swap {a = x} {b = y} {l = l} e d) seen =
    all_new-swap seen x y l ∙ ap₂ (λ a b. all_new seen (a ∷ b ∷ l)) d e
all_new-Permᴰ (Permᴰ.trans p q) seen = all_new-Permᴰ p seen ∙ all_new-Permᴰ q seen

evaluate_five-Permᴰ : {xs ys : List Card} → Permᴰ xs ys → evaluate_five xs ≡ evaluate_five ys
unfolding evaluate_five
evaluate_five-Permᴰ p =
    rw (all_new-Permᴰ p [], fun_ext (count_rank-Permᴰ p), fun_ext (count_suit-Permᴰ p)) refl

Run-set : IsSet (Run HandValue)
Run-set = hlevel ℕ_discrete

-- The value of a hand does not depend on the order of its cards, nor does the exception.
pub evaluate_five-perm : (xs ys : List Card) → Perm xs ys → evaluate_five xs ≡ evaluate_five ys
evaluate_five-perm xs ys p = ∥∥₁_elim p (Run-set _ _) evaluate_five-Permᴰ
