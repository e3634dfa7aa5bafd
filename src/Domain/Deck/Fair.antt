-- ===== src/Domain/Deck/Fair.antt =====
-- The numbers of the system's source are not biased.
use Prim.Native.Nat.{bit_xor}
use native.Mathlib.Nat.{div-add-mod, mod-lt, mul-mod_right}
use poker.Domain.Deck.{system_uniform, system_value}
use poker.Prelude.{
  >>=-eq-done, Bool-cases, Run, ap, arith, done, inl, inr, ltb, ltb→lt, subst, suc, sym, u64_mod,
  zero, ℕ, ◌%◌, ◌*◌, ◌-◌, ◌/◌, ◌<◌, ◌==◌, ◌^◌, ◌∙◌, ◌≡◌,
}

-- The remainder taken off leaves a multiple.
limit-multiple : (m b : ℕ) → (m - m % b) % b ≡ 0
limit-multiple m b =
    let split = div-add-mod m b in
    let same : m - m % b ≡ b * (m / b) = omega (arith, split) in
    ap (λ n. n % b) same ∙ mul-mod_right b (m / b)

module _ {S : Type 0} (device : S → ℕ × S) where
  system_value-lt :
      (fuel limit : ℕ) (s s' : S) (value : ℕ)
      → system_value device fuel limit s ≡ done (value, s')
      → value < limit
  unfolding system_value
  system_value-lt zero limit s s' value h = cc
  system_value-lt (suc fuel) limit s s' value h =
      let high = device s in
      let low = device high.1 in
      let found = bit_xor (high.0 * 2 ^ 32 % u64_mod) low.0 in
      elim (Bool-cases (ltb found limit)) [
        | inl below ↦
            let q : ◌≡◌ {A = Run (ℕ × S)} (done (found, low.1)) (done (value, s')) =
              rw below at h in
            let same : found ≡ value = cc in subst (λ v. v < limit) same (ltb→lt found limit below)
        | inr above ↦ system_value-lt fuel limit low.1 s' value (rw above at h)
      ]

  -- The limit of the loop, for a bound.
  abbrev pub limit_of : ℕ → ℕ
  limit_of bound = u64_mod - 1 - (u64_mod - 1) % bound

  -- Whatever the device returns: a number that `SystemRandomSource::uniform` returns lies below the
  -- bound, and is the remainder of the value with which the loop stops; that value lies below the
  -- loop's limit, which the bound divides, so that each remainder has as many values.
  pub system_uniform-fair :
      (fuel bound v : ℕ) (s s' : S)
      → system_uniform device fuel s bound ≡ done (v, s')
      → (v < bound)
        × (limit_of bound % bound ≡ 0)
        × ((value : ℕ) × (system_value device fuel (limit_of bound) s ≡ done (value, s'))
            × (value < limit_of bound)
            × (v ≡ value % bound))
  unfolding system_uniform
  system_uniform-fair fuel bound v s s' h = elim (Bool-cases (bound == 0)) [
    | inl zero_given ↦ let q = rw zero_given at h in cc
    | inr positive ↦
        let (r, e1, e2) =
          >>=-eq-done (system_value device fuel (limit_of bound) s) (λ r. done (r.0 % bound, r.1))
            (rw positive at h) in
        let below = system_value-lt fuel (limit_of bound) s r.1 r.0 e1 in
        let same : r.0 % bound ≡ v = cc in
        let state : r.1 ≡ s' = cc in
        let pos_bound : 0 < bound = ground arith in
        let stops =
          subst (λ u. system_value device fuel (limit_of bound) s ≡ done (r.0, u)) state e1 in
        (
          subst (λ n. n < bound) same (mod-lt r.0 pos_bound),
          limit-multiple (u64_mod - 1) bound,
          (r.0, stops, below, sym same),
        )
  ]
