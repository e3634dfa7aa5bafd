-- ===== src/Net/Codec/Framing.antt =====
-- One frame, and the loop over a buffer that begins with whole frames.
use poker.Net.Codec.{Decoded, decode_loop, encode, good, header, header_size, max_u32, peek_length}
use poker.Prelude.{
  All, Bool-cases, List, Run, [], ap, append-nil, append_assoc, arith, done, drop, drop-length,
  false, inl, inr, length, length-append, length-drop, ltb, refl, some, subst, suc, sym, take,
  take-length, true, zero, ℕ, ◌%◌, ◌++◌, ◌+◌, ◌-◌, ◌<◌, ◌==◌, ◌^◌, ◌||◌, ◌∙◌, ◌∷◌, ◌≡◌, ◌≤◌, ◌⊎◌,
}

pub peek_length-header : (n : ℕ) (left : List ℕ) → n < 2 ^ 32 → peek_length (header n ++ left) ≡ n
unfolding peek_length header
peek_length-header n left h = omega arith

-- A payload that a codec with a limit can send and receive.
abbrev pub IsPayload : ℕ → List ℕ → Type 0
IsPayload limit p = (0 < length p) × (length p ≤ limit)

abbrev pub frame : List ℕ → List ℕ
frame p = header (length p) ++ p

-- Frames one after the other.
abbrev pub stream : List (List ℕ) → List ℕ
stream [] = []
stream (p ∷ ps) = frame p ++ stream ps

-- Bytes that are not yet a whole frame, and may become one.
abbrev pub IsPartial : ℕ → List ℕ → Type 0
IsPartial limit left =
    (length left < header_size)
    ⊎ ((0 < peek_length left)
        × (peek_length left ≤ limit)
        × (length left < header_size + peek_length left))

pub encode-frame :
    (limit : ℕ) (p : List ℕ) → limit < 2 ^ 32 → IsPayload limit p → encode p limit ≡ some (frame p)
unfolding encode
encode-frame limit p small (lo, hi) =
    let same : length p % 2 ^ 32 ≡ length p = omega arith in rw (first, second, same) refl
  where
    first : (length p == 0) ≡ false
    first = ground arith

    second : (ltb limit (length p) || ltb max_u32 (length p)) ≡ false
    second = ground arith

pub length-frame : (p : List ℕ) → length (frame p) ≡ header_size + length p
unfolding header
length-frame p = omega arith

drop-nil : {A : Type 0} (n : ℕ) → drop {A = A} n [] ≡ []
drop-nil zero = refl
drop-nil (suc n) = refl

drop-add : (m n : ℕ) (xs : List ℕ) → drop (m + n) xs ≡ drop n (drop m xs)
drop-add zero n xs = ap (λ k. drop k xs) (omega arith)
drop-add (suc m) n [] = let e : suc m + n ≡ suc (m + n) = omega arith in rw (e, drop-nil n) refl
drop-add (suc m) n (x ∷ xs) =
    let e : suc m + n ≡ suc (m + n) = omega arith in rw e (drop-add m n xs)

-- What the loop comes to on a buffer whose unread bytes are whole frames and a part of one.
abbrev pub Decodes : List ℕ → List (List ℕ) → List ℕ → Run Decoded → Type 0
Decodes buffer frames left r =
    (offset : ℕ) × (r ≡ done (good frames offset))
    × (drop offset buffer ≡ left)
    × (offset ≤ length buffer)

decode_loop-partial :
    (fuel limit : ℕ) (buffer : List ℕ) (offset : ℕ) (frames : List (List ℕ)) (left : List ℕ)
    → drop offset buffer ≡ left
    → offset ≤ length buffer
    → IsPartial limit left
    → Decodes buffer frames left (decode_loop (suc fuel) limit buffer offset frames)
unfolding decode_loop
decode_loop-partial fuel limit buffer offset frames left e le part = (offset, stops part, e, le)
  where
    same : length buffer - offset ≡ length left
    same = sym (length-drop offset buffer) ∙ ap length e

    stops :
        IsPartial limit left
        → decode_loop (suc fuel) limit buffer offset frames ≡ done (good frames offset)
    stops (inl short) =
        let a : ltb (length buffer - offset) header_size ≡ true = ground (arith, same) in rw a refl
    stops (inr (lo, hi, short)) = elim (Bool-cases (ltb (length buffer - offset) header_size)) [
      | inl a ↦ rw a refl
      | inr a ↦
          let p : peek_length (drop offset buffer) ≡ peek_length left = ap peek_length e in
          let b : (peek_length (drop offset buffer) == 0) ≡ false = ground (arith, p) in
          let c : ltb limit (peek_length (drop offset buffer)) ≡ false = ground (arith, p) in
          let d : ltb (length buffer - offset) (header_size + peek_length (drop offset buffer))
              ≡ true =
            ground (arith, p, same) in
          rw (a, b, c, d) refl
    ]

payload-frame :
    (p more : List ℕ) → take (length p) (drop header_size (header (length p) ++ (p ++ more))) ≡ p
unfolding header
payload-frame p more = take-length p more

drop-frame : (p more : List ℕ) → drop (header_size + length p) (frame p ++ more) ≡ more
drop-frame p more =
    subst (λ n. drop n (frame p ++ more) ≡ more) (length-frame p) (drop-length (frame p) more)

-- One round on a whole frame.
module _ (limit : ℕ) (buffer : List ℕ) (offset : ℕ) (p more : List ℕ) (small : limit < 2 ^ 32)
    (e : drop offset buffer ≡ header (length p) ++ (p ++ more)) (le : offset ≤ length buffer)
    (valid : IsPayload limit p) where
  size_left : length buffer - offset ≡ header_size + length p + length more
  size_left =
      sym (length-drop offset buffer)
      ∙ ap length (e ∙ sym (append_assoc (header (length p)) p more))
      ∙ length-append (frame p) more
      ∙ ap (λ n. n + length more) (length-frame p)

  size_read : peek_length (drop offset buffer) ≡ length p
  size_read = ap peek_length e ∙ peek_length-header (length p) (p ++ more) (omega arith)

  decode_loop-frame :
      (fuel : ℕ) (frames : List (List ℕ))
      → decode_loop (suc fuel) limit buffer offset frames
        ≡ decode_loop fuel limit buffer (offset + (header_size + length p)) (frames ++ (p ∷ []))
  unfolding decode_loop
  decode_loop-frame fuel frames =
      let a : ltb (length buffer - offset) header_size ≡ false = ground (arith, size_left) in
      let b : (length p == 0) ≡ false = ground arith in
      let c : ltb limit (length p) ≡ false = ground arith in
      let d : ltb (length buffer - offset) (header_size + length p) ≡ false =
        ground (arith, size_left) in
      let q : take (length p) (drop header_size (drop offset buffer)) ≡ p =
        ap (λ xs. take (length p) (drop header_size xs)) e ∙ payload-frame p more in
      rw (size_read, a, b, c, d, q) refl

  drop_past : drop (offset + (header_size + length p)) buffer ≡ more
  drop_past =
      drop-add offset (header_size + length p) buffer
      ∙ ap (drop (header_size + length p)) (e ∙ sym (append_assoc (header (length p)) p more))
      ∙ drop-frame p more

pub decode_loop-frames :
    (ps : List (List ℕ)) (fuel limit : ℕ) (buffer : List ℕ) (offset : ℕ) (frames : List (List ℕ))
    (left : List ℕ)
    → limit < 2 ^ 32
    → drop offset buffer ≡ stream ps ++ left
    → offset ≤ length buffer
    → All (IsPayload limit) ps
    → IsPartial limit left
    → length buffer - offset < fuel
    → Decodes buffer (frames ++ ps) left (decode_loop fuel limit buffer offset frames)
decode_loop-frames ps zero limit buffer offset frames left small e le valid part f =
    absurd (omega arith)
decode_loop-frames [] (suc fuel) limit buffer offset frames left small e le valid part f =
    rw (append-nil frames) (decode_loop-partial fuel limit buffer offset frames left e le part)
decode_loop-frames (p ∷ ps) (suc fuel) limit buffer offset frames left small e le (v, valid) part
      f =
    let more = stream ps ++ left in
    let e' : drop offset buffer ≡ header (length p) ++ (p ++ more) =
      e ∙ append_assoc (frame p) (stream ps) left ∙ append_assoc (header (length p)) p more in
    let n = size_left limit buffer offset p more small e' le v in
    rw (decode_loop-frame limit buffer offset p more small e' le v fuel frames) (
      subst
        (λ out.
          Decodes buffer out left (
            decode_loop fuel limit buffer (offset + (header_size + length p)) (frames ++ (p ∷ []))))
        (append_assoc frames (p ∷ []) ps)
        (decode_loop-frames ps fuel limit buffer (offset + (header_size + length p))
          (frames ++ (p ∷ [])) left small (drop_past limit buffer offset p more small e' le v)
          (omega (arith, n)) valid part (omega (arith, n))))
