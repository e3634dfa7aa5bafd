-- ===== src/Net/Codec/Stream.antt =====
-- `feed` on a stream of frames that arrives in pieces.
use poker.Net.Codec.{
  Codec, buffered_bytes, compact, feed, finish_feed, header_size, new_codec, no_error,
}
use poker.Net.Codec.Framing.{IsPartial, IsPayload, decode_loop-frames, stream}
use poker.Prelude.{
  All, Bool-cases, List, [], ap, arith, done, drop, false, inl, inr, leb, length, length-append,
  length-drop, ltb, refl, some, subst, suc, sym, zero, ℕ, ◌*◌, ◌++◌, ◌+◌, ◌-◌, ◌<◌, ◌==◌, ◌^◌, ◌||◌,
  ◌∙◌, ◌∷◌, ◌≡◌, ◌≤◌,
}

-- The bytes that the codec holds and has not read.
abbrev pub unread : Codec → List ℕ
unread c = drop c.read_offset c.buffer

-- A codec that the constructor and `feed` make: the limit is that of the constructor, and the read
-- offset lies within the buffer.
pub record IsValid (c : Codec) : Type 0 where
  pub limit_pos : 0 < c.max_frame_size
  pub limit_small : c.max_frame_size < 2 ^ 32
  pub offset_le : c.read_offset ≤ length c.buffer

pub new_codec-IsValid :
    (limit : ℕ) (c : Codec)
    → new_codec limit ≡ some c
    → IsValid c × (unread c ≡ []) × (c.failed ≡ false) × (c.max_frame_size ≡ limit)
unfolding new_codec
new_codec-IsValid limit c e = ground arith

drop_all : (xs : List ℕ) → drop (length xs) xs ≡ []
drop_all [] = refl
drop_all (x ∷ xs) = drop_all xs

-- Compaction keeps the unread bytes.
abbrev Compacts : Codec → Codec → Type 0
Compacts c d =
    (unread d ≡ unread c)
    × (d.read_offset ≤ length d.buffer)
    × (d.max_frame_size ≡ c.max_frame_size)
    × (d.failed ≡ c.failed)

compact-unread : (c : Codec) → c.read_offset ≤ length c.buffer → Compacts c (compact c)
unfolding compact
compact-unread c h = elim (Bool-cases (c.read_offset == 0)) [
  | inl a ↦ rw a (refl, h, refl, refl)
  | inr a ↦ elim (Bool-cases (c.read_offset == length c.buffer)) [
    | inl b ↦
        let n : c.read_offset ≡ length c.buffer = ground (arith, b) in
        rw (a, b) (sym (ap (λ k. drop k c.buffer) n ∙ drop_all c.buffer), omega arith, refl, refl)
    | inr b ↦
        elim (Bool-cases (leb 4096 c.read_offset || leb (length c.buffer) (c.read_offset * 2))) [
          | inl d ↦ rw (a, b, d) (refl, omega arith, refl, refl)
          | inr d ↦ rw (a, b, d) (refl, h, refl, refl)
        ]
  ]
]

drop-append : (n : ℕ) (xs ys : List ℕ) → n ≤ length xs → drop n (xs ++ ys) ≡ drop n xs ++ ys
drop-append zero xs ys h = refl
drop-append (suc n) [] ys h = elim h [ ]
drop-append (suc n) (x ∷ xs) ys h = drop-append n xs ys (omega arith)

-- However a stream of frames is cut into pieces: if the bytes left over from before and the new
-- piece make the frames `ps` and a part of another, and fit the buffer, then `feed` returns just
-- the payloads `ps`, in order and unchanged, and keeps the part for the next piece.
pub feed_frames :
    (c : Codec) (bytes left : List ℕ) (ps : List (List ℕ))
    → IsValid c
    → c.failed ≡ false
    → 0 < length bytes
    → length (unread c) + length bytes ≤ c.max_frame_size + header_size
    → All (IsPayload c.max_frame_size) ps
    → IsPartial c.max_frame_size left
    → unread c ++ bytes ≡ stream ps ++ left
    → (c' : Codec) × (feed c bytes ≡ done (record { error = no_error; frames = ps }, c'))
      × (unread c' ≡ left)
      × (c'.failed ≡ false)
      × (c'.max_frame_size ≡ c.max_frame_size)
      × IsValid c'
unfolding feed finish_feed buffered_bytes
feed_frames c bytes left ps v alive some_bytes room valid part e =
    let full = record c { buffer = c.buffer ++ bytes } in
    let start : drop c.read_offset (c.buffer ++ bytes) ≡ stream ps ++ left =
      drop-append c.read_offset c.buffer bytes v.offset_le ∙ e in
    let size = length-append c.buffer bytes in
    let hold = length-drop c.read_offset c.buffer in
    let le : c.read_offset ≤ length (c.buffer ++ bytes) = omega (arith, v.offset_le, size) in
    let (offset, run, at_left, inside) =
      decode_loop-frames ps (suc (length (c.buffer ++ bytes))) c.max_frame_size (c.buffer ++ bytes)
        c.read_offset [] left v.limit_small start le valid part (omega arith) in
    let none_given : (length bytes == 0) ≡ false = ground arith in
    let fits : (ltb (c.max_frame_size + header_size) (length bytes)
          || ltb (c.max_frame_size + header_size - length bytes) (length c.buffer - c.read_offset))
        ≡ false =
      ground (arith, hold, room) in
    let (same, ok_offset, same_limit, same_failed) =
      compact-unread (record full { read_offset = offset }) inside in
    (
      compact (record full { read_offset = offset }),
      rw (alive, none_given, fits, run) refl,
      same ∙ at_left,
      same_failed ∙ alive,
      same_limit,
      record {
        limit_pos = subst (λ n. 0 < n) (sym same_limit) v.limit_pos;
        limit_small = subst (λ n. n < 2 ^ 32) (sym same_limit) v.limit_small;
        offset_le = ok_offset;
      },
    )
