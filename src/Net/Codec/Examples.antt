-- ===== src/Net/Codec/Examples.antt =====
-- The codec on frames that arrive in pieces.
use poker.Net.Codec.{
  Codec, buffered_bytes, compact, decode_loop, feed, finish_feed, header, no_error, peek_length,
}
use poker.Net.Codec.Stream.{IsValid, feed_frames, unread}
use poker.Prelude.{List, Run, [], arith, done, false, inl, refl, ℕ, ◌∷◌, ◌≡◌}

abbrev small_codec : Codec
small_codec = record { max_frame_size = 16; buffer = []; read_offset = 0; failed = false }

small_codec-IsValid : IsValid small_codec
small_codec-IsValid = record {
  limit_pos = omega arith;
  limit_small = omega arith;
  offset_le = omega arith;
}

-- A frame of two bytes, and the length of the next.
abbrev piece : List ℕ
piece = 0 ∷ 0 ∷ 0 ∷ 2 ∷ 11 ∷ 12 ∷ 0 ∷ 0 ∷ []

piece-test :
    Run.done (
      record { error = no_error; frames = (11 ∷ 12 ∷ []) ∷ [] },
      record small_codec { buffer = 0 ∷ 0 ∷ [] },
    )
    ≡ feed small_codec piece
unfolding feed decode_loop finish_feed compact peek_length buffered_bytes
piece-test = refl

feed_frames_example :
    (c' : Codec) × (feed small_codec piece
      ≡ done (record { error = no_error; frames = (11 ∷ 12 ∷ []) ∷ [] }, c'))
    × (unread c' ≡ 0 ∷ 0 ∷ [])
    × (c'.failed ≡ false)
    × (c'.max_frame_size ≡ 16)
    × IsValid c'
unfolding header
feed_frames_example =
    feed_frames small_codec piece (0 ∷ 0 ∷ []) ((11 ∷ 12 ∷ []) ∷ []) small_codec-IsValid refl
      (omega arith) (omega arith) ((omega arith, omega arith), tt) (inl (omega arith)) refl
