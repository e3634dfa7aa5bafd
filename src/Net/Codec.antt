-- ===== src/Net/Codec.antt =====
-- `LengthFieldCodec` of include/poker/net/length_field_codec.hpp and
-- src/poker/net/length_field_codec.cpp: frames with a length of four bytes, the high byte first.
-- Bytes are numbers below 256. A pointer given to `feed` with a positive size is not null.
mod Examples
pub mod Framing
pub mod Stream
use poker.Prelude.{
  Bool, List, Option, Run, String, [], done, drop, false, if◌then◌else◌, leb, length, ltb, none,
  out_of_fuel, some, suc, take, true, zero, ℕ, ◌%◌, ◌*◌, ◌++◌, ◌+◌, ◌-◌, ◌/◌, ◌==◌, ◌>>=◌, ◌^◌,
  ◌||◌, ◌∷◌,
}

pub data CodecError : Type 0 where
  no_error empty_frame frame_too_large decoder_failed : CodecError

pub record DecodeResult : Type 0 where
  pub error : CodecError
  pub frames : List (List ℕ)

pub record Codec : Type 0 where
  pub max_frame_size : ℕ
  pub buffer : List ℕ
  pub read_offset : ℕ
  pub failed : Bool

abbrev pub header_size : ℕ
header_size = 4

abbrev pub max_u32 : ℕ
max_u32 = 2 ^ 32 - 1

-- The constructor; `none` is the exception.
unfoldable pub new_codec : ℕ → Option Codec
new_codec max_frame_size =
    if max_frame_size == 0 || ltb max_u32 max_frame_size
    then none
    else some
        (record { max_frame_size = max_frame_size; buffer = []; read_offset = 0; failed = false })

-- The four bytes that `encode` pushes for a size.
unfoldable pub header : ℕ → List ℕ
header size =
    (size / 2 ^ 24 % 256) ∷ (size / 2 ^ 16 % 256) ∷ (size / 2 ^ 8 % 256) ∷ (size % 256) ∷ []

-- `encode`; `none` is an exception.
unfoldable pub encode : List ℕ → ℕ → Option (List ℕ)
encode payload max_frame_size =
    if length payload == 0
    then none
    else if ltb max_frame_size (length payload) || ltb max_u32 (length payload)
    then none
    else some (header (length payload % 2 ^ 32) ++ payload)

-- `peekLength`, on the bytes from the read offset on. The four bytes do not overlap, so `|` adds.
unfoldable pub peek_length : List ℕ → ℕ
peek_length (a ∷ b ∷ c ∷ d ∷ _) = a * 2 ^ 24 + b * 2 ^ 16 + c * 2 ^ 8 + d
peek_length _ = 0

-- How the loop of `feed` ends: with an error, or with the frames found and the new read offset.
pub data Decoded : Type 0 where
  bad : CodecError → Decoded
  good : List (List ℕ) → ℕ → Decoded

-- The loop, one unit of fuel for each round.
unfoldable pub decode_loop : ℕ → ℕ → List ℕ → ℕ → List (List ℕ) → Run Decoded
decode_loop zero limit buffer offset frames = out_of_fuel
decode_loop (suc fuel) limit buffer offset frames =
    let left = drop offset buffer in
    let size = peek_length left in
    let complete = header_size + size in
    let more =
      decode_loop fuel limit buffer (offset + complete)
        (frames ++ (take size (drop header_size left) ∷ [])) in
    if ltb (length buffer - offset) header_size
    then done (good frames offset)
    else if size == 0
    then done (bad empty_frame)
    else if ltb limit size
    then done (bad frame_too_large)
    else if ltb (length buffer - offset) complete
    then done (good frames offset)
    else more

-- `compact`.
unfoldable pub compact : Codec → Codec
compact c =
    if c.read_offset == 0
    then c
    else if c.read_offset == length c.buffer
    then record c { buffer = []; read_offset = 0 }
    else if leb 4096 c.read_offset || leb (length c.buffer) (c.read_offset * 2)
    then record c { buffer = drop c.read_offset c.buffer; read_offset = 0 }
    else c

-- `fail`.
unfoldable pub fail : Codec → CodecError → DecodeResult × Codec
fail c decoder_failed = (record { error = decoder_failed; frames = [] }, c)
fail c e = (record { error = e; frames = [] }, record c { failed = true })

unfoldable pub finish_feed : Codec → Decoded → DecodeResult × Codec
finish_feed c (bad e) = fail c e
finish_feed c (good frames offset) =
    (record { error = no_error; frames = frames }, compact (record c { read_offset = offset }))

-- The bytes buffered and not yet read.
unfoldable pub buffered_bytes : Codec → ℕ
buffered_bytes c = length c.buffer - c.read_offset

-- `feed`. Each round of the loop reads a byte at least.
unfoldable pub feed : Codec → List ℕ → Run (DecodeResult × Codec)
feed c bytes =
    let maximum_buffer = c.max_frame_size + header_size in
    let full = record c { buffer = c.buffer ++ bytes } in
    if c.failed
    then done (fail c decoder_failed)
    else if length bytes == 0
    then done (record { error = no_error; frames = [] }, c)
    else if ltb maximum_buffer (length bytes)
        || ltb (maximum_buffer - length bytes) (buffered_bytes c)
    then done (fail c frame_too_large)
    else (decode_loop (suc (length full.buffer)) c.max_frame_size full.buffer c.read_offset []
        >>= λ r. done (finish_feed full r))

unfoldable pub reset : Codec → Codec
reset c = record c { buffer = []; read_offset = 0; failed = false }

-- `toString(CodecError)`.
unfoldable pub codec_error_text : CodecError → String
codec_error_text no_error = "none"
codec_error_text empty_frame = "empty frame"
codec_error_text frame_too_large = "frame too large"
codec_error_text decoder_failed = "decoder failed"
