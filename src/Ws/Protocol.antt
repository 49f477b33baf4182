-- ===== src/Ws/Protocol.antt =====
-- backend/src/ws/protocol.rs: one binary message for each frame. The encoder of the payload is chosen
-- by the listener; a message is its bytes.
pub mod RoundTrip
use on_air_record.Base.{
  ℕ, zero, suc, ◌+◌, ◌-◌, ◌*◌, ◌/◌, ◌%◌, ◌^◌, min, Bool, true, false, Option, none, some, List, [],
  ◌∷◌, ◌++◌, take, drop, length, ltb, ◌==◌, if◌then◌else◌,
}
use on_air_record.Base.Int.{ℤ, pos, negsuc}
use on_air_record.Models.AudioFrame.{AudioFrame, sample_count}

abbrev pub magic : ℕ
magic = 827474255

abbrev pub protocol_version : ℕ
protocol_version = 1

abbrev pub header_len : ℕ
header_len = 24

abbrev pub flag_live : ℕ
flag_live = 1

pub record FrameHeader : Type 0 where
  pub version : ℕ
  pub format_code : ℕ
  pub channels : ℕ
  pub flags : ℕ
  pub sample_rate : ℕ
  pub sample_count : ℕ
  pub timestamp_ms : ℤ

-- `flags & FLAG_LIVE != 0`.
unfoldable pub is_live : FrameHeader → Bool
is_live h = h.flags % 2 == 1

-- `to_le_bytes` of a word of so many bytes, and back.
unfoldable pub le_bytes : ℕ → ℕ → List ℕ
le_bytes zero n = []
le_bytes (suc k) n = (n % 256) ∷ le_bytes k (n / 256)

unfoldable pub from_le_bytes : List ℕ → ℕ
from_le_bytes [] = 0
from_le_bytes (b ∷ bs) = b + 256 * from_le_bytes bs

-- The two's complement pattern of an i64, and back.
unfoldable pub word_of_i64 : ℤ → ℕ
word_of_i64 (pos n) = n
word_of_i64 (negsuc n) = 18446744073709551615 - n

unfoldable pub i64_of_word : ℕ → ℤ
i64_of_word w = if ltb w 9223372036854775808 then pos w else negsuc (18446744073709551615 - w)

-- A FrameEncoder: the code of its format and its payload.
pub record FrameEncoder : Type 0 where
  pub wire_code : ℕ
  pub encode : AudioFrame → List ℕ

unfoldable pub header_bytes : FrameHeader → List ℕ
header_bytes h =
    le_bytes 4 magic
    ++ h.version ∷ h.format_code ∷ h.channels ∷ h.flags ∷ le_bytes 4 h.sample_rate
    ++ le_bytes 4 h.sample_count
    ++ le_bytes 8 (word_of_i64 h.timestamp_ms)

-- `as u32` keeps the low 32 bits.
unfoldable pub header_of : AudioFrame → FrameEncoder → FrameHeader
header_of frame encoder = record {
  version = protocol_version;
  format_code = encoder.wire_code;
  channels = min frame.channels 255;
  flags = if frame.live then flag_live else 0;
  sample_rate = frame.sample_rate;
  sample_count = sample_count frame % 2 ^ 32;
  timestamp_ms = frame.timestamp_ms;
}

unfoldable pub encode_audio_frame : AudioFrame → FrameEncoder → List ℕ
encode_audio_frame frame encoder = header_bytes (header_of frame encoder) ++ encoder.encode frame

-- The bytes from one place up to another.
abbrev pub slice : List ℕ → ℕ → ℕ → List ℕ
slice message from to = take (to - from) (drop from message)

-- The byte at a place that exists.
abbrev pub byte_at : List ℕ → ℕ → ℕ
byte_at [] i = 0
byte_at (b ∷ message) zero = b
byte_at (b ∷ message) (suc i) = byte_at message i

unfoldable pub decode_header : List ℕ → Option FrameHeader
decode_header message =
    if ltb (length message) header_len
    then none
    else if from_le_bytes (slice message 0 4) == magic
    then some (record {
      version = byte_at message 4;
      format_code = byte_at message 5;
      channels = byte_at message 6;
      flags = byte_at message 7;
      sample_rate = from_le_bytes (slice message 8 12);
      sample_count = from_le_bytes (slice message 12 16);
      timestamp_ms = i64_of_word (from_le_bytes (slice message 16 24));
    })
    else none
