-- ===== src/Ws/Protocol/RoundTrip.antt =====
-- The header of a message, between the server and a listener.
use on_air_record.Base.{
  ℕ, ◌%◌, ◌/◌, min, max, ◌^◌, ◌<◌, ◌≡◌, refl, some, none, if◌then◌else◌, ◌∙◌, List, ◌++◌, arith,
  ltb, length, false, Bool, true, ap, ◌==◌,
}
use on_air_record.Base.Int.{ℤ, pos, negsuc, ◌≤ℤ◌}
use on_air_record.Models.AudioFrame.{AudioFrame, sample_count}
use on_air_record.Ws.Protocol.{
  FrameHeader, FrameEncoder, le_bytes, from_le_bytes, word_of_i64, i64_of_word, header_bytes,
  header_of, encode_audio_frame, decode_header, is_live, magic, header_len, flag_live,
}

from_le_bytes-four : (n : ℕ) → n < 2 ^ 32 → from_le_bytes (le_bytes 4 n) ≡ n
unfolding from_le_bytes le_bytes
from_le_bytes-four n h = omega arith

from_le_bytes-eight : (n : ℕ) → n < 2 ^ 64 → from_le_bytes (le_bytes 8 n) ≡ n
unfolding from_le_bytes le_bytes
from_le_bytes-eight n h = omega arith

word_of_i64-lt :
    (t : ℤ)
    → negsuc 9223372036854775807 ≤ℤ t
    → t ≤ℤ pos 9223372036854775807
    → word_of_i64 t < 2 ^ 64
unfolding word_of_i64
word_of_i64-lt (pos n) low high = omega arith
word_of_i64-lt (negsuc n) low high = omega arith

i64_of_word-word_of_i64 :
    (t : ℤ)
    → negsuc 9223372036854775807 ≤ℤ t
    → t ≤ℤ pos 9223372036854775807
    → i64_of_word (word_of_i64 t) ≡ t
unfolding i64_of_word word_of_i64
i64_of_word-word_of_i64 (pos n) low high = ground arith
i64_of_word-word_of_i64 (negsuc n) low high = ground arith

-- The bytes of a header, one by one, up to the payload.
header_long :
    (h : FrameHeader) (payload : List ℕ)
    → ltb (length (header_bytes h ++ payload)) header_len ≡ false
unfolding header_bytes le_bytes
header_long h payload = ground arith

magic_bytes : (from_le_bytes (le_bytes 4 magic) == magic) ≡ true
unfolding from_le_bytes le_bytes
magic_bytes = refl

accepted :
    (short ours : Bool) (r h : FrameHeader)
    → short ≡ false
    → ours ≡ true
    → r ≡ h
    → (if short then none else if ours then some r else none) ≡ some h
accepted short ours r h e f g = rw (e, f, g)

same_fields :
    (h : FrameHeader) (rate count : ℕ) (t : ℤ)
    → rate ≡ h.sample_rate
    → count ≡ h.sample_count
    → t ≡ h.timestamp_ms
    → record h { sample_rate = rate; sample_count = count; timestamp_ms = t } ≡ h
same_fields h rate count t e f g = rw (e, f, g)

-- A header whose numbers fit their words is read back from its bytes, whatever payload follows.
decode_header-header_bytes :
    (h : FrameHeader) (payload : List ℕ)
    → h.sample_rate < 2 ^ 32
    → h.sample_count < 2 ^ 32
    → negsuc 9223372036854775807 ≤ℤ h.timestamp_ms
    → h.timestamp_ms ≤ℤ pos 9223372036854775807
    → decode_header (header_bytes h ++ payload) ≡ some h
unfolding decode_header header_bytes le_bytes
decode_header-header_bytes h payload rate count low high =
    let word = word_of_i64 h.timestamp_ms in
    let fields =
      same_fields h (from_le_bytes (le_bytes 4 h.sample_rate))
        (from_le_bytes (le_bytes 4 h.sample_count)) (i64_of_word (from_le_bytes (le_bytes 8 word)))
        (from_le_bytes-four h.sample_rate rate) (from_le_bytes-four h.sample_count count)
        (ap i64_of_word (from_le_bytes-eight word (word_of_i64-lt h.timestamp_ms low high))
          ∙ i64_of_word-word_of_i64 h.timestamp_ms low high) in
    accepted (ltb (length (header_bytes h ++ payload)) header_len)
      (from_le_bytes (le_bytes 4 magic) == magic) _ h (header_long h payload) magic_bytes fields

word_fits : (n : ℕ) → n % 2 ^ 32 < 2 ^ 32
word_fits n = omega arith

live_flag : (live : Bool) → ((if live then flag_live else 0) % 2 == 1) ≡ live
live_flag true = refl
live_flag false = refl

-- The fields that a listener needs of a frame.
unfoldable pub Carries : AudioFrame → FrameEncoder → FrameHeader → Type 0
Carries frame encoder h =
    (h.version ≡ 1)
    × (h.format_code ≡ encoder.wire_code)
    × (h.channels ≡ min frame.channels 255)
    × (is_live h ≡ frame.live)
    × (h.sample_rate ≡ frame.sample_rate)
    × (h.sample_count ≡ length frame.samples / max frame.channels 1 % 2 ^ 32)
    × (h.timestamp_ms ≡ frame.timestamp_ms)

-- For a rate of 32 bits and a timestamp of 64, and whatever the payload is, a client reads from the
-- server's message the version 1, the frame's rate and timestamp, the encoder's format, the number of
-- channels up to 255, the samples of each channel (as a 32 bit number), and whether the frame is live.
pub decode_header-encode_audio_frame :
    (frame : AudioFrame) (encoder : FrameEncoder)
    → frame.sample_rate < 2 ^ 32
    → negsuc 9223372036854775807 ≤ℤ frame.timestamp_ms
    → frame.timestamp_ms ≤ℤ pos 9223372036854775807
    → (h : FrameHeader) × ((decode_header (encode_audio_frame frame encoder) ≡ some h)
        × Carries frame encoder h)
unfolding encode_audio_frame header_of is_live Carries sample_count
decode_header-encode_audio_frame frame encoder rate low high = (
  header_of frame encoder,
  (
    decode_header-header_bytes (header_of frame encoder) (encoder.encode frame) rate
        (word_fits (sample_count frame)) low high,
    (refl, refl, refl, live_flag frame.live, refl, refl, refl),
  ),
)
