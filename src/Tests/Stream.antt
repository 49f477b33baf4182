-- ===== src/Tests/Stream.antt =====
-- The messages of backend/src/ws on a concrete frame.
use on_air_record.Base.{◌≡◌, some, true, [], ◌∷◌, arith}
use on_air_record.Base.Int.{pos, negsuc}
use on_air_record.Models.AudioFrame.{AudioFrame, from_samples, to_le_bytes}
use on_air_record.Ws.Protocol.{FrameHeader, FrameEncoder, encode_audio_frame, decode_header}
use on_air_record.Ws.Protocol.RoundTrip.{Carries, decode_header-encode_audio_frame}

-- The encoder of 16 bit samples.
abbrev pub pcm : FrameEncoder
pcm = record { wire_code = 0; encode = to_le_bytes }

abbrev spoken_frame : AudioFrame
spoken_frame = from_samples (pos 1750000000000) 48000 1 (pos 5 ∷ negsuc 6 ∷ []) true

decode_header-encode_audio_frame_example :
    (h : FrameHeader) × ((decode_header (encode_audio_frame spoken_frame pcm) ≡ some h)
      × Carries spoken_frame pcm h)
decode_header-encode_audio_frame_example =
    decode_header-encode_audio_frame spoken_frame pcm (omega arith) (omega arith) (omega arith)
