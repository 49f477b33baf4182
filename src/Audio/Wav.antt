-- ===== src/Audio/Wav.antt =====
-- backend/src/audio/wav.rs: the header of a WAV file and the bytes that a span of audio takes. The
-- arithmetic of the header wraps, as it does in a release build.
use on_air_record.Base.{
  ℕ, ◌+◌, ◌*◌, ◌/◌, ◌%◌, ◌^◌, ◌≤◌, ◌≡◌, refl, arith, min, max, Option, none, some, List, [], ◌∷◌,
  ◌++◌, length, ltb, leb, if◌then◌else◌,
}
use on_air_record.Base.Int.{ℤ, pos, pos_part, leb_ℤ}
use on_air_record.Ws.Protocol.{le_bytes, from_le_bytes, slice}

abbrev pub header_bytes : ℕ
header_bytes = 44

abbrev pub max_data_bytes : ℕ
max_data_bytes = 4294967251  -- u32::MAX - 44

abbrev pub saturating_add_u32 : ℕ → ℕ → ℕ
saturating_add_u32 a b = min (a + b) 4294967295

-- "RIFF", "WAVE", "fmt " and "data" in ASCII.
unfoldable pub header : ℕ → ℕ → ℕ → List ℕ
header sample_rate requested_channels data_bytes =
    let channels = max requested_channels 1 in
    let block_align = channels * 16 % 2 ^ 16 / 8 in
    let byte_rate = sample_rate * block_align % 2 ^ 32 in
    (82 ∷ 73 ∷ 70 ∷ 70 ∷ [])
    ++ (le_bytes 4 (saturating_add_u32 36 data_bytes)
        ++ ((87 ∷ 65 ∷ 86 ∷ 69 ∷ [])
            ++ ((102 ∷ 109 ∷ 116 ∷ 32 ∷ [])
                ++ (le_bytes 4 16
                    ++ (le_bytes 2 1
                        ++ (le_bytes 2 channels
                            ++ (le_bytes 4 sample_rate
                                ++ (le_bytes 4 byte_rate
                                    ++ (le_bytes 2 block_align
                                        ++ (le_bytes 2 16
                                            ++ ((100 ∷ 97 ∷ 116 ∷ 97 ∷ [])
                                                ++ le_bytes 4 data_bytes)))))))))))

-- `checked_mul` of two u64.
unfoldable pub checked_mul : ℕ → ℕ → Option ℕ
checked_mul a b = if ltb (a * b) (2 ^ 64) then some (a * b) else none

unfoldable pub fitting : Option ℕ → Option ℕ
fitting none = none
fitting (some bytes) = if leb bytes max_data_bytes then some bytes else none

abbrev pub then_mul : Option ℕ → ℕ → Option ℕ
then_mul none b = none
then_mul (some a) b = checked_mul a b

abbrev pub then_div : Option ℕ → ℕ → Option ℕ
then_div none d = none
then_div (some a) d = some (a / d)

unfoldable pub data_bytes_for : ℕ → ℕ → ℤ → Option ℕ
unfolding checked_mul fitting
data_bytes_for sample_rate channels duration_ms =
    if leb_ℤ duration_ms (pos 0)
    then some 0
    else fitting (
        then_mul
          (then_mul (then_div (checked_mul (pos_part duration_ms) sample_rate) 1000)
            (max channels 1))
          2)

pub length-header :
    (sample_rate channels data_bytes : ℕ)
    → length (header sample_rate channels data_bytes) ≡ header_bytes
unfolding header le_bytes
length-header sample_rate channels data_bytes = refl

-- The two length fields of a header say how many bytes follow them.
pub header-sizes :
    (sample_rate channels data_bytes : ℕ)
    → data_bytes ≤ max_data_bytes
    → let h = header sample_rate channels data_bytes in
      (from_le_bytes (slice h 4 8) + 8 ≡ header_bytes + data_bytes)
      × (from_le_bytes (slice h 40 44) ≡ data_bytes)
unfolding header le_bytes from_le_bytes
header-sizes sample_rate channels data_bytes h = (omega arith, omega arith)
