-- ===== src/Models/Segment/Seek.antt =====
-- Seeking by arithmetic alone, in backend/src/models/segment.rs.
use native.Mathlib.Nat.{
  le-div_iff_mul-le, mul-div_cancel, div-le_of_le-mul, mul-le-mul_right, mul-mod_left,
}
use on_air_record.Base.{ℕ, zero, suc, ◌==◌, false, subst, ◌+◌, ◌*◌, ◌/◌, ◌%◌, ◌≤◌, ◌<◌, ◌≡◌, arith}
use on_air_record.Base.Int.{ℤ, pos, ◌+ℤ◌, ◌-ℤ◌, ◌≤ℤ◌, min_ℤ, max_ℤ, int_laws, pos_part, parts_zero}
use on_air_record.Models.Segment.{
  Segment, elapsed_ms, byte_offset_for, timestamp_for_offset, bytes_per_sample_frame,
  saturating_mul, i64_max,
}

-- A row that the recorder wrote: its bytes cover its time, at a rate of at least 1 kHz, and it is
-- small enough for its arithmetic not to saturate.
pub record WrittenWhole (s : Segment) : Type 0 where
  pub ordered : s.started_at_ms ≤ℤ s.ended_at_ms
  pub rate : 1000 ≤ s.sample_rate
  pub small : elapsed_ms s s.ended_at_ms * s.sample_rate * bytes_per_sample_frame s ≤ i64_max
  pub covered :
      pos (elapsed_ms s s.ended_at_ms * s.sample_rate / 1000 * bytes_per_sample_frame s)
      ≤ℤ s.byte_len

elapsed_ms-within :
    (s : Segment) (t : ℤ)
    → s.started_at_ms ≤ℤ t
    → t ≤ℤ s.ended_at_ms
    → s.started_at_ms +ℤ pos (elapsed_ms s t) ≡ t
unfolding elapsed_ms
elapsed_ms-within s t above below = omega (
  int_laws,
  parts_zero (max_ℤ (min_ℤ t s.ended_at_ms) s.started_at_ms -ℤ s.started_at_ms),
  parts_zero t,
  parts_zero s.started_at_ms,
  parts_zero s.ended_at_ms,
)

elapsed_ms-le : (s : Segment) (t : ℤ) → elapsed_ms s t ≤ elapsed_ms s s.ended_at_ms
unfolding elapsed_ms
elapsed_ms-le s t = omega (
  int_laws,
  parts_zero (max_ℤ (min_ℤ t s.ended_at_ms) s.started_at_ms -ℤ s.started_at_ms),
  parts_zero (max_ℤ (min_ℤ s.ended_at_ms s.ended_at_ms) s.started_at_ms -ℤ s.started_at_ms),
)

-- Rounding down to a sample and back loses at most a millisecond.
sample_round :
    (elapsed rate : ℕ)
    → 1000 ≤ rate
    → let back = elapsed * rate / 1000 * 1000 / rate in (back ≤ elapsed) × (elapsed ≤ back + 1)
sample_round zero rate h = (div-le_of_le-mul rate (omega arith), omega arith)
sample_round (suc e) rate h =
    let index = suc e * rate / 1000 in
    let down : index * 1000 ≤ suc e * rate = omega arith in
    let up : e * rate ≤ index * 1000 = omega arith in
    let positive : 0 < rate = omega arith in
    let least : e ≤ index * 1000 / rate = (le-div_iff_mul-le positive).1 up in
    (div-le_of_le-mul rate (omega (arith, down)), omega (arith, least))

saturating_mul-small : (a b : ℕ) → a * b ≤ i64_max → saturating_mul a b ≡ a * b
unfolding saturating_mul
saturating_mul-small a b h = omega (arith, h)

frame-positive : (s : Segment) → 0 < bytes_per_sample_frame s
unfolding bytes_per_sample_frame
frame-positive s = omega arith

-- The first sample at or after which the moment lies.
abbrev index_of : Segment → ℤ → ℕ
index_of s t = elapsed_ms s t * s.sample_rate / 1000

div-le-div : (a b : ℕ) → a ≤ b → a / 1000 ≤ b / 1000
div-le-div a b h = omega arith

product-le : (a b c : ℕ) → 0 < c → a ≤ b → b * c ≤ i64_max → (a ≤ i64_max) × (a * c ≤ i64_max)
product-le a b zero positive h most = elim positive [ ]
product-le a b (suc c) positive h most =
    let scaled = mul-le-mul_right (suc c) h in
    (omega (arith, scaled, most), omega (arith, scaled, most))

capped : (x : ℕ) (len : ℤ) → pos x ≤ℤ len → pos_part (min_ℤ (pos x) len) ≡ x
capped x len h = omega (int_laws, parts_zero (min_ℤ (pos x) len))

shift :
    (start : ℤ) (back elapsed : ℕ) (t : ℤ)
    → start +ℤ pos elapsed ≡ t
    → back ≤ elapsed
    → elapsed ≤ back + 1
    → (start +ℤ pos back ≤ℤ t) × (t ≤ℤ start +ℤ pos back +ℤ pos 1)
shift start back elapsed t e early late =
    subst (λ t. (start +ℤ pos back ≤ℤ t) × (t ≤ℤ start +ℤ pos back +ℤ pos 1)) e
      (omega int_laws, omega int_laws)

byte_offset_for-exact :
    (s : Segment) (t : ℤ)
    → WrittenWhole s
    → byte_offset_for s t ≡ index_of s t * bytes_per_sample_frame s
unfolding byte_offset_for
byte_offset_for-exact s t v =
    let b = bytes_per_sample_frame s in
    let e = elapsed_ms s t * s.sample_rate in
    let last = elapsed_ms s s.ended_at_ms * s.sample_rate in
    let le : e ≤ last = mul-le-mul_right s.sample_rate (elapsed_ms-le s t) in
    let (small, _) = product-le e last b (frame-positive s) le v.small in
    let (_, fits) = product-le (e / 1000) last b (frame-positive s) (omega (arith, le)) v.small in
    let most = mul-le-mul_right b (div-le-div e last le) in
    rw
      (
        saturating_mul-small (elapsed_ms s t) s.sample_rate small,
        saturating_mul-small (e / 1000) b fits,
      )
      (capped (e / 1000 * b) s.byte_len (omega (arith, most, v.covered)))

-- In a row of at least 1000 samples a second whose bytes cover its time, and which is short enough for
-- the multiplications not to saturate, every moment is found by arithmetic alone: the byte offset is at
-- the start of a sample frame, and its timestamp is that moment or the millisecond before it.
pub byte_offset_for-near :
    (s : Segment) (t : ℤ)
    → WrittenWhole s
    → s.started_at_ms ≤ℤ t
    → t ≤ℤ s.ended_at_ms
    → let offset = byte_offset_for s t in
      let at = timestamp_for_offset s offset in
      (offset % bytes_per_sample_frame s ≡ 0) × (at ≤ℤ t) × (t ≤ℤ at +ℤ pos 1)
unfolding timestamp_for_offset
byte_offset_for-near s t v above below =
    let b = bytes_per_sample_frame s in
    let some_rate : (s.sample_rate == 0) ≡ false = ground (arith, v.rate) in
    let (early, late) = sample_round (elapsed_ms s t) s.sample_rate v.rate in
    let exact = elapsed_ms-within s t above below in
    let near =
      shift s.started_at_ms (index_of s t * 1000 / s.sample_rate) (elapsed_ms s t) t exact early
        late in
    rw (byte_offset_for-exact s t v, some_rate, mul-div_cancel (index_of s t) (frame-positive s))
      (mul-mod_left (index_of s t) b, near.0, near.1)
