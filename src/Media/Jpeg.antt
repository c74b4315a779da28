-- ===== src/Media/Jpeg.antt =====
-- The walk over the segments of a JPEG ends.
use agent_letter_bridge.Prelude.{
  ℕ, zero, suc, ◌+◌, ◌≤◌, ◌<◌, ◌≡◌, ◌≢◌, refl, ap, ◌∙◌, Bool, true, false, not, ok, err, length,
  leb, ltb, eqb, if◌then◌else◌, arith,
}
use agent_letter_bridge.Media.{
  Bytes, out_of_fuel, truncated, Turn, stop, on, byte_at, is_frame, is_bare, from_big, slice,
  jpeg_turn, jpeg_from, jpeg_size,
}

-- a turn never runs out of fuel, and one that goes on stands within the data and goes on further
abbrev Advances : Bytes → ℕ → Turn → Type 0
Advances raw i (stop r) = r ≢ err out_of_fuel
Advances raw i (on j) = (i + 9 ≤ length raw) × (i + 2 ≤ j)

-- the six tests of a turn, the first of which is whether nine bytes are left
turn_cases :
    (raw : Bytes) (i n : ℕ) (size : ℕ × ℕ) (short marked frame bare cut tiny : Bool)
    → (short ≡ false → i + 9 ≤ length raw)
    → Advances raw i (
        if short
        then stop (err truncated)
        else if marked
        then stop (err truncated)
        else if frame
        then stop (ok size)
        else if bare
        then on (i + 2)
        else if cut
        then stop (err truncated)
        else if tiny
        then stop (err truncated)
        else on (i + (2 + n)))
turn_cases raw i n size true marked frame bare cut tiny w = λ e. cc (e)
turn_cases raw i n size false true frame bare cut tiny w = λ e. cc (e)
turn_cases raw i n size false false true bare cut tiny w = λ e. cc (e)
turn_cases raw i n size false false false true cut tiny w = (w refl, omega arith)
turn_cases raw i n size false false false false true tiny w = λ e. cc (e)
turn_cases raw i n size false false false false false true w = λ e. cc (e)
turn_cases raw i n size false false false false false false w = (w refl, omega arith)

jpeg_turn-Advances : (raw : Bytes) (i : ℕ) → Advances raw i (jpeg_turn raw i)
unfolding jpeg_turn
jpeg_turn-Advances raw i =
    turn_cases raw i (from_big 0 (slice (i + 2) (i + 4) raw))
      (from_big 0 (slice (i + 7) (i + 9) raw), from_big 0 (slice (i + 5) (i + 7) raw))
      (not (leb (i + 9) (length raw))) (not (eqb (byte_at i raw) 255))
      (is_frame (byte_at (i + 1) raw)) (is_bare (byte_at (i + 1) raw)) (ltb (length raw) (i + 4))
      (ltb (from_big 0 (slice (i + 2) (i + 4) raw)) 2) (λ e. ground (arith, e))

from-ends :
    (fuel : ℕ) (raw : Bytes) (i : ℕ) (t : Turn)
    → Advances raw i t
    → length raw < fuel + (i + 2)
    → jpeg_from fuel raw t ≢ err out_of_fuel
unfolding jpeg_from
from-ends fuel raw i (stop r) a h = a
from-ends zero raw i (on j) a h = absurd (omega (arith, h, a))
from-ends (suc fuel) raw i (on j) (w, k) h =
    from-ends fuel raw j (jpeg_turn raw j) (jpeg_turn-Advances raw j) (omega (arith, h, k))

-- The walk over the segments of a JPEG ends for any bytes: a turn for each byte is enough.
pub jpeg_size_ends : (raw : Bytes) → jpeg_size raw ≢ err out_of_fuel
unfolding jpeg_size jpeg_from
jpeg_size_ends raw e =
    from-ends (length raw) raw 2 (jpeg_turn raw 2) (jpeg_turn-Advances raw 2) (omega arith)
      (ap (λ (fuel : ℕ). jpeg_from fuel raw (on 2)) one_more ∙ e)
  where
    one_more : suc (length raw) ≡ length raw + 1
    one_more = omega arith
