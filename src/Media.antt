-- ===== src/Media.antt =====
-- alb/media/inspect.py: the type of an image by its first bytes, its size, and the checks before a send. A
-- byte is a number. A caption is a text; None is the empty one. The loop of _jpeg_size is recursion on fuel.
pub mod Preflight
pub mod Jpeg
mod Examples
use agent_letter_bridge.Prelude.{
  ℕ, zero, suc, ◌+◌, ◌-◌, ◌*◌, ◌/◌, ◌%◌, ◌^◌, Bool, true, false, not, ◌&&◌, ◌||◌, Option, none,
  some, List, [], ◌∷◌, ◌++◌, Result, ok, err, ◌>>=◌, ◌>>◌, require, length, leb, ltb, eqb,
  if◌then◌else◌,
}
use agent_letter_bridge.Prelude.Text.{Text, codes, eq_text, starts_with}

abbrev pub Bytes : Type 0
Bytes = List ℕ

pub data MediaType : Type 0 where
  png jpeg webp : MediaType

-- MediaError by its message; `out_of_fuel` is no exception of the program
pub data MediaError : Type 0 where
  empty too_large unsupported caption_too_long truncated geometry out_of_fuel : MediaError

abbrev pub max_bytes : ℕ
max_bytes = 10_485_760

abbrev pub max_edge_sum : ℕ
max_edge_sum = 10_000

abbrev pub max_ratio : ℕ
max_ratio = 20

abbrev pub max_caption : ℕ
max_caption = 1024

abbrev png_magic : Bytes
png_magic = 137 ∷ (codes "PNG" ++ 13 ∷ 10 ∷ 26 ∷ 10 ∷ [])

abbrev jpeg_magic : Bytes
jpeg_magic = 255 ∷ 216 ∷ 255 ∷ []

unfoldable pub drop_bytes : ℕ → Bytes → Bytes
drop_bytes zero raw = raw
drop_bytes (suc n) [] = []
drop_bytes (suc n) (b ∷ raw) = drop_bytes n raw

unfoldable pub take_bytes : ℕ → Bytes → Bytes
take_bytes zero raw = []
take_bytes (suc n) [] = []
take_bytes (suc n) (b ∷ raw) = b ∷ take_bytes n raw

-- data[i:j]
unfoldable pub slice : ℕ → ℕ → Bytes → Bytes
slice i j raw = take_bytes (j - i) (drop_bytes i raw)

abbrev pub first_byte : Bytes → ℕ
first_byte [] = 0
first_byte (b ∷ raw) = b

-- data[i], for an i within the data
abbrev pub byte_at : ℕ → Bytes → ℕ
byte_at i raw = first_byte (drop_bytes i raw)

-- int.from_bytes(data, "big"), after the bytes that make `high`
unfoldable pub from_big : ℕ → Bytes → ℕ
from_big high [] = high
from_big high (b ∷ raw) = from_big (high * 256 + b) raw

-- int.from_bytes(data, "little")
unfoldable pub from_little : Bytes → ℕ
from_little [] = 0
from_little (b ∷ raw) = b + 256 * from_little raw

-- detect(data)
unfoldable pub detect : Bytes → Result MediaError MediaType
detect raw =
    if eqb (length raw) 0
    then err empty
    else if ltb max_bytes (length raw)
    then err too_large
    else if starts_with png_magic raw
    then ok png
    else if starts_with jpeg_magic raw
    then ok jpeg
    else if leb 12 (length raw)
        && (starts_with (codes "RIFF") raw && eq_text (slice 8 12 raw) (codes "WEBP"))
    then ok webp
    else err unsupported

-- _png_size(data)
unfoldable pub png_size : Bytes → Result MediaError (ℕ × ℕ)
png_size raw =
    if ltb (length raw) 24
    then err truncated
    else ok (from_big 0 (slice 16 20 raw), from_big 0 (slice 20 24 raw))

-- the markers of a frame: 0xC0 to 0xCF but for 0xC4, 0xC8 and 0xCC
abbrev pub is_frame : ℕ → Bool
is_frame m = (leb 192 m && leb m 207) && not (eqb m 196 || (eqb m 200 || eqb m 204))

-- the markers without a length
abbrev pub is_bare : ℕ → Bool
is_bare m = (eqb m 216 || eqb m 217) || (eqb m 1 || (leb 208 m && leb m 215))

-- what one turn of the loop does: it ends, or goes on at an index
pub data Turn : Type 0 where
  stop : Result MediaError (ℕ × ℕ) → Turn
  on : ℕ → Turn

unfoldable pub jpeg_turn : Bytes → ℕ → Turn
jpeg_turn raw i =
    if not (leb (i + 9) (length raw))
    then stop (err truncated)
    else if not (eqb (byte_at i raw) 255)
    then stop (err truncated)
    else if is_frame (byte_at (i + 1) raw)
    then stop (ok (from_big 0 (slice (i + 7) (i + 9) raw), from_big 0 (slice (i + 5) (i + 7) raw)))
    else if is_bare (byte_at (i + 1) raw)
    then on (i + 2)
    else if ltb (length raw) (i + 4)
    then stop (err truncated)
    else if ltb (from_big 0 (slice (i + 2) (i + 4) raw)) 2
    then stop (err truncated)
    else on (i + (2 + from_big 0 (slice (i + 2) (i + 4) raw)))

unfoldable pub jpeg_from : ℕ → Bytes → Turn → Result MediaError (ℕ × ℕ)
jpeg_from fuel raw (stop r) = r
jpeg_from zero raw (on i) = err out_of_fuel
jpeg_from (suc fuel) raw (on i) = jpeg_from fuel raw (jpeg_turn raw i)

-- _jpeg_size(data), with a turn for each byte
unfoldable pub jpeg_size : Bytes → Result MediaError (ℕ × ℕ)
jpeg_size raw = jpeg_from (length raw + 1) raw (on 2)

-- data.find(pattern), from the index i
unfoldable pub find_from : Bytes → ℕ → Bytes → Option ℕ
find_from pattern i [] = none
find_from pattern i (b ∷ raw) =
    let rest = find_from pattern (suc i) raw in
    if starts_with pattern (b ∷ raw) then some i else rest

abbrev start_code : Bytes
start_code = 157 ∷ 1 ∷ 42 ∷ []

abbrev lossy_at : Bytes → ℕ → Result MediaError (ℕ × ℕ)
lossy_at raw i = ok (
  from_little (slice (i + 3) (i + 5) raw) % 2 ^ 14,
  from_little (slice (i + 5) (i + 7) raw) % 2 ^ 14,
)

abbrev lossy_found : Bytes → Option ℕ → Result MediaError (ℕ × ℕ)
lossy_found raw none = err truncated
lossy_found raw (some i) = if ltb (length raw) (i + 7) then err truncated else lossy_at raw i

-- the size of a lossy WebP
unfoldable pub lossy_size : Bytes → Result MediaError (ℕ × ℕ)
lossy_size raw =
    if eq_text (slice 20 23 raw) start_code
    then lossy_at raw 20
    else lossy_found raw (find_from start_code 0 raw)

-- _webp_size(data)
unfoldable pub webp_size : Bytes → Result MediaError (ℕ × ℕ)
webp_size raw =
    if ltb (length raw) 30
    then err truncated
    else if eq_text (slice 12 16 raw) (codes "VP8X")
    then ok (1 + from_little (slice 24 27 raw), 1 + from_little (slice 27 30 raw))
    else if eq_text (slice 12 16 raw) (codes "VP8 ")
    then lossy_size raw
    else if eq_text (slice 12 16 raw) (codes "VP8L")
    then (let bits = from_little (slice 21 25 raw) in
        ok (bits % 2 ^ 14 + 1, bits / 2 ^ 14 % 2 ^ 14 + 1))
    else err truncated

-- dimensions(data, media_type)
unfoldable pub dimensions : Bytes → MediaType → Result MediaError (ℕ × ℕ)
dimensions raw png = png_size raw
dimensions raw jpeg = jpeg_size raw
dimensions raw webp = webp_size raw

-- the checks of the size; the ratio of the edges is compared without a division
unfoldable pub check_geometry : ℕ → ℕ → Result MediaError (Unit {0})
check_geometry width height =
    if eqb width 0 || eqb height 0
    then err geometry
    else if ltb max_edge_sum (width + height)
    then err geometry
    else if ltb (max_ratio * height) width || ltb (max_ratio * width) height
    then err geometry
    else ok tt

-- preflight(data, caption)
unfoldable pub preflight : Bytes → Text → Result MediaError (MediaType × ℕ × ℕ)
preflight raw caption = if ltb max_caption (length caption) then err caption_too_long else (do
  media_type ← detect raw
  size ← dimensions raw media_type
  checked ← check_geometry size.0 size.1
  ok (media_type, size.0, size.1))
