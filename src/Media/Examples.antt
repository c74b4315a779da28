-- ===== src/Media/Examples.antt =====
-- A PNG of 100 by 50 pixels, and a JPEG with one segment before its frame.
use agent_letter_bridge.Prelude.{◌+◌, ◌*◌, ◌≤◌, ◌≡◌, ◌≢◌, refl, [], ◌∷◌, ◌++◌, ok, err, length}
use agent_letter_bridge.Prelude.Text.{codes, starts_with}
use agent_letter_bridge.Media.{
  Bytes, png, out_of_fuel, max_bytes, max_edge_sum, max_ratio, max_caption, detect, dimensions,
  png_size, slice, take_bytes, drop_bytes, from_big, check_geometry, preflight, jpeg_size,
  jpeg_from, jpeg_turn,
}
use agent_letter_bridge.Media.Preflight.{preflight_bounds}
use agent_letter_bridge.Media.Jpeg.{jpeg_size_ends}

abbrev image : Bytes
image =
    137
    ∷ (codes "PNG"
        ++ 13
          ∷ 10
          ∷ 26
          ∷ 10
          ∷ 0
          ∷ 0
          ∷ 0
          ∷ 13
          ∷ (codes "IHDR" ++ 0 ∷ 0 ∷ 0 ∷ 100 ∷ 0 ∷ 0 ∷ 0 ∷ 50 ∷ []))

image_passes : preflight image (codes "hello") ≡ ok (png, 100, 50)
unfolding preflight detect starts_with dimensions png_size slice take_bytes drop_bytes from_big
    check_geometry
image_passes = refl

preflight_bounds_example :
    (detect image ≡ ok png)
    × (dimensions image png ≡ ok (100, 50))
    × (1 ≤ length image)
    × (length image ≤ max_bytes)
    × (length (codes "hello") ≤ max_caption)
    × (1 ≤ 100)
    × (1 ≤ 50)
    × (100 + 50 ≤ max_edge_sum)
    × (100 ≤ max_ratio * 50)
    × (50 ≤ max_ratio * 100)
preflight_bounds_example = preflight_bounds image (codes "hello") png 100 50 image_passes

-- a segment of four bytes, then a frame of 300 by 2 pixels
abbrev photo : Bytes
photo = 255 ∷ 216 ∷ 255 ∷ 224 ∷ 0 ∷ 4 ∷ 7 ∷ 7 ∷ 255 ∷ 192 ∷ 0 ∷ 17 ∷ 8 ∷ 0 ∷ 2 ∷ 1 ∷ 44 ∷ []

photo_size : jpeg_size photo ≡ ok (300, 2)
unfolding jpeg_size jpeg_from jpeg_turn slice take_bytes drop_bytes from_big
photo_size = refl

jpeg_size_ends_example : jpeg_size photo ≢ err out_of_fuel
jpeg_size_ends_example = jpeg_size_ends photo
