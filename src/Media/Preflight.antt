-- ===== src/Media/Preflight.antt =====
-- What an image that passes the checks is like.
use agent_letter_bridge.Prelude.{
  ℕ, ◌+◌, ◌*◌, ◌≤◌, ◌≡◌, subst, Result, ok, ◌>>=◌, >>=-eq-ok, length, ltb, arith, inl, inr,
  Bool-cases,
}
use agent_letter_bridge.Prelude.Text.{Text}
use agent_letter_bridge.Media.{
  Bytes, MediaType, MediaError, max_bytes, max_edge_sum, max_ratio, max_caption, detect, dimensions,
  check_geometry, preflight,
}

detect_bounds :
    (raw : Bytes) (t : MediaType) → detect raw ≡ ok t → (1 ≤ length raw) × (length raw ≤ max_bytes)
unfolding detect
detect_bounds raw t h = ground (arith, h)

geometry_bounds :
    (w h : ℕ) {u : Unit {0}}
    → check_geometry w h ≡ ok u
    → (1 ≤ w) × (1 ≤ h) × (w + h ≤ max_edge_sum) × (w ≤ max_ratio * h) × (h ≤ max_ratio * w)
unfolding check_geometry
geometry_bounds w h e = ground (arith, e)

abbrev accepted : MediaType × ℕ × ℕ → Result MediaError (MediaType × ℕ × ℕ)
accepted x = ok x

-- An image that passes the checks before a send is not empty and at most 10 MiB, its type is the one that
-- its first bytes name, neither edge is zero, the two make at most 10,000 pixels together, neither is more
-- than twenty times the other, and the caption has at most 1024 characters.
pub preflight_bounds :
    (raw : Bytes) (caption : Text) (t : MediaType) (w h : ℕ)
    → preflight raw caption ≡ ok (t, w, h)
    → (detect raw ≡ ok t)
      × (dimensions raw t ≡ ok (w, h))
      × (1 ≤ length raw)
      × (length raw ≤ max_bytes)
      × (length caption ≤ max_caption)
      × (1 ≤ w)
      × (1 ≤ h)
      × (w + h ≤ max_edge_sum)
      × (w ≤ max_ratio * h)
      × (h ≤ max_ratio * w)
unfolding preflight
preflight_bounds raw caption t w h e = elim (Bool-cases (ltb max_caption (length caption))) [
  | inl long ↦ absurd (ground (arith, long, e))
  | inr short ↦ checked (ground (arith, short)) (ground (arith, short, e))
]
  where
    result : {x : MediaType × ℕ × ℕ} → accepted x ≡ ok (t, w, h) → x ≡ (t, w, h)
    result q = cc (q)

    checked :
        length caption ≤ max_caption
        → (detect raw >>= (λ u.
            dimensions raw u
            >>= (λ size. check_geometry size.0 size.1 >>= (λ _. accepted (u, size.0, size.1)))))
          ≡ ok (t, w, h)
        → (detect raw ≡ ok t)
          × (dimensions raw t ≡ ok (w, h))
          × (1 ≤ length raw)
          × (length raw ≤ max_bytes)
          × (length caption ≤ max_caption)
          × (1 ≤ w)
          × (1 ≤ h)
          × (w + h ≤ max_edge_sum)
          × (w ≤ max_ratio * h)
          × (h ≤ max_ratio * w)
    checked short k =
        let (u, a, k) = >>=-eq-ok (detect raw) _ k in
        let ((width, height), b, k) = >>=-eq-ok (dimensions raw u) _ k in
        let (done, c, k) = >>=-eq-ok (check_geometry width height) _ k in
        let g = geometry_bounds width height c in
        let d = detect_bounds raw u a in
        subst
          (λ (r : MediaType × ℕ × ℕ).
            (detect raw ≡ ok r.0)
            × (dimensions raw r.0 ≡ ok (r.1, r.2))
            × (1 ≤ length raw)
            × (length raw ≤ max_bytes)
            × (length caption ≤ max_caption)
            × (1 ≤ r.1)
            × (1 ≤ r.2)
            × (r.1 + r.2 ≤ max_edge_sum)
            × (r.1 ≤ max_ratio * r.2)
            × (r.2 ≤ max_ratio * r.1))
          (result k) (a, b, d.0, d.1, short, g.0, g.1, g.2, g.3, g.4)
