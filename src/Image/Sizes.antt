-- ===== src/Image/Sizes.antt =====
-- What a copy that `check_slice` lets pass touches of the slice.
use geobacter.Prelude.{
  ℕ, ◌+◌, ◌*◌, ◌<◌, ◌≤◌, ◌≡◌, refl, sym, ap, ◌∙◌, subst, Bool, true, false, List, [], ◌∷◌, none,
  some, arith, usize_mod, checked_sub, mul_mono,
}
use geobacter.Prelude.Results.{Result, ok, err, ◌>>◌, >>=-eq-ok, ok-injective}
use geobacter.Image.Geometry.{
  Kind, Shape, one_d, two_d, three_d, one_d_array, two_d_array, one_d_b, fields, lexicographic,
  width, height, unwrap_or, less, Region, into_region, region_len,
}
use geobacter.Image.Descriptor.{to_usize}
use geobacter.Image.Roundtrip.{to_usize-fits}
use geobacter.Image.Copies.{Linear, packed, slice_stride, strides, refuse_if, pitches, check_slice}

to_usize-ok : (v : ℕ) {u : ℕ} → to_usize v ≡ ok u → u ≡ v
to_usize-ok v h = ground arith

refuse_if-ok : (b : Bool) {u : Unit {0}} → refuse_if b ≡ ok u → b ≡ false
refuse_if-ok true h = absurd (cc h)
refuse_if-ok false h = refl

>>-eq-ok :
    {E B : Type 0} (first : Result E (Unit {0})) (rest : Result E B) {b : B}
    → (first >> rest) ≡ ok b
    → (first ≡ ok tt) × (rest ≡ ok b)
>>-eq-ok (err e) rest h = absurd (cc h)
>>-eq-ok (ok a) rest h = (refl, h)

strides-ok :
    {k : Kind} (l : Linear) (r : Region k) (len : Shape k) {st : ℕ × ℕ}
    → region_len r ≡ ok len
    → l.slice_pitch ≡ none
    → strides l r ≡ ok st
    → (st.0 ≡ unwrap_or l.row_pitch (width len)) × (st.1 ≡ unwrap_or (height len) 1)
unfolding strides
strides-ok l r len {st} found free h =
    let (len', found', h₁) = >>=-eq-ok (region_len r) _ h in
    let same : len' ≡ len = ok-injective (sym found' ∙ found) in
    let (w, wide, h₂) = >>=-eq-ok (to_usize (width len')) _ h₁ in
    let (s, tall, h₃) = >>=-eq-ok (slice_stride l.slice_pitch len') _ h₂ in
    let t : s ≡ unwrap_or (height len') 1 =
      to_usize-ok _ (sym (ap (λ p. slice_stride p len') free) ∙ tall) in
    let e : (unwrap_or l.row_pitch w, s) ≡ st = ok-injective h₃ in
    (
      sym (ap (λ p. p.0) e) ∙ ap (unwrap_or l.row_pitch) (to_usize-ok _ wide ∙ ap width same),
      sym (ap (λ p. p.1) e) ∙ t ∙ ap (λ x. unwrap_or (height x) 1) same,
    )

pitches-ok :
    (elem_size slice_len row_stride slice_stride : ℕ) {row_pitch slice_pitch : ℕ}
    → pitches elem_size slice_len row_stride slice_stride ≡ ok (row_pitch, slice_pitch)
    → (row_stride * slice_stride ≤ slice_len)
      × (row_pitch ≡ elem_size * row_stride)
      × (slice_pitch ≡ elem_size * slice_stride)
unfolding pitches
pitches-ok elem_size slice_len row_stride slice_stride h = ground arith

-- What `check_slice` has made sure of where it passes.
pub check_slice-ok :
    {k : Kind} (elem_size slice_len : ℕ) (g : Shape k) (l : Linear) (r : Region k)
    {row_pitch slice_pitch : ℕ}
    → l.slice_pitch ≡ none
    → check_slice elem_size slice_len g l r ≡ ok (row_pitch, slice_pitch)
    → (len : Shape k) × (region_len r ≡ ok len)
      × (unwrap_or l.row_pitch (width len) * unwrap_or (height len) 1 ≤ slice_len)
      × (row_pitch ≡ elem_size * unwrap_or l.row_pitch (width len))
      × (slice_pitch ≡ elem_size * unwrap_or (height len) 1)
unfolding check_slice
check_slice-ok elem_size slice_len g l r free h =
    let (len, found, h₁) = >>=-eq-ok (region_len r) _ h in
    let (near, h₂) = >>-eq-ok (refuse_if (less g len)) _ h₁ in
    let (st, strided, h₃) = >>=-eq-ok (strides l r) _ h₂ in
    let (a, b) = strides-ok l r len found free strided in
    let (room, row, slice) = pitches-ok elem_size slice_len st.0 st.1 h₃ in
    (
      len,
      found,
      rw⁻¹ (a, b) room,
      row ∙ ap (λ t. elem_size * t) a,
      slice ∙ ap (λ t. elem_size * t) b,
    )

row_end : (rs w h n x y : ℕ) → w ≤ rs → rs * h ≤ n → x < w → y < h → y * rs + x + 1 ≤ n
row_end rs w h n x y wide room px py =
    let step : (y + 1) * rs ≤ h * rs = mul_mono (y + 1) rs h rs (omega arith) (omega arith) in
    grind (arith, step, wide, room, px)

-- Where `check_slice` lets a copy pass whose slice pitch is not given and whose rows do not overlap,
-- every pixel of a row of the region, at the place that the row pitch gives it in the first slice of
-- the image, lies in the slice of the host.
pub pixels_in_slice :
    {k : Kind} (elem_size slice_len : ℕ) (g : Shape k) (l : Linear) (r : Region k)
    {row_pitch slice_pitch : ℕ} {len : Shape k} (x y : ℕ)
    → l.slice_pitch ≡ none
    → check_slice elem_size slice_len g l r ≡ ok (row_pitch, slice_pitch)
    → region_len r ≡ ok len
    → width len ≤ unwrap_or l.row_pitch (width len)
    → x < width len
    → y < unwrap_or (height len) 1
    → y * row_pitch + x * elem_size + elem_size ≤ slice_len * elem_size
pixels_in_slice elem_size slice_len g l r {row_pitch} {len} x y free h found wide px py =
    let (len', found', room', row', slice') = check_slice-ok elem_size slice_len g l r free h in
    let same : len' ≡ len = ok-injective (sym found' ∙ found) in
    let rs = unwrap_or l.row_pitch (width len) in
    let room : rs * unwrap_or (height len) 1 ≤ slice_len =
      subst (λ t. unwrap_or l.row_pitch (width t) * unwrap_or (height t) 1 ≤ slice_len) same
        room' in
    let row : row_pitch ≡ elem_size * rs =
      row' ∙ ap (λ t. elem_size * unwrap_or l.row_pitch (width t)) same in
    let last : y * rs + x + 1 ≤ slice_len =
      row_end rs (width len) (unwrap_or (height len) 1) slice_len x y wide room px py in
    let bytes : (y * rs + x + 1) * elem_size ≤ slice_len * elem_size =
      mul_mono (y * rs + x + 1) elem_size slice_len elem_size last (omega arith) in
    let whole : (y * rs + x + 1) * elem_size ≡ y * (elem_size * rs) + x * elem_size + elem_size =
      grind arith in
    rw (row) (omega (arith, bytes, whole))

sub_zero : (a : ℕ) → checked_sub a 0 ≡ some a
sub_zero a = ground arith

-- The region of a whole image is as long as the image.
pub region_len-into_region : {k : Kind} (s : Shape k) → region_len (into_region s) ≡ ok s
unfolding region_len
region_len-into_region (one_d w) = rw (sub_zero w) refl
region_len-into_region (two_d w h) = rw (sub_zero w, sub_zero h) refl
region_len-into_region (three_d w h d) = rw (sub_zero w, sub_zero h, sub_zero d) refl
region_len-into_region (one_d_array w n) = rw (sub_zero w, sub_zero n) refl
region_len-into_region (two_d_array w h n) = rw (sub_zero w, sub_zero h, sub_zero n) refl
region_len-into_region (one_d_b w) = rw (sub_zero w) refl

lexicographic-same : (xs : List ℕ) → lexicographic xs xs ≡ false
lexicographic-same [] = refl
lexicographic-same (x ∷ xs) = ground (arith, lexicographic-same xs)

less-same : {k : Kind} (s : Shape k) → less s s ≡ false
less-same s = lexicographic-same (fields s)

pitches-fit :
    (elem_size slice_len row_stride slice_stride : ℕ)
    → row_stride * slice_stride < usize_mod
    → row_stride * slice_stride ≤ slice_len
    → elem_size * row_stride < usize_mod
    → elem_size * slice_stride < usize_mod
    → pitches elem_size slice_len row_stride slice_stride
      ≡ ok (elem_size * row_stride, elem_size * slice_stride)
unfolding pitches
pitches-fit elem_size slice_len row_stride slice_stride fits room fw fh = ground arith

-- A copy of a whole image of three dimensions, two deep at least, passes with a host slice of one
-- layer's pixels and with the pitches of that layer, although the image has more pixels: the depth is
-- not looked at. The layer and its pitches are supposed to fit a word.
pub depth_unchecked :
    (elem_size w h d : ℕ)
    → 1 ≤ w
    → 1 ≤ h
    → 2 ≤ d
    → w * h < usize_mod
    → elem_size * w < usize_mod
    → elem_size * h < usize_mod
    → (check_slice elem_size (w * h) (three_d w h d) packed (into_region (three_d w h d))
        ≡ ok (elem_size * w, elem_size * h))
      × (w * h < w * h * d)
unfolding check_slice strides
depth_unchecked elem_size w h d pw ph pd fits fw fh = (
  rw
      (
        region_len-into_region (three_d w h d),
        less-same (three_d w h d),
        to_usize-fits w (omega (arith, mul_mono w 1 w h (omega arith) ph, fits)),
        to_usize-fits h (omega (arith, mul_mono 1 h w h pw (omega arith), fits)),
      )
      (pitches-fit elem_size (w * h) w h fits (omega arith) fw fh),
  omega (arith, mul_mono (w * h) 2 (w * h) d (omega arith) pd, mul_mono 1 1 w h pw ph),
)
