-- ===== src/Image/Roundtrip.antt =====
-- What the HSA library reads in a descriptor is the shape and the format that it was made from.
use geobacter.Prelude.{
  ℕ, ◌<◌, ◌≡◌, refl, Bool, true, false, Option, some, [], ◌∷◌, All, get_elem?, usize_mod, arith,
}
use geobacter.Prelude.Results.{ok}
use geobacter.Image.Geometry.{
  Kind, plain_1d, plain_2d, plain_3d, array_1d, array_2d, buffer_1d, Shape, one_d, two_d, three_d,
  one_d_array, two_d_array, one_d_b, fields,
}
use geobacter.Image.Format.{
  ChannelOrder, ChannelType, Format, order_code, type_code, order_a, order_r, rx, rg, rgx, ra, rgb,
  rgbx, rgba, bgra, argb, abgr, srgb, srgbx, srgba, sbgra, intensity, luminance, depth,
  depth_stencil, norm_i8, norm_i16, norm_u8, norm_u16, norm_u24, unorm_short555, unorm_short565,
  unorm_short101010, i8, i16, i32, u8, u16, u32, f16_f32, f32,
}
use geobacter.Image.Descriptor.{
  ImageAbi, FfiDescriptor, to_usize, set_geometry, set_depth, set_format, set_ffi, is_depth,
  capability_geometry, capability_depth,
}

-- The values of the specification of the image extension.
pub record IsImageAbi (c : ImageAbi) : Type 0 where
  pub geometry_1d_eq : c.geometry_1d ≡ 0
  pub geometry_2d_eq : c.geometry_2d ≡ 1
  pub geometry_3d_eq : c.geometry_3d ≡ 2
  pub geometry_1da_eq : c.geometry_1da ≡ 3
  pub geometry_2da_eq : c.geometry_2da ≡ 4
  pub geometry_1db_eq : c.geometry_1db ≡ 5
  pub geometry_2ddepth_eq : c.geometry_2ddepth ≡ 6
  pub geometry_2dadepth_eq : c.geometry_2dadepth ≡ 7

-- What the specification makes of a descriptor: the extents that the geometry has.
unfoldable pub described : FfiDescriptor → Option ((k : Kind) × Shape k)
described d =
    get_elem?
      ((plain_1d, one_d d.width)
        ∷ (plain_2d, two_d d.width d.height)
        ∷ (plain_3d, three_d d.width d.height d.depth)
        ∷ (array_1d, one_d_array d.width d.array_size)
        ∷ (array_2d, two_d_array d.width d.height d.array_size)
        ∷ (buffer_1d, one_d_b d.width)
        ∷ (plain_2d, two_d d.width d.height)
        ∷ (array_2d, two_d_array d.width d.height d.array_size)
        ∷ [])
      d.geometry

unfoldable pub described_order : FfiDescriptor → Option ChannelOrder
described_order d =
    get_elem?
      (order_a ∷ order_r ∷ rx ∷ rg ∷ rgx ∷ ra ∷ rgb ∷ rgbx ∷ rgba ∷ bgra ∷ argb ∷ abgr ∷ srgb
        ∷ srgbx ∷ srgba ∷ sbgra ∷ intensity ∷ luminance ∷ depth ∷ depth_stencil ∷ [])
      d.channel_order

unfoldable pub described_type : FfiDescriptor → Option ChannelType
described_type d =
    get_elem?
      (norm_i8 ∷ norm_i16 ∷ norm_u8 ∷ norm_u16 ∷ norm_u24 ∷ unorm_short555 ∷ unorm_short565
        ∷ unorm_short101010 ∷ i8 ∷ i16 ∷ i32 ∷ u8 ∷ u16 ∷ u32 ∷ f16_f32 ∷ f32 ∷ [])
      d.channel_type

order_read :
    (d : FfiDescriptor) (o : ChannelOrder)
    → d.channel_order ≡ order_code o
    → described_order d ≡ some o
unfolding described_order
order_read d order_a e = rw (e) refl
order_read d order_r e = rw (e) refl
order_read d rx e = rw (e) refl
order_read d rg e = rw (e) refl
order_read d rgx e = rw (e) refl
order_read d ra e = rw (e) refl
order_read d rgb e = rw (e) refl
order_read d rgbx e = rw (e) refl
order_read d rgba e = rw (e) refl
order_read d bgra e = rw (e) refl
order_read d argb e = rw (e) refl
order_read d abgr e = rw (e) refl
order_read d srgb e = rw (e) refl
order_read d srgbx e = rw (e) refl
order_read d srgba e = rw (e) refl
order_read d sbgra e = rw (e) refl
order_read d intensity e = rw (e) refl
order_read d luminance e = rw (e) refl
order_read d depth e = rw (e) refl
order_read d depth_stencil e = rw (e) refl

type_read :
    (d : FfiDescriptor) (t : ChannelType) → d.channel_type ≡ type_code t → described_type d ≡ some t
unfolding described_type
type_read d norm_i8 e = rw (e) refl
type_read d norm_i16 e = rw (e) refl
type_read d norm_u8 e = rw (e) refl
type_read d norm_u16 e = rw (e) refl
type_read d norm_u24 e = rw (e) refl
type_read d unorm_short555 e = rw (e) refl
type_read d unorm_short565 e = rw (e) refl
type_read d unorm_short101010 e = rw (e) refl
type_read d i8 e = rw (e) refl
type_read d i16 e = rw (e) refl
type_read d i32 e = rw (e) refl
type_read d u8 e = rw (e) refl
type_read d u16 e = rw (e) refl
type_read d u32 e = rw (e) refl
type_read d f16_f32 e = rw (e) refl
type_read d f32 e = rw (e) refl

pub to_usize-fits : (v : ℕ) → v < usize_mod → to_usize v ≡ ok v
to_usize-fits v h = ground arith

-- The descriptor that `set_geometry` makes of a shape that fits.
abbrev filled : ImageAbi → {k : Kind} → Shape k → FfiDescriptor → FfiDescriptor
filled c (one_d w) d = record d {
  geometry = c.geometry_1d;
  width = w;
  height = 0;
  depth = 0;
  array_size = 0;
}
filled c (two_d w h) d = record d {
  geometry = c.geometry_2d;
  width = w;
  height = h;
  depth = 0;
  array_size = 0;
}
filled c (three_d w h p) d = record d {
  geometry = c.geometry_3d;
  width = w;
  height = h;
  depth = p;
  array_size = 0;
}
filled c (one_d_array w n) d = record d {
  geometry = c.geometry_1da;
  width = w;
  height = 0;
  depth = 0;
  array_size = n;
}
filled c (two_d_array w h n) d = record d {
  geometry = c.geometry_2da;
  width = w;
  height = h;
  depth = 0;
  array_size = n;
}
filled c (one_d_b w) d = record d {
  geometry = c.geometry_1db;
  width = w;
  height = 0;
  depth = 0;
  array_size = 0;
}

set_geometry-filled :
    (c : ImageAbi) {k : Kind} (s : Shape k) (d : FfiDescriptor)
    → All (λ v. v < usize_mod) (fields s)
    → set_geometry c s d ≡ ok (filled c s d)
unfolding set_geometry
set_geometry-filled c (one_d w) d (h, _) = rw (to_usize-fits w h) refl
set_geometry-filled c (two_d w h) d (p, (q, _)) = rw (to_usize-fits w p, to_usize-fits h q) refl
set_geometry-filled c (three_d w h n) d (p, (q, (r, _))) =
    rw (to_usize-fits w p, to_usize-fits h q, to_usize-fits n r) refl
set_geometry-filled c (one_d_array w n) d (p, (q, _)) =
    rw (to_usize-fits w p, to_usize-fits n q) refl
set_geometry-filled c (two_d_array w h n) d (p, (q, (r, _))) =
    rw (to_usize-fits w p, to_usize-fits h q, to_usize-fits n r) refl
set_geometry-filled c (one_d_b w) d (h, _) = rw (to_usize-fits w h) refl

made-described :
    (c : ImageAbi) {k : Kind} (s : Shape k) (f : Format) (d : FfiDescriptor)
    → IsImageAbi c
    → (b : Bool) → described (set_depth c k b (set_format c f (filled c s d))) ≡ some (k, s)
unfolding described
made-described c (one_d w) f d abi b = rw (abi.geometry_1d_eq) refl
made-described c (two_d w h) f d abi true = rw (abi.geometry_2ddepth_eq) refl
made-described c (two_d w h) f d abi false = rw (abi.geometry_2d_eq) refl
made-described c (three_d w h n) f d abi b = rw (abi.geometry_3d_eq) refl
made-described c (one_d_array w n) f d abi b = rw (abi.geometry_1da_eq) refl
made-described c (two_d_array w h n) f d abi true = rw (abi.geometry_2dadepth_eq) refl
made-described c (two_d_array w h n) f d abi false = rw (abi.geometry_2da_eq) refl
made-described c (one_d_b w) f d abi b = rw (abi.geometry_1db_eq) refl

made-geometry :
    (c : ImageAbi) {k : Kind} (s : Shape k) (f : Format) (d : FfiDescriptor) (b : Bool)
    → (set_depth c k b (set_format c f (filled c s d))).geometry ≡ capability_depth c k b
made-geometry c (one_d w) f d b = refl
made-geometry c (two_d w h) f d true = refl
made-geometry c (two_d w h) f d false = refl
made-geometry c (three_d w h n) f d b = refl
made-geometry c (one_d_array w n) f d b = refl
made-geometry c (two_d_array w h n) f d true = refl
made-geometry c (two_d_array w h n) f d false = refl
made-geometry c (one_d_b w) f d b = refl

module _ (c : ImageAbi) where
  depth-order :
      (k : Kind) (b : Bool) (d : FfiDescriptor)
      → (set_depth c k b d).channel_order ≡ d.channel_order
  depth-order plain_1d b d = refl
  depth-order plain_2d true d = refl
  depth-order plain_2d false d = refl
  depth-order plain_3d b d = refl
  depth-order array_1d b d = refl
  depth-order array_2d true d = refl
  depth-order array_2d false d = refl
  depth-order buffer_1d b d = refl

  depth-type :
      (k : Kind) (b : Bool) (d : FfiDescriptor) → (set_depth c k b d).channel_type ≡ d.channel_type
  depth-type plain_1d b d = refl
  depth-type plain_2d true d = refl
  depth-type plain_2d false d = refl
  depth-type plain_3d b d = refl
  depth-type array_1d b d = refl
  depth-type array_2d true d = refl
  depth-type array_2d false d = refl
  depth-type buffer_1d b d = refl

-- Where the fields of a shape fit `usize`, the descriptor is made, and the HSA library reads the shape
-- and the format in it that it was made from, whatever was in it before; `set_ffi` and
-- `image_capabilities` give the image the same geometry.
pub set_ffi-described :
    (c : ImageAbi) {k : Kind} (s : Shape k) (f : Format) (ffi : FfiDescriptor)
    → IsImageAbi c
    → All (λ v. v < usize_mod) (fields s)
    → (ffi' : FfiDescriptor) × (set_ffi c s f ffi ≡ ok ffi')
      × (described ffi' ≡ some (k, s))
      × (described_order ffi' ≡ some f.order)
      × (described_type ffi' ≡ some f.ty)
      × (ffi'.geometry ≡ capability_geometry c k f.order)
unfolding set_ffi capability_geometry
set_ffi-described c {k} s f ffi abi fit =
    let made = set_depth c k (is_depth f.order) (set_format c f (filled c s ffi)) in
    (
      made,
      rw (set_geometry-filled c s ffi fit) refl,
      made-described c s f ffi abi (is_depth f.order),
      order_read made f.order (depth-order c k (is_depth f.order) _),
      type_read made f.ty (depth-type c k (is_depth f.order) _),
      made-geometry c s f ffi (is_depth f.order),
    )
