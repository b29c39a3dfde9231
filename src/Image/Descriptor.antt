-- ===== src/Image/Descriptor.antt =====
-- What the HSA library is told of an image: `Geometry::set_ffi`, `Descriptor::set_ffi`, and the
-- geometry that `Agent::image_capabilities` asks about.
use geobacter.Prelude.{ℕ, Bool, true, false, usize_mod, try_into}
use geobacter.Prelude.Results.{Result, ok, ok_or, ◌>>=◌}
use geobacter.HsaErrors.{HsaError, overflow}
use geobacter.Image.Geometry.{
  Kind, plain_1d, plain_2d, plain_3d, array_1d, array_2d, buffer_1d, Shape, one_d, two_d, three_d,
  one_d_array, two_d_array, one_d_b,
}
use geobacter.Image.Format.{ChannelOrder, depth, depth_stencil, Format, order_code, type_code}

-- The constants `HSA_EXT_IMAGE_GEOMETRY_*`.
pub record ImageAbi : Type 0 where
  pub geometry_1d : ℕ
  pub geometry_2d : ℕ
  pub geometry_3d : ℕ
  pub geometry_1da : ℕ
  pub geometry_2da : ℕ
  pub geometry_1db : ℕ
  pub geometry_2ddepth : ℕ
  pub geometry_2dadepth : ℕ

-- `hsa_ext_image_descriptor_t`, with its format.
pub record FfiDescriptor : Type 0 where
  pub geometry : ℕ
  pub width : ℕ
  pub height : ℕ
  pub depth : ℕ
  pub array_size : ℕ
  pub channel_type : ℕ
  pub channel_order : ℕ

abbrev pub to_usize : ℕ → Result HsaError ℕ
to_usize v = ok_or (try_into usize_mod v) overflow

-- The orders that the two matches on the geometry single out.
abbrev pub is_depth : ChannelOrder → Bool
is_depth depth = true
is_depth depth_stencil = true
is_depth _ = false

module _ (c : ImageAbi) where
  -- `Geometry::set_ffi`.
  unfoldable pub set_geometry : {k : Kind} → Shape k → FfiDescriptor → Result HsaError FfiDescriptor
  set_geometry s ffi =
      let blank = record ffi { width = 0; height = 0; depth = 0; array_size = 0 } in fill s blank
    where
      fill : {k : Kind} → Shape k → FfiDescriptor → Result HsaError FfiDescriptor
      fill (one_d w) f = do w' ← to_usize w; ok (record f { geometry = c.geometry_1d; width = w' })
      fill (two_d w h) f = do
        w' ← to_usize w
        h' ← to_usize h
        ok (record f { geometry = c.geometry_2d; width = w'; height = h' })
      fill (three_d w h d) f = do
        w' ← to_usize w
        h' ← to_usize h
        d' ← to_usize d
        ok (record f { geometry = c.geometry_3d; width = w'; height = h'; depth = d' })
      fill (one_d_array w n) f = do
        w' ← to_usize w
        n' ← to_usize n
        ok (record f { geometry = c.geometry_1da; width = w'; array_size = n' })
      fill (two_d_array w h n) f = do
        w' ← to_usize w
        h' ← to_usize h
        n' ← to_usize n
        ok (record f { geometry = c.geometry_2da; width = w'; height = h'; array_size = n' })
      fill (one_d_b w) f = do
        w' ← to_usize w
        ok (record f { geometry = c.geometry_1db; width = w' })

  -- `Format::set_ffi`.
  abbrev pub set_format : Format → FfiDescriptor → FfiDescriptor
  set_format f ffi = record ffi {
    channel_type = type_code f.ty;
    channel_order = order_code f.order;
  }

  -- The match at the end of `Descriptor::set_ffi`.
  abbrev pub set_depth : Kind → Bool → FfiDescriptor → FfiDescriptor
  set_depth plain_2d true ffi = record ffi { geometry = c.geometry_2ddepth }
  set_depth array_2d true ffi = record ffi { geometry = c.geometry_2dadepth }
  set_depth k b ffi = ffi

  -- `Descriptor::set_ffi`.
  unfoldable pub set_ffi :
      {k : Kind} → Shape k → Format → FfiDescriptor → Result HsaError FfiDescriptor
  unfolding set_geometry
  set_ffi {k} s f ffi = do
    g ← set_geometry s ffi
    ok (set_depth k (is_depth f.order) (set_format f g))

  -- The two matches on the geometry in `Agent::image_capabilities`.
  abbrev pub capability_base : Kind → ℕ
  capability_base plain_1d = c.geometry_1d
  capability_base plain_2d = c.geometry_2d
  capability_base plain_3d = c.geometry_3d
  capability_base array_1d = c.geometry_1da
  capability_base array_2d = c.geometry_2da
  capability_base buffer_1d = c.geometry_1db

  abbrev pub capability_depth : Kind → Bool → ℕ
  capability_depth plain_2d true = c.geometry_2ddepth
  capability_depth array_2d true = c.geometry_2dadepth
  capability_depth k b = capability_base k

  unfoldable pub capability_geometry : Kind → ChannelOrder → ℕ
  capability_geometry k o = capability_depth k (is_depth o)
