-- ===== src/Image/Format.antt =====
-- hsa-rt/src/ext/image/channel_order.rs, channel_type.rs and format.rs: how many components a pixel
-- has, and how many bytes a component takes on the host.
use geobacter.Prelude.{ℕ, ◌*◌}

-- `enum ChannelOrder`, in the order of its discriminants.
pub data ChannelOrder : Type 0 where
  order_a order_r rx rg rgx ra rgb rgbx rgba bgra argb abgr srgb srgbx srgba sbgra : ChannelOrder
  intensity luminance depth depth_stencil : ChannelOrder

-- `enum ChannelType`, in the order of its discriminants.
pub data ChannelType : Type 0 where
  norm_i8 norm_i16 norm_u8 norm_u16 norm_u24 unorm_short555 unorm_short565 : ChannelType
  unorm_short101010 i8 i16 i32 u8 u16 u32 f16_f32 f32 : ChannelType

-- `o as _`.
abbrev pub order_code : ChannelOrder → ℕ
order_code order_a = 0
order_code order_r = 1
order_code rx = 2
order_code rg = 3
order_code rgx = 4
order_code ra = 5
order_code rgb = 6
order_code rgbx = 7
order_code rgba = 8
order_code bgra = 9
order_code argb = 10
order_code abgr = 11
order_code srgb = 12
order_code srgbx = 13
order_code srgba = 14
order_code sbgra = 15
order_code intensity = 16
order_code luminance = 17
order_code depth = 18
order_code depth_stencil = 19

-- `t as _`.
abbrev pub type_code : ChannelType → ℕ
type_code norm_i8 = 0
type_code norm_i16 = 1
type_code norm_u8 = 2
type_code norm_u16 = 3
type_code norm_u24 = 4
type_code unorm_short555 = 5
type_code unorm_short565 = 6
type_code unorm_short101010 = 7
type_code i8 = 8
type_code i16 = 9
type_code i32 = 10
type_code u8 = 11
type_code u16 = 12
type_code u32 = 13
type_code f16_f32 = 14
type_code f32 = 15

-- `ChannelOrderDetail::HOST_CHANNELS`.
abbrev pub host_channels : ChannelOrder → ℕ
host_channels order_a = 1
host_channels order_r = 1
host_channels rx = 1
host_channels rg = 2
host_channels rgx = 2
host_channels ra = 2
host_channels rgb = 3
host_channels rgbx = 3
host_channels rgba = 4
host_channels bgra = 4
host_channels argb = 4
host_channels abgr = 4
host_channels srgb = 3
host_channels srgbx = 3
host_channels srgba = 4
host_channels sbgra = 4
host_channels intensity = 1
host_channels luminance = 1
host_channels depth = 1
host_channels depth_stencil = 2

-- `ChannelOrderDetail::CODEGEN_CHANNELS`.
abbrev pub codegen_channels : ChannelOrder → ℕ
codegen_channels depth = 1
codegen_channels _ = 4

-- The size of `ChannelTypeDetail::MemoryType`.
abbrev pub memory_size : ChannelType → ℕ
memory_size norm_i8 = 1
memory_size norm_i16 = 2
memory_size norm_u8 = 1
memory_size norm_u16 = 2
memory_size norm_u24 = 3
memory_size unorm_short555 = 2
memory_size unorm_short565 = 2
memory_size unorm_short101010 = 4
memory_size i8 = 1
memory_size i16 = 2
memory_size i32 = 4
memory_size u8 = 1
memory_size u16 = 2
memory_size u32 = 4
memory_size f16_f32 = 2
memory_size f32 = 4

pub record Format : Type 0 where
  pub ty : ChannelType
  pub order : ChannelOrder

-- The length of the array `FormatDetail::HostType`, by the table of format.rs.
abbrev pub host_array : ChannelOrder → ℕ
host_array order_a = 1
host_array order_r = 1
host_array rx = 1
host_array rg = 2
host_array rgx = 2
host_array ra = 2
host_array rgb = 3
host_array rgbx = 3
host_array rgba = 4
host_array bgra = 4
host_array argb = 4
host_array abgr = 4
host_array srgb = 3
host_array srgbx = 3
host_array srgba = 4
host_array sbgra = 4
host_array intensity = 1
host_array luminance = 1
host_array depth = 1
host_array depth_stencil = 2

-- `FormatDetail::host_type_size`.
unfoldable pub host_type_size : Format → ℕ
host_type_size f = memory_size f.ty * host_array f.order
