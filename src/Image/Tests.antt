-- ===== src/Image/Tests.antt =====
-- An image of 4 by 3 pixels of 4 bytes, one of 4 by 3 by 5, and their copies.
use geobacter.Prelude.{◌+◌, ◌*◌, ◌≤◌, ◌≡◌, refl, some, arith}
use geobacter.Prelude.Results.{ok, err}
use geobacter.HsaErrors.{from_status, invalid_argument, status_success, HsaStatus}
use geobacter.Image.Geometry.{
  array_2d, two_d, two_d_array, into_region, region_len, hsa_dim, region_try_into,
}
use geobacter.Image.Format.{depth, rgba, f32, u8, host_type_size}
use geobacter.Image.Descriptor.{ImageAbi, FfiDescriptor, set_ffi, capability_geometry}
use geobacter.Image.Copies.{packed, check_slice, strides, pitches, copy_raw, CopyCall}
use geobacter.Image.Roundtrip.{
  IsImageAbi, described, described_order, described_type, set_ffi-described,
}
use geobacter.Image.Sizes.{pixels_in_slice}

abbrev abi : ImageAbi
abi = record {
  geometry_1d = 0;
  geometry_2d = 1;
  geometry_3d = 2;
  geometry_1da = 3;
  geometry_2da = 4;
  geometry_1db = 5;
  geometry_2ddepth = 6;
  geometry_2dadepth = 7;
}

abi-IsImageAbi : IsImageAbi abi
abi-IsImageAbi = record {
  geometry_1d_eq = refl;
  geometry_2d_eq = refl;
  geometry_3d_eq = refl;
  geometry_1da_eq = refl;
  geometry_2da_eq = refl;
  geometry_1db_eq = refl;
  geometry_2ddepth_eq = refl;
  geometry_2dadepth_eq = refl;
}

abbrev used : FfiDescriptor
used = record {
  geometry = 9;
  width = 9;
  height = 9;
  depth = 9;
  array_size = 9;
  channel_type = 9;
  channel_order = 9;
}

-- A depth texture array, whose geometry has a code of its own.
set_ffi-described_example :
    (ffi' : FfiDescriptor) × (set_ffi abi
        (two_d_array 4 3 5)
        (record { ty = f32; order = depth })
        used
      ≡ ok ffi')
    × (described ffi' ≡ some (array_2d, two_d_array 4 3 5))
    × (described_order ffi' ≡ some depth)
    × (described_type ffi' ≡ some f32)
    × (ffi'.geometry ≡ capability_geometry abi array_2d depth)
set_ffi-described_example =
    set_ffi-described abi (two_d_array 4 3 5) (record { ty = f32; order = depth }) used
      abi-IsImageAbi (omega arith, (omega arith, (omega arith, tt)))

pixels_in_slice_example : 2 * 16 + 3 * 4 + 4 ≤ 12 * 4
unfolding check_slice region_len strides pitches
pixels_in_slice_example =
    pixels_in_slice 4 12 (two_d 4 3) packed (into_region (two_d 4 3)) {slice_pitch = 12} 3 2 refl
      refl refl (omega arith) (omega arith) (omega arith)

-- The derived order looks at the height only where the widths are the same: a region that is higher
-- than the image passes.
taller_test : check_slice 4 300 (two_d 4 3) packed (into_region (two_d 3 100)) ≡ ok (12, 400)
unfolding check_slice region_len strides pitches
taller_test = refl

abbrev accepts : CopyCall → HsaStatus
accepts call = status_success

-- A host type of another size than the format's is refused, and so is a slice that is too short.
copy_tests :
    (copy_raw accepts
        (host_type_size (record { ty = u8; order = rgba }))
        1
        48
        (two_d 4 3)
        packed
        (into_region (two_d 4 3))
      ≡ err invalid_argument)
    × (copy_raw accepts
          (host_type_size (record { ty = u8; order = rgba }))
          4
          11
          (two_d 4 3)
          packed
          (into_region (two_d 4 3))
        ≡ err invalid_argument)
    × (copy_raw accepts
          (host_type_size (record { ty = u8; order = rgba }))
          4
          12
          (two_d 4 3)
          packed
          (into_region (two_d 4 3))
        ≡ ok tt)
unfolding copy_raw host_type_size check_slice region_len strides pitches region_try_into hsa_dim
    from_status
copy_tests = (refl, refl, refl)
