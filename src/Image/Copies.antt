-- ===== src/Image/Copies.antt =====
-- What is checked before data is copied between an image and a slice of the host: `Linear::strides`
-- of hsa-rt/src/ext/image/layout.rs, `check_slice`, `import_raw` and `export_raw` of mod.rs.
use geobacter.Prelude.{
  ℕ, Bool, true, false, not, Option, none, some, usize_mod, ltb, ◌==◌, checked_mul,
}
use geobacter.Prelude.Results.{Result, ok, err, ok_or, ◌>>=◌, ◌>>◌}
use geobacter.HsaErrors.{HsaError, overflow, invalid_argument, HsaStatus, from_status}
use geobacter.Image.Geometry.{
  Kind, Shape, width, height, unwrap_or, less, Region, region_len, FfiRegion, region_try_into,
}
use geobacter.Image.Descriptor.{to_usize}

-- `Linear`.
pub record Linear : Type 0 where
  pub row_pitch : Option ℕ
  pub slice_pitch : Option ℕ

-- `Linear::default`.
abbrev pub packed : Linear
packed = record { row_pitch = none; slice_pitch = none }

abbrev pub slice_stride : {k : Kind} → Option ℕ → Shape k → Result HsaError ℕ
slice_stride (some p) len = ok p
slice_stride none len = to_usize (unwrap_or (height len) 1)

-- `Linear::strides`.
unfoldable pub strides : {k : Kind} → Linear → Region k → Result HsaError (ℕ × ℕ)
unfolding region_len
strides l r = do
  len ← region_len r
  w ← to_usize (width len)
  s ← slice_stride l.slice_pitch len
  ok (unwrap_or l.row_pitch w, s)

-- `return Err(Error::InvalidArgument)` under a test.
abbrev pub refuse_if : Bool → Result HsaError (Unit {0})
refuse_if true = err invalid_argument
refuse_if false = ok tt

-- The part of `check_slice` behind the strides.
unfoldable pub pitches : ℕ → ℕ → ℕ → ℕ → Result HsaError (ℕ × ℕ)
pitches elem_size slice_len row_stride slice_stride = do
  total ← ok_or (checked_mul usize_mod row_stride slice_stride) overflow
  refuse_if (ltb slice_len total)
  row_pitch ← ok_or (checked_mul usize_mod elem_size row_stride) overflow
  slice_pitch ← ok_or (checked_mul usize_mod elem_size slice_stride) overflow
  ok (row_pitch, slice_pitch)

-- `check_slice`: the slice has `slice_len` elements of `elem_size` bytes.
unfoldable pub check_slice :
    {k : Kind} → ℕ → ℕ → Shape k → Linear → Region k → Result HsaError (ℕ × ℕ)
unfolding region_len strides pitches
check_slice elem_size slice_len g l r = do
  len ← region_len r
  refuse_if (less g len)
  st ← strides l r
  pitches elem_size slice_len st.0 st.1

-- What `hsa_ext_image_import` and `hsa_ext_image_export` are called with, besides the handles and the
-- pointer.
pub record CopyCall : Type 0 where
  pub row_pitch : ℕ
  pub slice_pitch : ℕ
  pub region : FfiRegion

-- `import_raw` and `export_raw`, which differ in the function of the HSA library that they call.
module _ (hsa_copy : CopyCall → HsaStatus) where
  unfoldable pub copy_raw :
      {k : Kind} → ℕ → ℕ → ℕ → Shape k → Linear → Region k → Result HsaError (Unit {0})
  unfolding check_slice region_try_into from_status
  copy_raw host_size elem_size slice_len g l r = do
    refuse_if (not (host_size == elem_size))
    found ← check_slice elem_size slice_len g l r
    region ← region_try_into r
    from_status (hsa_copy (record { row_pitch = found.0; slice_pitch = found.1; region = region }))
