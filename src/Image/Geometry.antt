-- ===== src/Image/Geometry.antt =====
-- hsa-rt/src/ext/image/geometry.rs. The element type of a geometry is an unsigned integer with `m`
-- values; `Shape` has the structs that the macro declares from its table, each with its own index, so
-- that the arithmetic takes two shapes of one kind.
use geobacter.Prelude.{
  ℕ, Bool, true, false, ◌&&◌, ◌||◌, ◌==◌, Option, none, some, List, [], ◌∷◌, u32_mod, checked_sub,
  checked_mul, try_into, ltb,
}
use geobacter.Prelude.Results.{Result, ok, ok_or, ◌>>=◌}
use geobacter.HsaErrors.{HsaError, overflow, underflow}

pub data Kind : Type 0 where
  plain_1d plain_2d plain_3d array_1d array_2d buffer_1d : Kind

pub data Shape : Kind → Type 0 where
  one_d : (width : ℕ) → Shape plain_1d
  two_d : (width height : ℕ) → Shape plain_2d
  three_d : (width height depth : ℕ) → Shape plain_3d
  one_d_array : (width array_size : ℕ) → Shape array_1d
  two_d_array : (width height array_size : ℕ) → Shape array_2d
  one_d_b : (width : ℕ) → Shape buffer_1d

-- `GeometryDetail::width`, `height` and `depth`: the fields by the dimension that the table gives them.
abbrev pub width : {k : Kind} → Shape k → ℕ
width (one_d w) = w
width (two_d w h) = w
width (three_d w h d) = w
width (one_d_array w n) = w
width (two_d_array w h n) = w
width (one_d_b w) = w

abbrev pub height : {k : Kind} → Shape k → Option ℕ
height (one_d w) = none
height (two_d w h) = some h
height (three_d w h d) = some h
height (one_d_array w n) = some n
height (two_d_array w h n) = some h
height (one_d_b w) = none

abbrev pub depth : {k : Kind} → Shape k → Option ℕ
depth (one_d w) = none
depth (two_d w h) = none
depth (three_d w h d) = some d
depth (one_d_array w n) = none
depth (two_d_array w h n) = some n
depth (one_d_b w) = none

abbrev pub unwrap_or : Option ℕ → ℕ → ℕ
unwrap_or none b = b
unwrap_or (some a) b = a

-- `GeometryDetail::len`.
unfoldable pub len : ℕ → {k : Kind} → Shape k → Result HsaError ℕ
len m s = do
  let h = unwrap_or (height s) 1
  let d = unwrap_or (depth s) 1
  a ← ok_or (checked_mul m (width s) h) overflow
  ok_or (checked_mul m a d) overflow

-- The macro's bodies, which treat every field the same way.
abbrev pub all_fields : {k : Kind} → (ℕ → ℕ) → Shape k → Shape k
all_fields f (one_d w) = one_d (f w)
all_fields f (two_d w h) = two_d (f w) (f h)
all_fields f (three_d w h d) = three_d (f w) (f h) (f d)
all_fields f (one_d_array w n) = one_d_array (f w) (f n)
all_fields f (two_d_array w h n) = two_d_array (f w) (f h) (f n)
all_fields f (one_d_b w) = one_d_b (f w)

abbrev pub zip_fields : {k : Kind} → (ℕ → ℕ → ℕ) → Shape k → Shape k → Shape k
zip_fields f (one_d w) (one_d w') = one_d (f w w')
zip_fields f (two_d w h) (two_d w' h') = two_d (f w w') (f h h')
zip_fields f (three_d w h d) (three_d w' h' d') = three_d (f w w') (f h h') (f d d')
zip_fields f (one_d_array w n) (one_d_array w' n') = one_d_array (f w w') (f n n')
zip_fields f (two_d_array w h n) (two_d_array w' h' n') = two_d_array (f w w') (f h h') (f n n')
zip_fields f (one_d_b w) (one_d_b w') = one_d_b (f w w')

-- `?` on an option.
abbrev pub and_then : {A : Type 0} → Option ℕ → (ℕ → Option A) → Option A
and_then none f = none
and_then (some a) f = f a

abbrev pub try_fields : {k : Kind} → (ℕ → ℕ → Option ℕ) → Shape k → Shape k → Option (Shape k)
try_fields f (one_d w) (one_d w') = and_then (f w w') (λ a. some (one_d a))
try_fields f (two_d w h) (two_d w' h') =
    and_then (f w w') (λ a. and_then (f h h') (λ b. some (two_d a b)))
try_fields f (three_d w h d) (three_d w' h' d') =
    and_then (f w w') (λ a. and_then (f h h') (λ b. and_then (f d d') (λ c. some (three_d a b c))))
try_fields f (one_d_array w n) (one_d_array w' n') =
    and_then (f w w') (λ a. and_then (f n n') (λ b. some (one_d_array a b)))
try_fields f (two_d_array w h n) (two_d_array w' h' n') =
    and_then (f w w')
      (λ a. and_then (f h h') (λ b. and_then (f n n') (λ c. some (two_d_array a b c))))
try_fields f (one_d_b w) (one_d_b w') = and_then (f w w') (λ a. some (one_d_b a))

abbrev pub zero_shape : (k : Kind) → Shape k
zero_shape plain_1d = one_d 0
zero_shape plain_2d = two_d 0 0
zero_shape plain_3d = three_d 0 0 0
zero_shape array_1d = one_d_array 0 0
zero_shape array_2d = two_d_array 0 0 0
zero_shape buffer_1d = one_d_b 0

abbrev pub one_shape : (k : Kind) → Shape k
one_shape k = all_fields (λ _. 1) (zero_shape k)

-- The fields in the order of the struct, in which the derived `PartialOrd` compares them.
abbrev pub fields : {k : Kind} → Shape k → List ℕ
fields (one_d w) = w ∷ []
fields (two_d w h) = w ∷ h ∷ []
fields (three_d w h d) = w ∷ h ∷ d ∷ []
fields (one_d_array w n) = w ∷ n ∷ []
fields (two_d_array w h n) = w ∷ h ∷ n ∷ []
fields (one_d_b w) = w ∷ []

abbrev pub is_zero : {k : Kind} → Shape k → Bool
is_zero s = all_zero (fields s)
  where
    all_zero : List ℕ → Bool
    all_zero [] = true
    all_zero (x ∷ xs) = (x == 0) && all_zero xs

abbrev pub lexicographic : List ℕ → List ℕ → Bool
lexicographic [] ys = false
lexicographic (x ∷ xs) [] = false
lexicographic (x ∷ xs) (y ∷ ys) = ltb x y || ((x == y) && lexicographic xs ys)

abbrev pub less : {k : Kind} → Shape k → Shape k → Bool
less s t = lexicographic (fields s) (fields t)

-- `hsa_dim3_t` and `hsa_ext_image_region_t`.
pub record Dim3 : Type 0 where
  pub x : ℕ
  pub y : ℕ
  pub z : ℕ

pub record FfiRegion : Type 0 where
  pub offset : Dim3
  pub range : Dim3

abbrev pub to_u32 : ℕ → Result HsaError ℕ
to_u32 a = ok_or (try_into u32_mod a) overflow

-- `hsa_dim`: the dimensions that the kind has are written over.
unfoldable pub hsa_dim : {k : Kind} → Shape k → Dim3 → Result HsaError Dim3
hsa_dim (one_d w) ffi = do x ← to_u32 w; ok (record ffi { x = x })
hsa_dim (two_d w h) ffi = do x ← to_u32 w; y ← to_u32 h; ok (record ffi { x = x; y = y })
hsa_dim (three_d w h d) ffi = do
  x ← to_u32 w
  y ← to_u32 h
  z ← to_u32 d
  ok (record { x = x; y = y; z = z })
hsa_dim (one_d_array w n) ffi = do x ← to_u32 w; y ← to_u32 n; ok (record ffi { x = x; y = y })
hsa_dim (two_d_array w h n) ffi = do
  x ← to_u32 w
  y ← to_u32 h
  z ← to_u32 n
  ok (record { x = x; y = y; z = z })
hsa_dim (one_d_b w) ffi = do x ← to_u32 w; ok (record ffi { x = x })

pub record Region (k : Kind) : Type 0 where
  pub offset : Shape k
  pub range : Shape k

-- `impl Into<Region<Self>>`.
abbrev pub into_region : {k : Kind} → Shape k → Region k
into_region {k} s = record { offset = zero_shape k; range = s }

-- `Region::len`.
unfoldable pub region_len : {k : Kind} → Region k → Result HsaError (Shape k)
region_len r = ok_or (try_fields checked_sub r.range r.offset) underflow

-- `impl TryInto<hsa_ext_image_region_t>`.
unfoldable pub region_try_into : {k : Kind} → Region k → Result HsaError FfiRegion
unfolding hsa_dim
region_try_into r = do
  offset ← hsa_dim r.offset (record { x = 0; y = 0; z = 0 })
  range ← hsa_dim r.range (record { x = 1; y = 1; z = 1 })
  ok (record { offset = offset; range = range })
