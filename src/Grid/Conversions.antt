-- ===== src/Grid/Conversions.antt =====
-- The conversions of runtime-amd/src/module/grid.rs: from one value, from and to the geometries of
-- textures, between the range types' elements, and the transposition.
use geobacter.Prelude.{ℕ, ◌%◌, ◌≡◌, refl}
use geobacter.Grid.Dims.{Dim1D, Dim2D, Dim3D, Fields, dim1d, dim2d, dim3d}

pub record OneD (T : Type 0) : Type 0 where
  pub width : T

pub record TwoD (T : Type 0) : Type 0 where
  pub width : T
  pub height : T

pub record ThreeD (T : Type 0) : Type 0 where
  pub width : T
  pub height : T
  pub depth : T

-- `From<T>`: the value on every axis.
unfoldable pub from_value : {D : Type 0 → Type 0} {T : Type 0} → Fields D → T → D T
from_value F v = F.same v

unfoldable pub transpose : {D : Type 0 → Type 0} {T : Type 0} → Fields D → D T → D T
transpose F d = F.transpose d

-- `range_to_as` on the ends of the ranges, between unsigned words.
unfoldable pub range_to_as : {D : Type 0 → Type 0} → Fields D → ℕ → D ℕ → D ℕ
range_to_as F m ends = F.each (λ a. a % m) ends

-- `One::one` and `Zero::zero`.
unfoldable pub dim_one : {D : Type 0 → Type 0} → Fields D → D ℕ
dim_one F = F.same 1

unfoldable pub dim_zero : {D : Type 0 → Type 0} → Fields D → D ℕ
dim_zero F = F.same 0

module _ {T : Type 0} where
  unfoldable pub into_one_d : Dim1D T → OneD T
  into_one_d d = record { width = d.x }

  unfoldable pub into_two_d : Dim2D T → TwoD T
  into_two_d d = record { width = d.x; height = d.y }

  unfoldable pub into_three_d : Dim3D T → ThreeD T
  into_three_d d = record { width = d.x; height = d.y; depth = d.z }

  unfoldable pub from_one_d : OneD T → Dim1D T
  from_one_d v = record { x = v.width }

  unfoldable pub from_two_d : TwoD T → Dim2D T
  from_two_d v = record { x = v.width; y = v.height }

  unfoldable pub from_three_d : ThreeD T → Dim3D T
  from_three_d v = record { x = v.width; y = v.height; z = v.depth }

  -- The conversions between dimensions and texture geometries are inverse to each other, in one, two
  -- and three dimensions.
  pub geometry_round_trip :
      ((d : Dim1D T) → from_one_d (into_one_d d) ≡ d)
      × ((v : OneD T) → into_one_d (from_one_d v) ≡ v)
      × ((d : Dim2D T) → from_two_d (into_two_d d) ≡ d)
      × ((v : TwoD T) → into_two_d (from_two_d v) ≡ v)
      × ((d : Dim3D T) → from_three_d (into_three_d d) ≡ d)
      × ((v : ThreeD T) → into_three_d (from_three_d v) ≡ v)
  unfolding into_one_d into_two_d into_three_d from_one_d from_two_d from_three_d
  geometry_round_trip = (λ d. refl, λ v. refl, λ d. refl, λ v. refl, λ d. refl, λ v. refl)

  -- Transposing twice changes nothing.
  pub transpose_twice :
      ((d : Dim2D T) → transpose dim2d (transpose dim2d d) ≡ d)
      × ((d : Dim3D T) → transpose dim3d (transpose dim3d d) ≡ d)
  unfolding transpose dim2d dim3d
  transpose_twice = (λ d. refl, λ d. refl)
