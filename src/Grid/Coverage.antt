-- ===== src/Grid/Coverage.antt =====
-- Which index a workitem of a launched grid gets (`grid_id`, `grid_oob` of
-- runtime-amd/src/module/grid.rs), where the padded grid does not wrap.
use geobacter.Prelude.{
  ℕ, ◌+◌, ◌*◌, ◌≡◌, refl, ap, sym, ◌∙◌, subst, leb, Bool, false, ◌||◌, ◌↔◌, u16_mod, arith,
}
use geobacter.Prelude.Results.{ok, ok-injective}
use geobacter.Grid.Dims.{Dim3D, Dim3D-eq, dim3d}
use geobacter.Grid.Range.{Range, range_to, lower, upper, axis_start_lem, axis_len-range_to}
use geobacter.Grid.Ops.{dim_add, dim_mul}
use geobacter.Grid.Indices.{grid_id, grid_oob, workgroup_idx, len, start, end, as_}
use geobacter.Grid.Axis.{
  Fits, Inside, Launched, axis_id, axis_id_exact, the_group, the_item, located, located_once,
  axis_end-exact,
}

-- The workgroups' dimensions, `..w` on each axis.
abbrev pub ranges_to : Dim3D ℕ → Dim3D Range
ranges_to w = dim3d.each range_to w

abbrev pub FitsGrid : Dim3D Range → Dim3D ℕ → Type 0
FitsGrid g w = Fits g.x w.x × Fits g.y w.y × Fits g.z w.z

abbrev pub InsideGrid : Dim3D Range → Dim3D ℕ → Type 0
InsideGrid g p = Inside g.x p.x × Inside g.y p.y × Inside g.z p.z

abbrev pub LaunchedItem : Dim3D Range → Dim3D ℕ → Dim3D ℕ → Dim3D ℕ → Type 0
LaunchedItem g w wg wi =
    Launched g.x w.x wg.x wi.x × Launched g.y w.y wg.y wi.y × Launched g.z w.z wg.z wi.z

-- The index of a workitem without a word's limits.
position : Dim3D Range → Dim3D ℕ → Dim3D ℕ → Dim3D ℕ → Dim3D ℕ
position g w wg wi = record {
  x = lower g.x + (wg.x * w.x + wi.x);
  y = lower g.y + (wg.y * w.y + wi.y);
  z = lower g.z + (wg.z * w.z + wi.z);
}

grid_id-position :
    (g : Dim3D Range) (w wg wi : Dim3D ℕ)
    → FitsGrid g w
    → LaunchedItem g w wg wi
    → grid_id dim3d g (ranges_to w) wg wi ≡ ok (position g w wg wi)
unfolding grid_id workgroup_idx dim_add dim_mul len start as_ dim3d axis_id position
grid_id-position g w wg wi f l = rw (
  axis_len-range_to u16_mod w.x,
  axis_len-range_to u16_mod w.y,
  axis_len-range_to u16_mod w.z,
  axis_start_lem g.x,
  axis_start_lem g.y,
  axis_start_lem g.z,
  ← axis_id_exact g.x w.x wg.x wi.x f.0 l.0,
  ← axis_id_exact g.y w.y wg.y wi.y f.1 l.1,
  ← axis_id_exact g.z w.z wg.z wi.z f.2 l.2,
)

past : Dim3D Range → Dim3D ℕ → Bool
past g p = leb (upper g.x) p.x || leb (upper g.y) p.y || leb (upper g.z) p.z

grid_oob-past :
    (g : Dim3D Range) (w wg wi : Dim3D ℕ)
    → FitsGrid g w
    → LaunchedItem g w wg wi
    → grid_oob dim3d g (ranges_to w) wg wi ≡ ok (past g (position g w wg wi))
unfolding grid_oob end dim3d past
grid_oob-past g w wg wi f l = rw (
  grid_id-position g w wg wi f l,
  axis_end-exact g.x w.x f.0,
  axis_end-exact g.y w.y f.1,
  axis_end-exact g.z w.z f.2,
)

past_iff :
    (g : Dim3D Range) (w wg wi : Dim3D ℕ)
    → (past g (position g w wg wi) ≡ false) ↔ InsideGrid g (position g w wg wi)
unfolding past position
past_iff g w wg wi = ground arith

-- In bounds are exactly the workitems whose index is in the grid: with ranges that are not empty and
-- do not reach the last word, and a padded grid that ends before the words do, `grid_id` and
-- `grid_oob` return for every workitem of the launched workgroups, and `grid_oob` is false just when
-- the index is in the grid.
pub grid_oob_lem :
    (g : Dim3D Range) (w wg wi : Dim3D ℕ)
    → FitsGrid g w
    → LaunchedItem g w wg wi
    → (p : Dim3D ℕ) × (b : Bool) × (grid_id dim3d g (ranges_to w) wg wi ≡ ok p)
      × (grid_oob dim3d g (ranges_to w) wg wi ≡ ok b)
      × ((b ≡ false) ↔ InsideGrid g p)
grid_oob_lem g w wg wi f l = (
  position g w wg wi,
  past g (position g w wg wi),
  grid_id-position g w wg wi f l,
  grid_oob-past g w wg wi f l,
  past_iff g w wg wi,
)

-- Every index of the grid belongs to exactly one workitem of the launched workgroups, and that one is
-- in bounds: with ranges that are not empty and do not reach the last word, and a padded grid that
-- ends before the words do.
pub grid_id_covers :
    (g : Dim3D Range) (w p : Dim3D ℕ)
    → FitsGrid g w
    → InsideGrid g p
    → (wg : Dim3D ℕ) × (wi : Dim3D ℕ) × LaunchedItem g w wg wi
      × (grid_id dim3d g (ranges_to w) wg wi ≡ ok p)
      × (grid_oob dim3d g (ranges_to w) wg wi ≡ ok false)
      × ((wg' wi' : Dim3D ℕ)
          → LaunchedItem g w wg' wi'
          → grid_id dim3d g (ranges_to w) wg' wi' ≡ ok p
          → (wg' ≡ wg) × (wi' ≡ wi))
unfolding position
grid_id_covers g w p f i = (
  wg,
  wi,
  launched,
  grid_id-position g w wg wi f launched ∙ ap (λ t. ok t) at_p,
  grid_oob-past g w wg wi f launched
      ∙ ap (λ t. ok t) ((past_iff g w wg wi).1 (subst (λ t. InsideGrid g t) (sym at_p) i)),
  λ wg' wi' l e. only wg' wi' l (ok-injective (sym (grid_id-position g w wg' wi' f l) ∙ e)),
)
  where
    wg : Dim3D ℕ
    wg = record { x = the_group g.x w.x p.x; y = the_group g.y w.y p.y; z = the_group g.z w.z p.z }

    wi : Dim3D ℕ
    wi = record { x = the_item g.x w.x p.x; y = the_item g.y w.y p.y; z = the_item g.z w.z p.z }

    at_x : Launched g.x w.x wg.x wi.x × (lower g.x + (wg.x * w.x + wi.x) ≡ p.x)
    at_x = located g.x w.x p.x f.0 i.0

    at_y : Launched g.y w.y wg.y wi.y × (lower g.y + (wg.y * w.y + wi.y) ≡ p.y)
    at_y = located g.y w.y p.y f.1 i.1

    at_z : Launched g.z w.z wg.z wi.z × (lower g.z + (wg.z * w.z + wi.z) ≡ p.z)
    at_z = located g.z w.z p.z f.2 i.2

    launched : LaunchedItem g w wg wi
    launched = (at_x.0, at_y.0, at_z.0)

    at_p : position g w wg wi ≡ p
    at_p = rw (at_x.1, at_y.1, at_z.1) refl

    only :
        (wg' wi' : Dim3D ℕ)
        → LaunchedItem g w wg' wi'
        → position g w wg' wi' ≡ p
        → (wg' ≡ wg) × (wi' ≡ wi)
    only wg' wi' l e =
        (Dim3D-eq (once_x.0) (once_y.0) (once_z.0), Dim3D-eq (once_x.1) (once_y.1) (once_z.1))
      where
        once_x : (wg'.x ≡ wg.x) × (wi'.x ≡ wi.x)
        once_x = located_once g.x w.x p.x wg'.x wi'.x (l.0.1) (ap (λ t. t.x) e)

        once_y : (wg'.y ≡ wg.y) × (wi'.y ≡ wi.y)
        once_y = located_once g.y w.y p.y wg'.y wi'.y (l.1.1) (ap (λ t. t.y) e)

        once_z : (wg'.z ≡ wg.z) × (wi'.z ≡ wi.z)
        once_z = located_once g.z w.z p.z wg'.z wi'.z (l.2.1) (ap (λ t. t.z) e)
