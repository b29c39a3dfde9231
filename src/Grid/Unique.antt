-- ===== src/Grid/Unique.antt =====
-- The linear id of a workitem (`glid`, `global_linear_id` of runtime-amd/src/module/grid.rs).
use geobacter.Prelude.{
  ℕ, ◌+◌, ◌*◌, ◌%◌, ◌/◌, ◌≤◌, ◌<◌, ◌≡◌, refl, ap, sym, ◌∙◌, false, u32_mod, mul_mono, arith,
}
use native.Mathlib.Nat.{mod-eq_of_lt}
use geobacter.Prelude.Results.{ok, ok-injective}
use geobacter.Grid.Dims.{Dim3D, Dim3D-eq, dim3d}
use geobacter.Grid.Range.{Range, upper}
use geobacter.Grid.Indices.{grid_id, grid_oob, global_linear_id, end}
use geobacter.Grid.Axis.{below_padded, split_once, axis_end-exact}
use geobacter.Grid.Coverage.{
  ranges_to, FitsGrid, InsideGrid, LaunchedItem, grid_oob_lem, grid_id_covers,
}

abbrev Below : Dim3D ℕ → Dim3D ℕ → Type 0
Below p e = (p.x < e.x) × (p.y < e.y) × (p.z < e.z)

row_major : Dim3D ℕ → Dim3D ℕ → ℕ
row_major p e = (p.z * e.y + p.y) * e.x + p.x

row_major-lt : (p e : Dim3D ℕ) → Below p e → row_major p e < e.z * e.y * e.x
unfolding row_major
row_major-lt p e h =
    below_padded (e.z * e.y) e.x (p.z * e.y + p.y) p.x (below_padded e.z e.y p.z p.y h.2 h.1) h.0

glid-row_major :
    (p e : Dim3D ℕ) → Below p e → e.z * e.y * e.x ≤ u32_mod → dim3d.glid u32_mod p e ≡ row_major p e
unfolding dim3d row_major
glid-row_major p e h k =
    rw (mod-eq_of_lt {n = p.z * e.y} {m = u32_mod} (omega (arith, planes, rows, room)), inner)
      (rw (mod-eq_of_lt {n = (p.z * e.y + p.y) * e.x} {m = u32_mod} (omega (arith, rows)))
        (mod-eq_of_lt (omega (arith, rows))))
  where
    planes : p.z * e.y + p.y < e.z * e.y
    planes = below_padded e.z e.y p.z p.y h.2 h.1

    rows : row_major p e < e.z * e.y * e.x
    rows = row_major-lt p e h

    room : e.z * e.y * 1 ≤ e.z * e.y * e.x
    room = mul_mono (e.z * e.y) 1 (e.z * e.y) e.x (omega arith) (ground arith)

    inner : (p.z * e.y + p.y) % u32_mod ≡ p.z * e.y + p.y
    inner = mod-eq_of_lt (omega (arith, planes, rows, room))

row_major_once : (p q e : Dim3D ℕ) → Below p e → Below q e → row_major p e ≡ row_major q e → p ≡ q
unfolding row_major
row_major_once p q e h k eq =
    Dim3D-eq (outer_p.1 ∙ sym outer_q.1) (inner_p.1 ∙ sym inner_q.1) (inner_p.0 ∙ sym inner_q.0)
  where
    n : ℕ
    n = row_major q e

    outer_p : (p.z * e.y + p.y ≡ n / e.x) × (p.x ≡ n % e.x)
    outer_p = split_once e.x n (p.z * e.y + p.y) p.x h.0 eq

    outer_q : (q.z * e.y + q.y ≡ n / e.x) × (q.x ≡ n % e.x)
    outer_q = split_once e.x n (q.z * e.y + q.y) q.x k.0 refl

    inner_p : (p.z ≡ n / e.x / e.y) × (p.y ≡ n / e.x % e.y)
    inner_p = split_once e.y (n / e.x) p.z p.y h.1 outer_p.0

    inner_q : (q.z ≡ n / e.x / e.y) × (q.y ≡ n / e.x % e.y)
    inner_q = split_once e.y (n / e.x) q.z q.y k.1 outer_q.0

-- The ends of the axes.
uppers : Dim3D Range → Dim3D ℕ
uppers g = dim3d.each upper g

global_linear_id-row_major :
    (g : Dim3D Range) (w wg wi p : Dim3D ℕ)
    → FitsGrid g w
    → InsideGrid g p
    → upper g.z * upper g.y * upper g.x ≤ u32_mod
    → grid_id dim3d g (ranges_to w) wg wi ≡ ok p
    → global_linear_id dim3d g (ranges_to w) wg wi ≡ ok (row_major p (uppers g))
unfolding global_linear_id end dim3d uppers
global_linear_id-row_major g w wg wi p f i small e =
    rw (e, axis_end-exact g.x w.x f.0, axis_end-exact g.y w.y f.1, axis_end-exact g.z w.z f.2)
      (ap (λ t. ok t) (glid-row_major p (uppers g) (i.0.1, i.1.1, i.2.1) small))

in_bounds :
    (g : Dim3D Range) (w wg wi : Dim3D ℕ)
    → FitsGrid g w
    → LaunchedItem g w wg wi
    → grid_oob dim3d g (ranges_to w) wg wi ≡ ok false
    → (p : Dim3D ℕ) × (grid_id dim3d g (ranges_to w) wg wi ≡ ok p) × InsideGrid g p
in_bounds g w wg wi f l b =
    let (p, c, id, oob, iff) = grid_oob_lem g w wg wi f l in
    (p, id, iff.0 (ok-injective (sym oob ∙ b)))

same_item :
    (g : Dim3D Range) (w wg wi wg' wi' p : Dim3D ℕ)
    → FitsGrid g w
    → InsideGrid g p
    → LaunchedItem g w wg wi
    → LaunchedItem g w wg' wi'
    → grid_id dim3d g (ranges_to w) wg wi ≡ ok p
    → grid_id dim3d g (ranges_to w) wg' wi' ≡ ok p
    → (wg ≡ wg') × (wi ≡ wi')
same_item g w wg wi wg' wi' p f i l l' e e' =
    let (_, _, _, _, _, only) = grid_id_covers g w p f i in
    let here = only wg wi l e in
    let there = only wg' wi' l' e' in (here.0 ∙ sym there.0, here.1 ∙ sym there.1)

-- Two workitems of the launched workgroups that are in bounds have different linear ids, which are
-- below the product of the axes' ends, where a word holds that product.
pub global_linear_id_unique :
    (g : Dim3D Range) (w wg wi wg' wi' : Dim3D ℕ)
    → FitsGrid g w
    → upper g.z * upper g.y * upper g.x ≤ u32_mod
    → LaunchedItem g w wg wi
    → LaunchedItem g w wg' wi'
    → grid_oob dim3d g (ranges_to w) wg wi ≡ ok false
    → grid_oob dim3d g (ranges_to w) wg' wi' ≡ ok false
    → (n : ℕ) × (n < upper g.z * upper g.y * upper g.x)
      × (global_linear_id dim3d g (ranges_to w) wg wi ≡ ok n)
      × (global_linear_id dim3d g (ranges_to w) wg' wi' ≡ ok n → (wg ≡ wg') × (wi ≡ wi'))
unfolding uppers dim3d
global_linear_id_unique g w wg wi wg' wi' f small l l' b b' =
    let (p, id, inside) = in_bounds g w wg wi f l b in
    let (q, id', inside') = in_bounds g w wg' wi' f l' b' in
    let n = row_major p (uppers g) in
    (
      n,
      row_major-lt p (uppers g) (inside.0.1, inside.1.1, inside.2.1),
      global_linear_id-row_major g w wg wi p f inside small id,
      λ e.
          let q_is_p =
            row_major_once q p (uppers g) (inside'.0.1, inside'.1.1, inside'.2.1)
              (inside.0.1, inside.1.1, inside.2.1)
              (ok-injective
                (sym (global_linear_id-row_major g w wg' wi' q f inside' small id') ∙ e)) in
          same_item g w wg wi wg' wi' p f inside l l' id (id' ∙ ap (λ t. ok t) q_is_p),
    )
