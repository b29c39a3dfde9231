-- ===== src/Grid/Axis.antt =====
-- One axis of a launched grid: which index a workitem gets along it, where the padded axis does not
-- wrap (`grid_id` of runtime-amd/src/module/grid.rs).
use geobacter.Prelude.{
  ℕ, suc, ◌+◌, ◌-◌, ◌*◌, ◌/◌, ◌%◌, ◌≤◌, ◌<◌, ◌≡◌, ap, sym, ◌∙◌, min, u32_mod, u16_mod, mul_mono,
  arith,
}
use native.Mathlib.Nat.{
  mul_comm, add-mul-div_left, div-eq_of_lt, div-add-mod, mod-lt, div-lt_iff_lt-mul, suc-mul,
  add-mul-mod_self_left, mod-eq_of_lt,
}
use geobacter.Prelude.Results.{ok}
use geobacter.Grid.Range.{Range, lower, upper, InWord, axis_end, axis_end_lem}

-- An axis: a range of indices, and the workgroups' length along it.
abbrev pub groups : Range → ℕ → ℕ
groups r w = (upper r - lower r - 1) / w + 1

-- The range is not empty and does not reach the last word, a workgroup has a length, and the last
-- workgroup ends before the words do.
abbrev pub Fits : Range → ℕ → Type 0
Fits r w =
    InWord u32_mod r
    × (lower r < upper r)
    × (upper r < u32_mod)
    × (1 ≤ w)
    × (w < u16_mod)
    × (lower r + groups r w * w ≤ u32_mod)

abbrev pub Inside : Range → ℕ → Type 0
Inside r p = (lower r ≤ p) × (p < upper r)

-- A workitem of a workgroup that was launched.
abbrev pub Launched : Range → ℕ → ℕ → ℕ → Type 0
Launched r w wg wi = (wg < groups r w) × (wi < w)

unfoldable pub axis_id : Range → ℕ → ℕ → ℕ → ℕ
axis_id r w wg wi = ((wg * (w % u32_mod) % u32_mod + wi % u32_mod) % u32_mod + lower r) % u32_mod

pub below_padded : (n w wg wi : ℕ) → wg < n → wi < w → wg * w + wi < n * w
below_padded n w wg wi h k =
    omega (arith, mul_mono (suc wg) w n w (omega arith) (omega arith), suc-mul wg w)

pub axis_id_exact :
    (r : Range) (w wg wi : ℕ)
    → Fits r w
    → Launched r w wg wi
    → axis_id r w wg wi ≡ lower r + (wg * w + wi)
unfolding axis_id
axis_id_exact r w wg wi f l = rw (word) (ground (arith, below_padded (groups r w) w wg wi l.0 l.1))
  where
    word : w % u32_mod ≡ w
    word = mod-eq_of_lt (ground arith)

covered : (r : Range) (w : ℕ) → 1 ≤ w → lower r < upper r → upper r ≤ lower r + groups r w * w
covered r w h k = omega (
  arith,
  div-add-mod (upper r - lower r - 1) w,
  mod-lt (upper r - lower r - 1) {m = w} (omega arith),
  mul_comm w ((upper r - lower r - 1) / w),
  suc-mul ((upper r - lower r - 1) / w) w,
)

-- The last workgroup overlaps the axis.
pub padding_lt : (r : Range) (w : ℕ) → 1 ≤ w → groups r w * w < upper r - lower r - 1 + w + 1
padding_lt r w h = omega (
  arith,
  div-add-mod (upper r - lower r - 1) w,
  mul_comm w ((upper r - lower r - 1) / w),
  suc-mul ((upper r - lower r - 1) / w) w,
)

-- The workgroup and the workitem that get an index.
pub the_group : Range → ℕ → ℕ → ℕ
the_group r w p = (p - lower r) / w

pub the_item : Range → ℕ → ℕ → ℕ
the_item r w p = (p - lower r) % w

pub located :
    (r : Range) (w p : ℕ)
    → Fits r w
    → Inside r p
    → Launched r w (the_group r w p) (the_item r w p)
      × (lower r + (the_group r w p * w + the_item r w p) ≡ p)
unfolding the_group the_item
located r w p f i = (
  ((div-lt_iff_lt-mul (f.3)).1 (ground (arith, covered r w)), mod-lt _ (f.3)),
  ground (arith, div-add-mod (p - lower r) w, mul_comm w ((p - lower r) / w)),
)

-- A number has one quotient and one remainder.
pub split_once : (w n q r : ℕ) → r < w → q * w + r ≡ n → (q ≡ n / w) × (r ≡ n % w)
split_once w n q r h e = (
  rw (sym whole) (omega (arith, add-mul-div_left r q {y = w} (omega arith), div-eq_of_lt h)),
  rw (sym whole) (omega (arith, add-mul-mod_self_left r w q, mod-eq_of_lt h)),
)
  where
    whole : r + w * q ≡ n
    whole = omega (arith, mul_comm w q)

pub located_once :
    (r : Range) (w p wg wi : ℕ)
    → wi < w
    → lower r + (wg * w + wi) ≡ p
    → (wg ≡ the_group r w p) × (wi ≡ the_item r w p)
unfolding the_group the_item
located_once r w p wg wi h e = split_once w (p - lower r) wg wi h (omega arith)

pub axis_end-exact : (r : Range) (w : ℕ) → Fits r w → axis_end u32_mod r ≡ ok (upper r)
axis_end-exact r w f = axis_end_lem u32_mod r f.0 ∙ ap (λ t. ok t) word
  where
    word : min (upper r) (u32_mod - 1) ≡ upper r
    word = ground arith
