-- ===== src/Grid/Linear.antt =====
-- Linear lengths and linear ids of runtime-amd/src/module/grid.rs: `checked_linear_len`, `linear_len`
-- and `glid`.
use geobacter.Prelude.{
  ℕ, ◌-◌, ◌*◌, ◌%◌, ◌≤◌, ◌<◌, ◌≡◌, refl, ap, sym, ◌∙◌, List, [], ◌∷◌, All, All-map, map, some,
  u32_mod, mul_mono, arith, wrapping_mul, dec_lt, checked_mul-fits, checked_mul-overflows,
  mod-mul_left,
}
use native.Mathlib.Nat.{mod-lt, mul_assoc, mul-one, one-mul}
use geobacter.Prelude.Results.{ok, err}
use geobacter.Errors.{failed, overflow}
use geobacter.Grid.Dims.{dim3d, Fields}
use geobacter.Grid.Range.{
  Range, lower, upper, InWord, Ordered, axis_checked_len, axis_checked_len_lem,
}
use geobacter.Grid.Indices.{
  checked_linear_len, product_from, linear_len, checked_len, wrapping_product, product_of_len,
}

abbrev pub product : List ℕ → ℕ
product [] = 1
product (x ∷ xs) = x * product xs

product_pos : (xs : List ℕ) → All (λ x. 1 ≤ x) xs → 1 ≤ product xs
product_pos [] h = omega arith
product_pos (x ∷ xs) h = mul_mono 1 1 x (product xs) h.0 (product_pos xs h.1)

product_from_fits :
    (m acc : ℕ) (xs : List ℕ)
    → All (λ x. 1 ≤ x) xs
    → acc * product xs < m
    → product_from m acc xs ≡ ok (acc * product xs)
unfolding product_from
product_from_fits m acc [] h k = ap (λ t. ok t) (sym (mul-one acc))
product_from_fits m acc (x ∷ xs) h k =
    rw (checked_mul-fits m acc x (omega (arith, acc_le, split)))
      (product_from_fits m (acc * x) xs h.1 (omega (arith, split)) ∙ ap (λ t. ok t) split)
  where
    split : acc * x * product xs ≡ acc * (x * product xs)
    split = mul_assoc acc x (product xs)

    acc_le : acc * x * 1 ≤ acc * x * product xs
    acc_le = mul_mono (acc * x) 1 (acc * x) (product xs) (omega arith) (product_pos xs h.1)

product_from_overflows :
    (m acc : ℕ) (xs : List ℕ)
    → All (λ x. 1 ≤ x) xs
    → acc < m
    → m ≤ acc * product xs
    → product_from m acc xs ≡ err (failed overflow)
unfolding product_from
product_from_overflows m acc [] h j k = absurd (omega arith)
product_from_overflows m acc (x ∷ xs) h j k = elim (dec_lt (acc * x) m) [
  | yes fits ↦
      rw (checked_mul-fits m acc x fits) (
        product_from_overflows m (acc * x) xs h.1 fits
          (omega (arith, mul_assoc acc x (product xs))))
  | no past ↦ rw (checked_mul-overflows m acc x (omega arith)) refl
]

-- `checked_linear_len` on a grid with no empty axis: the product of the lengths where a word holds
-- it, and an overflow otherwise.
pub checked_linear_len_lem :
    {D : Type 0 → Type 0} (F : Fields D) (m : ℕ) (d : D ℕ)
    → 1 < m
    → All (λ x. 1 ≤ x) (F.values d)
    → (product (F.values d) < m → checked_linear_len F m d ≡ ok (product (F.values d)))
      × (m ≤ product (F.values d) → checked_linear_len F m d ≡ err (failed overflow))
unfolding checked_linear_len
checked_linear_len_lem F m d one h = (
  λ fits.
      product_from_fits m 1 (F.values d) h (rw (one-mul (product (F.values d))) fits)
      ∙ ap (λ t. ok t) (one-mul _),
  λ over. product_from_overflows m 1 (F.values d) h one (rw (one-mul (product (F.values d))) over),
)

wrapping_product_lem :
    (acc : ℕ) (xs : List ℕ) → acc < u32_mod → wrapping_product acc xs ≡ acc * product xs % u32_mod
unfolding wrapping_product
wrapping_product_lem acc [] h = ground arith
wrapping_product_lem acc (x ∷ xs) h =
    wrapping_product_lem (wrapping_mul u32_mod acc x) xs (mod-lt _ (omega arith))
    ∙ mod-mul_left u32_mod (acc * x) (product xs)
    ∙ ap (λ t. t % u32_mod) (mul_assoc acc x (product xs))

-- `linear_len` of ranges whose lengths each fit a word: the product of the lengths modulo `2^32`.
pub linear_len_lem :
    {D : Type 0 → Type 0} (F : Fields D) (g : D Range)
    → All (λ r. InWord u32_mod r × Ordered r × (upper r - lower r < u32_mod)) (F.values g)
    → linear_len F g ≡ ok (some (product (map (λ r. upper r - lower r) (F.values g)) % u32_mod))
unfolding linear_len checked_len product_of_len
linear_len_lem F g h =
    rw (F.try_each_ok (axis_checked_len u32_mod) (λ r. upper r - lower r) g lens) (
      ap (λ t. ok (some t))
        (wrapping_product_lem 1 _ (omega arith)
          ∙ ap (λ t. t % u32_mod) (one-mul _)
          ∙ ap (λ t. product t % u32_mod) (F.values-each (λ r. upper r - lower r) g)))
  where
    lens : All (λ r. axis_checked_len u32_mod r ≡ ok (upper r - lower r)) (F.values g)
    lens = All-map (F.values g) (λ r k. (axis_checked_len_lem u32_mod r k.0).0 k.1 k.2) h
