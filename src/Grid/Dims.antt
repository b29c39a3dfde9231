-- ===== src/Grid/Dims.antt =====
-- `Dim1D`, `Dim2D` and `Dim3D` of runtime-amd/src/module/grid.rs. The file's macros write the same
-- body for each of the three, field by field: here such a body is one definition over the interface
-- `Fields`, which each of the three fills.
use geobacter.Prelude.{ℕ, ◌≡◌, refl, List, [], ◌∷◌, map, All, Option, none, some, ◌+◌, ◌*◌, ◌%◌}
use geobacter.Prelude.Results.{Result, ok, ◌>>=◌}
use geobacter.Errors.{Stop}

pub record Dim1D (T : Type 0) : Type 0 where
  pub x : T

pub record Dim2D (T : Type 0) : Type 0 where
  pub x : T
  pub y : T

pub record Dim3D (T : Type 0) : Type 0 where
  pub x : T
  pub y : T
  pub z : T

pub Dim3D-eq : {T : Type 0} {d e : Dim3D T} → d.x ≡ e.x → d.y ≡ e.y → d.z ≡ e.z → d ≡ e
Dim3D-eq h k l = λ i. record { x = h i; y = k i; z = l i }

-- `Some($gty { $($field: e?,)* })`.
abbrev all_some2 : {A : Type 0} → Option A → Option A → Option (Dim2D A)
all_some2 (some a) (some b) = some (record { x = a; y = b })
all_some2 none b = none
all_some2 (some a) none = none

abbrev all_some3 : {A : Type 0} → Option A → Option A → Option A → Option (Dim3D A)
all_some3 (some a) (some b) (some c) = some (record { x = a; y = b; z = c })
all_some3 none b c = none
all_some3 (some a) none c = none
all_some3 (some a) (some b) none = none

-- What the macros do with the fields: one expression for every field, the same with `?` inside, all
-- the fields in order; with the methods that each type has for itself. The laws are those that the
-- lemmas on the macros' bodies need.
pub record Fields (D : Type 0 → Type 0) : Type 1 where
  pub same : {A : Type 0} → A → D A
  pub each : {A B : Type 0} → (A → B) → D A → D B
  pub each2 : {A B C : Type 0} → (A → B → C) → D A → D B → D C
  pub try_each : {A B : Type 0} → (A → Result Stop B) → D A → Result Stop (D B)
  pub try_each2 : {A B C : Type 0} → (A → B → Option C) → D A → D B → Option (D C)
  pub values : {A : Type 0} → D A → List A
  -- `glid` and `wi_linear_id`, on words below the number.
  pub glid : ℕ → D ℕ → D ℕ → ℕ
  pub wi_linear_id : ℕ → D ℕ → D ℕ → ℕ
  -- `From<Self> for Dim3D<T>`, where `One::one()` is 1.
  pub into_dim3d : D ℕ → Dim3D ℕ
  pub transpose : {A : Type 0} → D A → D A
  pub values-each : {A B : Type 0} (f : A → B) (d : D A) → values (each f d) ≡ map f (values d)
  pub try_each_ok :
      {A B : Type 0} (f : A → Result Stop B) (g : A → B) (d : D A)
      → All (λ a. f a ≡ ok (g a)) (values d)
      → try_each f d ≡ ok (each g d)

instance unfoldable pub dim1d : Fields Dim1D
dim1d = record {
  same = λ a. record { x = a };
  each = λ f d. record { x = f d.x };
  each2 = λ f d e. record { x = f d.x e.x };
  try_each = λ f d. do ok (record { x = (← f d.x) });
  try_each2 = λ f d e. elim (f d.x e.x) [ none ↦ none | some a ↦ some (record { x = a }) ];
  values = λ d. d.x ∷ [];
  glid = λ m d end. d.x;
  wi_linear_id = λ m d wi_id. wi_id.x;
  into_dim3d = λ d. record { x = d.x; y = 1; z = 1 };
  transpose = λ d. d;
  values-each = λ f d. refl;
  try_each_ok = λ f g d h. rw (h.0) refl;
}

instance unfoldable pub dim2d : Fields Dim2D
dim2d = record {
  same = λ a. record { x = a; y = a };
  each = λ f d. record { x = f d.x; y = f d.y };
  each2 = λ f d e. record { x = f d.x e.x; y = f d.y e.y };
  try_each = λ f d. do ok (record { x = (← f d.x); y = (← f d.y) });
  try_each2 = λ f d e. all_some2 (f d.x e.x) (f d.y e.y);
  values = λ d. d.x ∷ d.y ∷ [];
  glid = λ m d end. (d.y * end.x % m + d.x) % m;
  wi_linear_id = λ m d wi_id. (wi_id.y * d.x % m + wi_id.x) % m;
  into_dim3d = λ d. record { x = d.x; y = d.y; z = 1 };
  transpose = λ d. record { x = d.y; y = d.x };
  values-each = λ f d. refl;
  try_each_ok = λ f g d h. rw (h.0, h.1.0) refl;
}

instance unfoldable pub dim3d : Fields Dim3D
dim3d = record {
  same = λ a. record { x = a; y = a; z = a };
  each = λ f d. record { x = f d.x; y = f d.y; z = f d.z };
  each2 = λ f d e. record { x = f d.x e.x; y = f d.y e.y; z = f d.z e.z };
  try_each = λ f d. do ok (record { x = (← f d.x); y = (← f d.y); z = (← f d.z) });
  try_each2 = λ f d e. all_some3 (f d.x e.x) (f d.y e.y) (f d.z e.z);
  values = λ d. d.x ∷ d.y ∷ d.z ∷ [];
  glid = λ m d end. ((d.z * end.y % m + d.y) % m * end.x % m + d.x) % m;
  wi_linear_id = λ m d wi_id. ((wi_id.z * d.y % m + wi_id.y) % m * d.x % m + wi_id.x) % m;
  into_dim3d = λ d. d;
  transpose = λ d. record { x = d.z; y = d.y; z = d.x };
  values-each = λ f d. refl;
  try_each_ok = λ f g d h. rw (h.0, h.1.0, h.1.1.0) refl;
}
