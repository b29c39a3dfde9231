-- ===== src/Lds/Slots.antt =====
-- The slot of a workitem in the arrays of lds.rs, by its place in memory.
use geobacter.Prelude.{
  ℕ, ◌+◌, ◌*◌, ◌/◌, ◌%◌, ◌<◌, ◌≡◌, ◌≢◌, refl, sym, ap, ◌∙◌, subst, false, Bool-cases, inl, inr, ltb,
  if◌then◌else◌, Option, none, some, List, get_elem?, arith,
}
use geobacter.Grid.Dims.{Dim1D, Dim2D, Dim3D, Dim3D-eq}
use geobacter.Grid.Axis.{split_once, below_padded}
use geobacter.Lds.{Event, Round, trace}
use geobacter.Lds.Phases.{phased, Conflict}
use geobacter.Lds.Safe.{Same, no-Conflict}

-- `self[i]` of an array of `n` elements; `none` is the panic.
unfoldable pub element : (n i : ℕ) → Option ℕ
element n i = if ltb i n then some i else none

abbrev inside : (n i : ℕ) → Option ℕ → Option ℕ
inside n i none = none
inside n i (some outer) = if ltb i n then some (outer * n + i) else none

-- `workitem_index` of `[E; X]`, `[[E; X]; Y]` and `[[[E; X]; Y]; Z]`.
unfoldable pub slot_1d : Dim1D ℕ → Dim1D ℕ → Option ℕ
unfolding element
slot_1d size idx = element size.x idx.x

unfoldable pub slot_2d : Dim2D ℕ → Dim2D ℕ → Option ℕ
unfolding element
slot_2d size idx = inside size.x idx.x (element size.y idx.y)

unfoldable pub slot_3d : Dim3D ℕ → Dim3D ℕ → Option ℕ
unfolding element
slot_3d size idx = inside size.x idx.x (inside size.y idx.y (element size.z idx.z))

-- What an index is that does not panic.
element-some : (n i s : ℕ) → element n i ≡ some s → (i < n) × (s ≡ i)
unfolding element
element-some n i s e = elim (Bool-cases (ltb i n)) [
  | inl below ↦
      let eq : ◌≡◌ {A = Option ℕ} (some i) (some s) = rw (below, element) at e in
      let eq' : i ≡ s = cc eq in (ground (arith, below), sym eq')
  | inr past ↦ let eq : ◌≡◌ {A = Option ℕ} none (some s) = rw (past, element) at e in absurd (cc eq)
]

inside-some :
    (n i s : ℕ) (x : Option ℕ)
    → inside n i x ≡ some s
    → (o : ℕ) × (x ≡ some o) × (i < n) × (o * n + i ≡ s)
inside-some n i s none e = absurd (cc e)
inside-some n i s (some o) e = elim (Bool-cases (ltb i n)) [
  | inl below ↦
      let eq : ◌≡◌ {A = Option ℕ} (some (o * n + i)) (some s) = rw (below) at e in
      let eq' : o * n + i ≡ s = cc eq in (o, refl, ground (arith, below), eq')
  | inr past ↦ let eq : ◌≡◌ {A = Option ℕ} none (some s) = rw (past) at e in absurd (cc eq)
]

-- Where the slot of a workitem is: the quotients and remainders are the index again.
slot_3d-some :
    (size idx : Dim3D ℕ) (s : ℕ)
    → slot_3d size idx ≡ some s
    → (idx.x ≡ s % size.x)
      × (idx.y ≡ s / size.x % size.y)
      × (idx.z ≡ s / size.x / size.y)
      × (s < size.z * size.y * size.x)
unfolding slot_3d
slot_3d-some size idx s e =
    let (row, row_is, x_in, s_is) = inside-some size.x idx.x s _ e in
    let (plane, plane_is, y_in, rows) = inside-some size.y idx.y row _ row_is in
    let (z_in, z_is) = element-some size.z idx.z plane plane_is in
    let outer = split_once size.x s row idx.x x_in s_is in
    let inner = split_once size.y row plane idx.y y_in rows in
    (
      outer.1,
      inner.1 ∙ ap (λ t. t % size.y) outer.0,
      sym z_is ∙ inner.0 ∙ ap (λ t. t / size.y) outer.0,
      subst (λ t. t < size.z * size.y * size.x) s_is
          (below_padded (size.z * size.y) size.x row idx.x
            (subst (λ t. t < size.z * size.y) rows
              (below_padded size.z size.y plane idx.y (subst (λ t. t < size.z) (sym z_is) z_in)
                y_in))
            x_in),
    )

-- Two workitems never do two things to one slot of an array between the same barriers, unless both only
-- read it: those whose index does not panic, and which use the borrow in the same way.
pub workitems_apart :
    (size p q : Dim3D ℕ) (own own' : ℕ) (rs ss : List Round) (i j n : ℕ) (e f : Event)
    → p ≢ q
    → slot_3d size p ≡ some own
    → slot_3d size q ≡ some own'
    → Same rs ss
    → get_elem? (phased 0 (trace own false rs)) i ≡ some (n, e)
    → get_elem? (phased 0 (trace own' false ss)) j ≡ some (n, f)
    → (own < size.z * size.y * size.x) × ¬ Conflict e f
workitems_apart size p q own own' rs ss i j n e f different here there same at_i at_j =
    let a = slot_3d-some size p own here in
    let b = slot_3d-some size q own' there in
    (
      a.3,
      no-Conflict own own' rs ss i j n e f
          (λ z. different (
            Dim3D-eq (a.0 ∙ ap (λ t. t % size.x) z ∙ sym b.0)
              (a.1 ∙ ap (λ t. t / size.x % size.y) z ∙ sym b.1)
              (a.2 ∙ ap (λ t. t / size.x / size.y) z ∙ sym b.2)))
          same at_i at_j,
    )
