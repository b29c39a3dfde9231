-- ===== src/ArgsPool/Construct.antt =====
-- `ArgsPool::new` and `new_arena`: what a new pool is, and how many blocks fit into it.
use geobacter.Prelude.{
  ℕ, ◌+◌, ◌*◌, ◌≤◌, ◌<◌, max, ◌≡◌, refl, inl, inr, some, arith, usize_mod, Bool-cases, mul_mono,
  ltb, sym, false,
}
use geobacter.Prelude.Results.{ok, >>=-eq-ok, map_err-eq-ok, ok_or-eq-ok, ok-injective}
use geobacter.Layout.{Layout, repeat, padding_needed_for}
use geobacter.ArgsPool.{Arena, Device, ArgsPool, IsValid, new, new_arena}

-- A buffer lies in the address space, not at 0, and a boxed slice of the whole buffer is not moved.
pub record IsArena (arena : Arena) : Type 0 where
  pub placed :
      (bytes ptr : ℕ)
      → arena.try_with_capacity bytes ≡ ok ptr
      → (1 ≤ ptr) × (ptr + bytes < usize_mod)
  pub kept : (ptr bytes b : ℕ) → arena.try_into_boxed_slice ptr bytes ≡ ok b → b ≡ ptr

-- A new arena is valid, empty, and as large as was asked for and as the granule.
pub new_arena_lem :
    {arena : Arena} (d : Device) (bytes : ℕ) {p : ArgsPool}
    → IsArena arena
    → new_arena arena d bytes ≡ ok p
    → IsValid p × (p.allocated ≡ p.base) × (p.len ≡ max d.alloc_granule bytes)
unfolding new_arena
new_arena_lem {arena} d bytes {p} laws e =
    let (ptr, reserved, boxing) = >>=-eq-ok _ _ e in
    let (base, boxed, made) = >>=-eq-ok _ _ boxing in
    let at = laws.placed _ ptr (map_err-eq-ok _ _ reserved) in
    let still = laws.kept ptr _ base (map_err-eq-ok _ _ boxed) in
    let fields = ok-injective made in rw (← fields) (omega (arith, at, still), sym still, refl)

-- The bytes that `new` asks for hold `count` values of the layout.
repeat-some :
    (l : Layout) (count : ℕ) {r : Layout} → repeat l count ≡ some r → l.size * count ≤ r.size
unfolding repeat
repeat-some l count h =
    ground (arith, mul_mono l.size count (l.size + padding_needed_for l l.align) count)

leb_of_ltb : (a b : ℕ) → ltb a b ≡ false → b ≤ a
leb_of_ltb a b h = ground arith

-- A new pool is valid and empty, is at least as large as the granule, and has the bytes of `count`
-- values of the layout. The alignment that was asked for is one that the region gives.
pub new_lem :
    {arena : Arena} (d : Device) (l : Layout) (count : ℕ) {p : ArgsPool}
    → IsArena arena
    → new arena d l count ≡ ok p
    → IsValid p
      × (p.allocated ≡ p.base)
      × (d.alloc_granule ≤ p.len)
      × (l.size * count ≤ p.len)
      × (l.align ≤ d.alloc_alignment)
unfolding new
new_lem {arena} d l count {p} laws e = elim (Bool-cases (ltb d.alloc_alignment l.align)) [
  | inl small ↦ absurd (ground arith)
  | inr large ↦
      let (r, repeated, made) = >>=-eq-ok _ _ (rw large at e) in
      let lem = new_arena_lem d r.size laws made in
      let bytes = repeat-some l count (ok_or-eq-ok _ _ repeated) in
      (lem.0, lem.1, omega (arith, lem), omega (arith, lem, bytes), leb_of_ltb _ _ large)
]
