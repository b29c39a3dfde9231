-- ===== src/Queue/Header.antt =====
-- `scope_to_enum`, `header` and `packet_store_rel`: the first 32 bits of a packet.
use geobacter.Prelude.{
  ℕ, ◌+◌, ◌*◌, ◌/◌, ◌%◌, ◌^◌, ◌<◌, ◌≡◌, refl, ap, ◌∙◌, Bool, true, false, arith, bit_or,
  if◌then◌else◌, u16_mod, u32_mod, bit_or_shift, bit_or_disjoint, bit_or_step,
}
use geobacter.Queue.Abi.{FenceScope, HsaAbi, IsHsaAbi}

-- `v << shift` on a `u16`.
abbrev shl16 : ℕ → ℕ → ℕ
shl16 v shift = v * 2 ^ shift % u16_mod

module _ (c : HsaAbi) where
  unfoldable pub scope_to_enum : FenceScope → ℕ
  scope_to_enum FenceScope.none = c.fence_scope_none % u16_mod
  scope_to_enum FenceScope.system = c.fence_scope_system % u16_mod
  scope_to_enum FenceScope.agent = c.fence_scope_agent % u16_mod

  unfoldable pub header : ℕ → FenceScope → FenceScope → Bool → ℕ
  unfolding scope_to_enum
  header ty scaquire screlease ordered =
      let h₀ = shl16 (ty % u16_mod) c.packet_header_type in
      let h₁ = bit_or h₀ (shl16 (scope_to_enum scaquire) c.packet_header_scacquire_fence_scope) in
      let h₂ = bit_or h₁ (shl16 (scope_to_enum screlease) c.packet_header_screlease_fence_scope) in
      if ordered then bit_or h₂ (shl16 1 c.packet_header_barrier) else h₂

-- The word that `packet_store_rel` stores, and its two halves as the fields of the packet.
unfoldable pub store_word : ℕ → ℕ → ℕ
store_word h rest = bit_or h (rest * 2 ^ 16 % u32_mod)

-- The two halves come back as they were stored.
pub store_word_fields :
    (h rest : ℕ)
    → h < u16_mod
    → rest < u16_mod
    → (store_word h rest % u16_mod ≡ h) × (store_word h rest / u16_mod ≡ rest)
unfolding store_word
store_word_fields h rest lo hi = rw (word) (omega arith, omega arith)
  where
    shifted : rest * 2 ^ 16 % u32_mod ≡ 2 ^ 16 * rest
    shifted = omega arith

    word : bit_or h (rest * 2 ^ 16 % u32_mod) ≡ h + 2 ^ 16 * rest
    word = ap (λ t. bit_or h t) shifted ∙ bit_or_disjoint 16 h rest lo

-- The codes of the scopes.
abbrev pub scope_code : FenceScope → ℕ
scope_code FenceScope.none = 0
scope_code FenceScope.agent = 1
scope_code FenceScope.system = 2

abbrev pub flag : Bool → ℕ
flag true = 1
flag false = 0

scope_code-lt : (s : FenceScope) → scope_code s < 3
scope_code-lt FenceScope.none = omega arith
scope_code-lt FenceScope.agent = omega arith
scope_code-lt FenceScope.system = omega arith

flag-lt : (o : Bool) → flag o < 2
flag-lt true = omega arith
flag-lt false = omega arith

scope_to_enum-eq : (c : HsaAbi) (s : FenceScope) → IsHsaAbi c → scope_to_enum c s ≡ scope_code s
unfolding scope_to_enum
scope_to_enum-eq c FenceScope.none h = ap (λ t. t % u16_mod) h.none_eq
scope_to_enum-eq c FenceScope.agent h = ap (λ t. t % u16_mod) h.agent_eq
scope_to_enum-eq c FenceScope.system h = ap (λ t. t % u16_mod) h.system_eq

fields_or :
    (ty a r : ℕ)
    → ty < 256
    → a < 3
    → bit_or (bit_or ty (2 ^ 9 * a)) (2 ^ 11 * r) ≡ ty + 2 ^ 9 * a + 2 ^ 11 * r
fields_or ty a r h k =
    ap (λ t. bit_or t (2 ^ 11 * r)) (bit_or_disjoint 9 ty a (omega arith))
    ∙ bit_or_disjoint 11 (ty + 2 ^ 9 * a) r (omega arith)

odd_or : (x : ℕ) → x < 32 → bit_or (2 * x) 1 ≡ 2 * x + 1
odd_or x h =
    bit_or_step (2 * x) 1
    ∙ omega (arith, ap (λ t. bit_or t 0) halved, bit_or_disjoint 5 x 0 (omega arith))
  where
    halved : 2 * x / 2 ≡ x
    halved = omega arith

barrier_or :
    (ty a r : ℕ)
    → ty < 256
    → a < 3
    → r < 3
    → bit_or (ty + 2 ^ 9 * a + 2 ^ 11 * r) (2 ^ 8 * 1) ≡ ty + 2 ^ 8 + 2 ^ 9 * a + 2 ^ 11 * r
barrier_or ty a r h k j =
    bit_or_shift 8 (ty + 2 ^ 9 * a + 2 ^ 11 * r) 1
    ∙ omega (arith, ap (λ t. bit_or t 1) upper, odd_or (a + 4 * r) (omega arith))
  where
    upper : (ty + 2 ^ 9 * a + 2 ^ 11 * r) / 2 ^ 8 ≡ 2 * (a + 4 * r)
    upper = omega arith

flag_or :
    (ty a r : ℕ) (o : Bool)
    → ty < 256
    → a < 3
    → r < 3
    → (let x = ty + 2 ^ 9 * a + 2 ^ 11 * r in if o then bit_or x (2 ^ 8 * 1) else x)
      ≡ ty + 2 ^ 8 * flag o + 2 ^ 9 * a + 2 ^ 11 * r
flag_or ty a r true h k j = barrier_or ty a r h k j
flag_or ty a r false h k j = omega arith

-- The header is the sum of its fields, each at its place.
pub header_sum :
    (c : HsaAbi) (ty : ℕ) (a r : FenceScope) (o : Bool)
    → IsHsaAbi c
    → ty < 256
    → header c ty a r o ≡ ty + 2 ^ 8 * flag o + 2 ^ 9 * scope_code a + 2 ^ 11 * scope_code r
unfolding header
header_sum c ty a r o h small =
    let p₀ : shl16 (ty % u16_mod) c.packet_header_type ≡ ty = rw h.type_eq (omega arith) in
    let p₁ : shl16 (scope_to_enum c a) c.packet_header_scacquire_fence_scope
        ≡ 2 ^ 9 * scope_code a =
      rw (h.scacquire_eq, scope_to_enum-eq c a h) (omega (arith, scope_code-lt a)) in
    let p₂ : shl16 (scope_to_enum c r) c.packet_header_screlease_fence_scope
        ≡ 2 ^ 11 * scope_code r =
      rw (h.screlease_eq, scope_to_enum-eq c r h) (omega (arith, scope_code-lt r)) in
    let p₃ : shl16 1 c.packet_header_barrier ≡ 2 ^ 8 * 1 = rw h.barrier_eq refl in
    let fields = fields_or ty (scope_code a) (scope_code r) small (scope_code-lt a) in
    rw (p₀, p₁, p₂, p₃, fields)
      (flag_or ty (scope_code a) (scope_code r) o small (scope_code-lt a) (scope_code-lt r))

-- A packet processor reads back what was asked for: the type from bits 0 to 7, the barrier bit, and
-- the two fence scopes. The header fits into 16 bits.
pub header_fields :
    (c : HsaAbi) (ty : ℕ) (a r : FenceScope) (o : Bool)
    → IsHsaAbi c
    → ty < 256
    → (header c ty a r o % 2 ^ 8 ≡ ty)
      × (header c ty a r o / 2 ^ 8 % 2 ≡ flag o)
      × (header c ty a r o / 2 ^ 9 % 4 ≡ scope_code a)
      × (header c ty a r o / 2 ^ 11 % 4 ≡ scope_code r)
      × (header c ty a r o < u16_mod)
header_fields c ty a r o h small =
    omega (arith, header_sum c ty a r o h small, scope_code-lt a, scope_code-lt r, flag-lt o)
