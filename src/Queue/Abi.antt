-- ===== src/Queue/Abi.antt =====
-- The enums of hsa-rt/src/queue.rs, and the constants that the generated bindings of hsa.h give it.
use geobacter.Prelude.{ℕ, ◌≡◌}

pub data FenceScope : Type 0 where
  none agent system : FenceScope

-- `hsa_packet_type_t`, `hsa_packet_header_t`, `hsa_fence_scope_t` and the position of the dimensions
-- in the setup word. `dep_signals` is the length of `dep_signal` in a barrier packet.
pub record HsaAbi : Type 0 where
  pub packet_type_invalid : ℕ
  pub packet_type_kernel_dispatch : ℕ
  pub packet_type_barrier_and : ℕ
  pub packet_type_barrier_or : ℕ
  pub packet_header_type : ℕ
  pub packet_header_barrier : ℕ
  pub packet_header_scacquire_fence_scope : ℕ
  pub packet_header_screlease_fence_scope : ℕ
  pub fence_scope_none : ℕ
  pub fence_scope_agent : ℕ
  pub fence_scope_system : ℕ
  pub setup_dimensions : ℕ
  pub dep_signals : ℕ

-- The values that the HSA runtime specification gives: the type in bits 0 to 7, the barrier bit 8,
-- the two fence scopes in bits 9 to 10 and 11 to 12.
pub record IsHsaAbi (c : HsaAbi) : Type 0 where
  pub invalid_eq : c.packet_type_invalid ≡ 1
  pub kernel_dispatch_eq : c.packet_type_kernel_dispatch ≡ 2
  pub barrier_and_eq : c.packet_type_barrier_and ≡ 3
  pub barrier_or_eq : c.packet_type_barrier_or ≡ 5
  pub type_eq : c.packet_header_type ≡ 0
  pub barrier_eq : c.packet_header_barrier ≡ 8
  pub scacquire_eq : c.packet_header_scacquire_fence_scope ≡ 9
  pub screlease_eq : c.packet_header_screlease_fence_scope ≡ 11
  pub none_eq : c.fence_scope_none ≡ 0
  pub agent_eq : c.fence_scope_agent ≡ 1
  pub system_eq : c.fence_scope_system ≡ 2
  pub dimensions_eq : c.setup_dimensions ≡ 0
  pub dep_signals_eq : c.dep_signals ≡ 5
