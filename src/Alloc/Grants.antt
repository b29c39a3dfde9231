-- ===== src/Alloc/Grants.antt =====
-- Which devices have access after `grant_access`.
use native.Mathlib.Nat.{pow-le-pow_right}
use geobacter.Prelude.{
  ℕ, ◌-◌, ◌%◌, ◌^◌, ◌<◌, ◌≡◌, ◌≢◌, ◌↔◌, refl, sym, ap, ◌∙◌, inl, inr, arith, Bool, true, false, not,
  ==_iff, Option, none, some, complement, usize_mod, if◌then◌else◌, Bool-cases, List, min, digit,
  digit_bound, digit-bit_or, digit-bit_and, digit-pow_self, digit-pow_ne, digit-complement,
  bit_and-pow, ℕ_discrete,
}
use geobacter.Prelude.Results.{Result, ok, err}
use geobacter.HsaErrors.{HsaError}
use geobacter.Alloc.Heap.{Heap, Runtime}
use geobacter.Alloc.Pool.{Slice}
use geobacter.Alloc.Grown.{Quiet}
use geobacter.Alloc.Accessible.{Accessible, bit, get, set, unset, agents}
use geobacter.Alloc.Lap.{
  AgentAccess, never, default_allowed, default_disallowed, Device, Granting, granted, is_empty,
  or_alloc_error, update_access_grants, grant_mut, grant_access_mut, grant_locked, keep_shared,
  grant_shared, grant_access,
}

-- The digit that stands for a device, and what `get` says of it.
abbrev slot : Accessible → ℕ → ℕ
slot a id = digit (id % 64) a.bits

get_iff : (a : Accessible) (id : ℕ) → (get a id ≡ true) ↔ (slot a id ≡ 0)
unfolding get
get_iff a id = (
  λ h. (bit_and-pow (id % 64) a.bits).0 ((==_iff _ 0).0 h),
  λ h. (==_iff _ 0).1 ((bit_and-pow (id % 64) a.bits).1 h),
)

get-slot : (a b : Accessible) (id : ℕ) → slot a id ≡ slot b id → get a id ≡ get b id
get-slot a b id e = elim (Bool-cases (get a id)) [
  | inl yes₁ ↦ yes₁ ∙ sym ((get_iff b id).1 (sym e ∙ (get_iff a id).0 yes₁))
  | inr no₁ ↦ elim (Bool-cases (get b id)) [
    | inl yes₂ ↦ absurd (cc (no₁, (get_iff a id).1 (e ∙ (get_iff b id).0 yes₂)))
    | inr no₂ ↦ no₁ ∙ sym no₂
  ]
]

slot-set_self : (a : Accessible) (id : ℕ) → slot (set a id).1 id ≡ 1
unfolding set
slot-set_self a id = omega (
  arith,
  digit-bit_or (id % 64) a.bits (bit id),
  digit-pow_self (id % 64),
  digit_bound (id % 64) a.bits,
)

slot-set_other : (a : Accessible) (id j : ℕ) → id % 64 ≢ j % 64 → slot (set a id).1 j ≡ slot a j
unfolding set
slot-set_other a id j h =
    omega (
      arith,
      digit-bit_or (j % 64) a.bits (bit id),
      digit-pow_ne (j % 64) (id % 64) (λ e. h (sym e)),
    )

bit_lt : (id : ℕ) → bit id < 2 ^ 64
bit_lt id =
    omega (arith, pow-le-pow_right {n = 2} (omega arith) {i = id % 64} {j = 63} (omega arith))

slot-unset :
    (a : Accessible) (id j : ℕ) → slot (unset a id) j ≡ min (slot a j) (1 - digit (j % 64) (bit id))
unfolding unset
slot-unset a id j = omega (
  arith,
  digit-bit_and (j % 64) a.bits (complement usize_mod (bit id)),
  digit-complement 64 (j % 64) (bit id) (omega arith) (bit_lt id),
)

-- Taking a device out again that was not in gives what was there before.
unset-set : (a : Accessible) (id j : ℕ) → get a id ≡ true → get (unset (set a id).1 id) j ≡ get a j
unset-set a id j fresh =
    get-slot (unset (set a id).1 id) a j (elim (ℕ_discrete (id % 64) (j % 64)) [
      | yes e ↦
          let was : slot a j ≡ 0 = ap (λ t. digit t a.bits) (sym e) ∙ (get_iff a id).0 fresh in
          let out : digit (j % 64) (bit id) ≡ 1 =
            ap (λ t. digit t (bit id)) (sym e) ∙ digit-pow_self (id % 64) in
          omega (arith, slot-unset (set a id).1 id j, out, was)
      | no e ↦ omega (
        arith,
        slot-unset (set a id).1 id j,
        slot-set_other a id j e,
        digit-pow_ne (j % 64) (id % 64) (λ x. e (sym x)),
        digit_bound (j % 64) a.bits,
      )
    ])

module _ (get_dev_ref : ℕ → Option ℕ) (rt : Runtime)
    (agent_access : ℕ → Result HsaError AgentAccess) (dev : Device) (pool_ptr : Option ℕ) where
  -- What is left where a grant fails: the access of before, and the heap.
  abbrev Undone : Accessible → Heap → ℕ → Granting → Type 0
  Undone acc h j g = (get g.accessible j ≡ get acc j) × (g.heap ≡ h)

  kept-Undone :
      (acc : Accessible) (h : Heap) (p j : ℕ) (to : List ℕ) (r : Result HsaError (Unit {0}))
      {e : HsaError}
      → get acc dev.id ≡ true
      → (keep_shared get_dev_ref rt agent_access dev pool_ptr
          (set acc dev.id).1
          (granted get_dev_ref rt p to h r)).result
        ≡ err e
      → Undone acc h j (
          keep_shared get_dev_ref rt agent_access dev pool_ptr
            (set acc dev.id).1
            (granted get_dev_ref rt p to h r))
  kept-Undone acc h p j to (ok x) fresh failed = absurd (cc failed)
  kept-Undone acc h p j to (err x) fresh failed = (unset-set acc dev.id j fresh, refl)

  locked-Undone :
      (acc : Accessible) (h : Heap) (p j : ℕ) (prev : Bool) {e : HsaError}
      → get acc dev.id ≡ prev
      → (grant_locked get_dev_ref rt agent_access dev pool_ptr acc h p
          (prev, (set acc dev.id).1)).result
        ≡ err e
      → Undone acc h j
          (grant_locked get_dev_ref rt agent_access dev pool_ptr acc h p (prev, (set acc dev.id).1))
  locked-Undone acc h p j false seen failed = absurd (cc failed)
  locked-Undone acc h p j true seen failed = kept-Undone acc h p j _ _ seen failed

  shared-Undone :
      (acc : Accessible) (h : Heap) (j : ℕ) (access : Result HsaError AgentAccess) (ptr : Option ℕ)
      {e : HsaError}
      → (grant_shared get_dev_ref rt agent_access dev pool_ptr acc h access ptr).result ≡ err e
      → Undone acc h j (grant_shared get_dev_ref rt agent_access dev pool_ptr acc h access ptr)
  unfolding set get
  shared-Undone acc h j (err x) ptr failed = (refl, refl)
  shared-Undone acc h j (ok never) ptr failed = (refl, refl)
  shared-Undone acc h j (ok default_allowed) ptr failed = absurd (cc failed)
  shared-Undone acc h j (ok default_disallowed) none failed = (refl, refl)
  shared-Undone acc h j (ok default_disallowed) (some p) failed =
      locked-Undone acc h p j (get acc dev.id) refl failed

  -- Whatever another thread does between the test and the lock: where `grant_access` fails, each
  -- device has access exactly if it had access before, and no grant has changed.
  pub grant_access_undone :
      (seen acc : Accessible) (h : Heap) (j : ℕ) {e : HsaError}
      → (grant_access get_dev_ref rt agent_access dev pool_ptr seen acc h).result ≡ err e
      → (get (grant_access get_dev_ref rt agent_access dev pool_ptr seen acc h).accessible j
          ≡ get acc j)
        × ((grant_access get_dev_ref rt agent_access dev pool_ptr seen acc h).heap ≡ h)
  unfolding grant_access
  grant_access_undone seen acc h j {e} failed = tested (get seen dev.id) failed
    where
      tested :
          (b : Bool)
          → (if not b
              then record { result = ok tt; accessible = acc; heap = h }
              else grant_shared get_dev_ref rt agent_access dev pool_ptr acc h
                  (agent_access dev.agent)
                  pool_ptr).result
            ≡ err e
          → Undone acc h j (
              if not b
              then record { result = ok tt; accessible = acc; heap = h }
              else grant_shared get_dev_ref rt agent_access dev pool_ptr acc h
                  (agent_access dev.agent)
                  pool_ptr)
      tested false failed = absurd (cc failed)
      tested true failed = shared-Undone acc h j (agent_access dev.agent) pool_ptr failed

-- `&mut LapAlloc` never notes a device while nothing is allocated: whatever access the pool gives the
-- device, and whatever the call returns, the allocations to come are granted to the same devices as
-- before.
pub late_access_lost :
    (get_dev_ref : ℕ → Option ℕ) (rt : Runtime) (agent_access : ℕ → Result HsaError AgentAccess)
    (dev : Device) (acc : Accessible) (h : Heap) (j : ℕ)
    → get (grant_access_mut get_dev_ref rt agent_access dev none acc h).accessible j ≡ get acc j
unfolding grant_access_mut
late_access_lost get_dev_ref rt agent_access dev acc h j =
    tested (not (get acc dev.id)) (agent_access dev.agent)
  where
    tested :
        (b : Bool) (access : Result HsaError AgentAccess)
        → get
            (if b
              then record { result = ok tt; accessible = acc; heap = h }
              else grant_mut get_dev_ref rt agent_access dev none acc h access none).accessible
            j
          ≡ get acc j
    tested true access = refl
    tested false (err e) = refl
    tested false (ok never) = refl
    tested false (ok default_allowed) = refl
    tested false (ok default_disallowed) = refl

-- The grants to a new block allocate, free and write nothing.
pub update_access_grants-Quiet :
    (get_dev_ref : ℕ → Option ℕ) (rt : Runtime) (acc : Accessible)
    → Quiet (update_access_grants get_dev_ref rt acc)
unfolding update_access_grants
update_access_grants-Quiet get_dev_ref rt acc = record {
  live_kept = λ s h. guarded_live s h (is_empty (agents get_dev_ref acc)) _;
  bytes_kept = λ s h. guarded_bytes s h (is_empty (agents get_dev_ref acc)) _;
}
  where
    guarded_live :
        (s : Slice) (h : Heap) (b : Bool) (r : Result HsaError (Unit {0}))
        → (if b
            then (ok tt, h)
            else or_alloc_error get_dev_ref rt
                (granted get_dev_ref rt s.ptr (agents get_dev_ref acc) h r)).1.live
          ≡ h.live
    guarded_live s h true r = refl
    guarded_live s h false (ok x) = refl
    guarded_live s h false (err x) = refl

    guarded_bytes :
        (s : Slice) (h : Heap) (b : Bool) (r : Result HsaError (Unit {0}))
        → (if b
            then (ok tt, h)
            else or_alloc_error get_dev_ref rt
                (granted get_dev_ref rt s.ptr (agents get_dev_ref acc) h r)).1.bytes
          ≡ h.bytes
    guarded_bytes s h true r = refl
    guarded_bytes s h false (ok x) = refl
    guarded_bytes s h false (err x) = refl
