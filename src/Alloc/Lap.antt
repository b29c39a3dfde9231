-- ===== src/Alloc/Lap.antt =====
-- `LapAlloc` of runtime-amd/src/alloc/lap_alloc.rs: the allocator that grants devices access to what
-- it allocates, and the two implementations of `grant_access`.
use geobacter.Prelude.{
  ℕ, Bool, true, false, not, ◌==◌, Option, none, some, List, [], ◌∷◌, ◌++◌, if◌then◌else◌, update,
}
use geobacter.Prelude.Results.{Result, ok, err}
use geobacter.HsaErrors.{HsaError, general}
use geobacter.Layout.{Layout}
use geobacter.Alloc.Heap.{Heap, Runtime, Failure, alloc_error, Program, ◌>>=◌, ◌>>◌, pure, hsa_free}
use geobacter.Alloc.Pool.{
  PoolAlloc, Slice, or_fail, alloc, settle, try_grow, try_grow_zeroed, try_shrink,
}
use geobacter.Alloc.Accessible.{Accessible, get, set, unset, agents}

-- The pool of the allocator, by its allocator if it has one, and the devices.
pub record LapAlloc : Type 0 where
  pub pool : Option PoolAlloc
  pub accessible : Accessible

-- A device: its id, and its agent.
pub record Device : Type 0 where
  pub id : ℕ
  pub agent : ℕ

abbrev pub is_empty : List ℕ → Bool
is_empty [] = true
is_empty (x ∷ xs) = false

module _ (get_dev_ref : ℕ → Option ℕ) (rt : Runtime) where
  -- `MemoryPoolPtr::grant_agents_access`: the agents are those that have access from then on.
  abbrev pub granted :
      ℕ → List ℕ → Heap → Result HsaError (Unit {0}) → Result HsaError (Unit {0}) × Heap
  granted p to h (ok _) = (ok tt, record h { grants = update h.grants p to })
  granted p to h (err e) = (err e, h)

  abbrev pub grant_agents_access : ℕ → List ℕ → Heap → Result HsaError (Unit {0}) × Heap
  grant_agents_access p to h = granted p to h (rt.allow_access h to p)

  -- `.ok().ok_or(AllocError)`.
  abbrev pub or_alloc_error : Result HsaError (Unit {0}) × Heap → Result Failure (Unit {0}) × Heap
  or_alloc_error (ok _, h) = (ok tt, h)
  or_alloc_error (err e, h) = (err alloc_error, h)

  unfoldable pub update_access_grants : Accessible → Slice → Program (Unit {0})
  unfolding agents
  update_access_grants acc s h =
      let to = agents get_dev_ref acc in
      if is_empty to then (ok tt, h) else or_alloc_error (grant_agents_access s.ptr to h)

  module _ (a : LapAlloc) where
    -- `AllocRef::alloc`.
    unfoldable pub lap_alloc : Layout → Program Slice
    unfolding alloc update_access_grants settle
    lap_alloc l = do
      pool ← or_fail alloc_error a.pool
      out ← alloc pool rt l
      (if l.size == 0 then pure tt else λ h.
          settle pool rt out l (update_access_grants a.accessible out h))
      pure out

    unfoldable pub lap_dealloc : ℕ → Layout → Program (Unit {0})
    lap_dealloc p l = if not (l.size == 0) then hsa_free rt p else pure tt

    unfoldable pub lap_grow : ℕ → Layout → Layout → Program Slice
    unfolding try_grow update_access_grants
    lap_grow p old new = do
      pool ← or_fail alloc_error a.pool
      try_grow pool rt (update_access_grants a.accessible) p old new

    unfoldable pub lap_grow_zeroed : ℕ → Layout → Layout → Program Slice
    unfolding try_grow_zeroed update_access_grants
    lap_grow_zeroed p old new = do
      pool ← or_fail alloc_error a.pool
      try_grow_zeroed pool rt (update_access_grants a.accessible) p old new

    unfoldable pub lap_shrink : ℕ → Layout → Layout → Program Slice
    unfolding try_shrink update_access_grants
    lap_shrink p old new = do
      pool ← or_fail alloc_error a.pool
      try_shrink pool rt (update_access_grants a.accessible) p old new

-- `enum AgentAccess` of hsa-rt/src/ext/amd.rs.
pub data AgentAccess : Type 0 where
  never default_allowed default_disallowed : AgentAccess

-- What `grant_access` returns and leaves behind.
pub record Granting : Type 0 where
  pub result : Result HsaError (Unit {0})
  pub accessible : Accessible
  pub heap : Heap

module _ (get_dev_ref : ℕ → Option ℕ) (rt : Runtime)
    (agent_access : ℕ → Result HsaError AgentAccess) (dev : Device) (pool_ptr : Option ℕ) where
  -- The end of the branch for pools that are not shared by default, with exclusive access.
  abbrev pub keep_mut : Accessible → Result HsaError (Unit {0}) × Heap → Granting
  keep_mut acc (ok _, h) = record { result = ok tt; accessible = (set acc dev.id).1; heap = h }
  keep_mut acc (err e, h) = record { result = err e; accessible = acc; heap = h }

  abbrev pub grant_mut : Accessible → Heap → Result HsaError AgentAccess → Option ℕ → Granting
  grant_mut acc h (err e) ptr = record { result = err e; accessible = acc; heap = h }
  grant_mut acc h (ok never) ptr = record { result = err general; accessible = acc; heap = h }
  grant_mut acc h (ok default_allowed) ptr = record { result = ok tt; accessible = acc; heap = h }
  grant_mut acc h (ok default_disallowed) none = record {
    result = ok tt;
    accessible = acc;
    heap = h;
  }
  grant_mut acc h (ok default_disallowed) (some p) =
      keep_mut acc
        (grant_agents_access get_dev_ref rt p (agents get_dev_ref acc ++ dev.agent ∷ []) h)

  -- `grant_access` of `&mut LapAlloc`.
  unfoldable pub grant_access_mut : Accessible → Heap → Granting
  unfolding get set agents
  grant_access_mut acc h =
      if not (get acc dev.id)
      then record { result = ok tt; accessible = acc; heap = h }
      else grant_mut acc h (agent_access dev.agent) pool_ptr

  -- The end of that branch under the lock: the device is taken out again where the grant fails.
  abbrev pub keep_shared : Accessible → Result HsaError (Unit {0}) × Heap → Granting
  keep_shared acc (ok _, h) = record { result = ok tt; accessible = acc; heap = h }
  keep_shared acc (err e, h) = record { result = err e; accessible = unset acc dev.id; heap = h }

  abbrev pub grant_locked : Accessible → Heap → ℕ → Bool × Accessible → Granting
  grant_locked acc h p (false, acc') = record { result = ok tt; accessible = acc'; heap = h }
  grant_locked acc h p (true, acc') =
      keep_shared acc' (grant_agents_access get_dev_ref rt p (agents get_dev_ref acc') h)

  abbrev pub grant_shared : Accessible → Heap → Result HsaError AgentAccess → Option ℕ → Granting
  grant_shared acc h (err e) ptr = record { result = err e; accessible = acc; heap = h }
  grant_shared acc h (ok never) ptr = record { result = err general; accessible = acc; heap = h }
  grant_shared acc h (ok default_allowed) ptr = record {
    result = ok tt;
    accessible = (set acc dev.id).1;
    heap = h;
  }
  grant_shared acc h (ok default_disallowed) none = record {
    result = ok tt;
    accessible = acc;
    heap = h;
  }
  grant_shared acc h (ok default_disallowed) (some p) = grant_locked acc h p (set acc dev.id)

  -- `grant_access` of `&LapAlloc`: `seen` is the word at the first test, `acc` the one that is there
  -- by the time that the lock is held, or that the device is set without it.
  unfoldable pub grant_access : Accessible → Accessible → Heap → Granting
  unfolding get set unset agents
  grant_access seen acc h =
      if not (get seen dev.id)
      then record { result = ok tt; accessible = acc; heap = h }
      else grant_shared acc h (agent_access dev.agent) pool_ptr
