-- ===== src/Alloc/Accessible.antt =====
-- `Accessible` of runtime-amd/src/alloc/accessible.rs: the devices that may access an allocation, as
-- the digits of a word.
use geobacter.Prelude.{
  ℕ, zero, suc, ◌+◌, ◌/◌, ◌%◌, ◌^◌, Bool, ◌==◌, Option, none, some, List, [], ◌∷◌, bit_and, bit_or,
  complement, usize_mod, if◌then◌else◌,
}

-- The word. The lock is left to the steps that are taken under it.
pub record Accessible : Type 0 where
  pub bits : ℕ

-- `1u64 << id.index()`.
abbrev pub bit : ℕ → ℕ
bit id = 2 ^ (id % 64)

-- `Accessible::default`.
abbrev pub no_access : Accessible
no_access = record { bits = 0 }

-- `get` and `get_mut`: whether the device has no access yet.
unfoldable pub get : Accessible → ℕ → Bool
get a id = bit_and a.bits (bit id) == 0

-- `set` and `set_mut`: with whether the device had no access before.
unfoldable pub set : Accessible → ℕ → Bool × Accessible
set a id = (bit_and a.bits (bit id) == 0, record { bits = bit_or a.bits (bit id) })

unfoldable pub unset : Accessible → ℕ → Accessible
unset a id = record { bits = bit_and a.bits (complement usize_mod (bit id)) }

-- `new_local`.
unfoldable pub new_local : ℕ → Accessible
unfolding set
new_local id = (set no_access id).1

-- `Context::get_dev_ref`, with `agent` of the device.
module _ (get_dev_ref : ℕ → Option ℕ) where
  abbrev pub push_agent : Option ℕ → List ℕ → List ℕ
  push_agent none out = out
  push_agent (some agent) out = agent ∷ out

  -- The loop of `agents` over the indices from `i` on, of which `n` are left.
  abbrev pub agents_from : ℕ → ℕ → ℕ → List ℕ
  agents_from bits zero i = []
  agents_from bits (suc n) i =
      let rest = agents_from bits n (i + 1) in
      if bit_and bits (2 ^ i) == 0 then rest else push_agent (get_dev_ref i) rest

  unfoldable pub agents : Accessible → List ℕ
  agents a = if a.bits == 0 then [] else agents_from a.bits 64 0

-- `u64::count_ones`.
abbrev pub count_ones : ℕ → ℕ → ℕ
count_ones zero bits = 0
count_ones (suc n) bits = count_ones n (bits / 2) + bits % 2

unfoldable pub len : Accessible → ℕ
len a = count_ones 64 a.bits
