-- ===== src/ArgsPool/Race/Progress.antt =====
-- What a thread can count on: a refusal is right at its own step, and a thread that runs alone ends.
use geobacter.Prelude.{
  ℕ, ◌+◌, ◌%◌, ◌≤◌, ◌<◌, ◌≡◌, refl, ◌⊎◌, inl, inr, none, arith, Option-cases, subst, update_self,
}
use geobacter.Layout.{Layout}
use geobacter.ArgsPool.{ArgsPool, IsValid, attempt}
use geobacter.ArgsPool.Grants.{attempt_none}
use geobacter.ArgsPool.Race.Steps.{
  Pc, refused, trying, granted, at, System, Step, out_of_space, exchange, retry, Reach, init,
}
use geobacter.ArgsPool.Race.Safety.{PcSound, Reach-Inv}

-- When a thread of a reachable state finds no room, then no aligned block of its layout fits into
-- what is free at that moment, although the value that it read may be out of date.
pub out_of_space_sound :
    {p : ArgsPool} {s : System} (i : ℕ) (l : Layout) (start x : ℕ)
    → IsValid p
    → Reach (init p) s
    → s.pc i ≡ trying l start
    → attempt s.pool l start ≡ none
    → s.pool.allocated ≤ x
    → x % l.align ≡ 0
    → p.base + p.len < x + l.size
out_of_space_sound {p} {s} i l start x v r e a h ax =
    let inv = Reach-Inv v r in
    let sound : PcSound s.pool (trying l start) = subst (PcSound s.pool) e (inv.threads i) in
    let full =
      attempt_none inv.valid sound.2 start x sound.0 (omega (arith, sound, inv.valid)) a
        (omega (arith, sound, h)) ax in
    omega (arith, full, inv.same_base, inv.same_len)

abbrev pub Ended : Pc → Type 0
Ended pc = (pc ≡ refused) ⊎ ((ptr : ℕ) × (pc ≡ granted ptr))

-- A thread that has loaded ends its call with a block or a refusal by two steps of its own, if no
-- other thread moves between them: the first may only read the counter again.
pub solo_finish :
    (s : System) (i : ℕ) (l : Layout) (start : ℕ)
    → s.pc i ≡ trying l start
    → (t : System) × (Step s i t ⊎ ((m : System) × Step s i m × Step m i t)) × Ended (t.pc i)
solo_finish s i l start e = elim (Option-cases (attempt s.pool l start)) [
  | inl a ↦ (_, inl (out_of_space l start e a), inl (update_self s.pc i refused))
  | inr ((next, ptr), a) ↦
      let m = at s i (trying l s.pool.allocated) in
      let again : Step s i m = retry l start next ptr e a in
      let there = update_self s.pc i (trying l s.pool.allocated) in
      elim (Option-cases (attempt s.pool l s.pool.allocated)) [
        | inl b ↦ (
          _,
          inr (m, again, out_of_space l s.pool.allocated there b),
          inl (update_self m.pc i refused),
        )
        | inr ((next', ptr'), b) ↦ (
          _,
          inr (m, again, exchange l s.pool.allocated next' ptr' there b refl),
          inr (ptr', update_self m.pc i (granted ptr')),
        )
      ]
]
