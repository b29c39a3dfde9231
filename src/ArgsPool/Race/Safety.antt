-- ===== src/ArgsPool/Race/Safety.antt =====
-- In every interleaving the granted blocks lie in the pool, apart from one another.
use geobacter.Prelude.{
  ℕ, ◌+◌, ◌-◌, ◌%◌, ◌/◌, ◌≤◌, max, ◌≡◌, refl, sym, ap, ◌∙◌, some, List, [], ◌∷◌, arith, All,
  All-map, update, update_all, subst,
}
use geobacter.Layout.{Layout, align_to, align_to-some, mod_max_pow}
use geobacter.ArgsPool.{ArgsPool, IsValid, attempt, cacheline}
use geobacter.ArgsPool.Grants.{Fits, Request, attempt-some}
use geobacter.ArgsPool.Race.Steps.{
  Pc, idle, refused, trying, granted, Block, System, Step, bad_layout, load, out_of_space, exchange,
  retry, again, Reach, initial, step, init,
}

-- A block between `lo` and `hi`, aligned to its layout and to a cache line.
pub record Placed (lo hi : ℕ) (b : Block) : Type 0 where
  pub lower : lo ≤ b.ptr
  pub upper : b.ptr + b.layout.size ≤ hi
  pub aligned : b.ptr % b.layout.align ≡ 0
  pub on_line : b.ptr % cacheline ≡ 0

-- Each block ends before every later one starts, so no two overlap; a later one starts on a cache
-- line of its own.
abbrev pub Separated : List Block → Type 0
Separated [] = Unit
Separated (b ∷ bs) = All (λ c. c.ptr + c.layout.size ≤ b.ptr) bs × Separated bs

-- What a thread may rely on between its load and its compare-exchange.
abbrev pub PcSound : ArgsPool → Pc → Type 0
PcSound p (trying l start) =
    (p.base ≤ start)
    × (start ≤ p.allocated)
    × Fits p l
    × ((x : ℕ) → x % l.align ≡ 0 → x % cacheline ≡ 0)
PcSound p _ = Unit

pub record Inv (p : ArgsPool) (s : System) : Type 0 where
  pub valid : IsValid s.pool
  pub same_base : s.pool.base ≡ p.base
  pub same_len : s.pool.len ≡ p.len
  pub grown : p.allocated ≤ s.pool.allocated
  pub threads : (i : ℕ) → PcSound s.pool (s.pc i)
  pub placed : All (Placed p.allocated s.pool.allocated) s.blocks
  pub apart : Separated s.blocks

-- The counter only moves up, so what a thread relies on stays true.
PcSound-grow :
    (p : ArgsPool) (top : ℕ) (pc : Pc)
    → p.allocated ≤ top
    → PcSound p pc
    → PcSound (record p { allocated = top }) pc
PcSound-grow p top idle h v = tt
PcSound-grow p top refused h v = tt
PcSound-grow p top (granted ptr) h v = tt
PcSound-grow p top (trying l start) h v =
    (v.0, omega (arith, v), record { align_pos = v.2.align_pos; room = v.2.room }, v.3)

-- A thread moves, and the pool and the blocks stay.
move-Inv :
    {p : ArgsPool} {s : System} (i : ℕ) (pc' : Pc)
    → PcSound s.pool pc'
    → Inv p s
    → Inv p (record s { pc = update s.pc i pc' })
move-Inv {p} {s} i pc' sound inv = record {
  valid = inv.valid;
  same_base = inv.same_base;
  same_len = inv.same_len;
  grown = inv.grown;
  threads = update_all (PcSound s.pool) s.pc i pc' sound inv.threads;
  placed = inv.placed;
  apart = inv.apart;
}

-- The layout that a thread loads with is raised to a cache line.
loaded :
    {p : ArgsPool} (l : Layout) {l' : Layout}
    → IsValid p
    → Request p l
    → align_to l cacheline ≡ some l'
    → PcSound p (trying l' p.allocated)
loaded {p} l {l'} v r e =
    let (size, align) = align_to-some l cacheline e in
    (
      v.lower,
      omega arith,
      record { align_pos = omega (arith, align); room = omega (arith, r.room, size, align) },
      λ x h.
          (mod_max_pow r.layout.log 7 x (
            ap (λ t. x % max t cacheline) (sym r.layout.align_eq)
            ∙ ap (λ t. x % t) (sym align)
            ∙ h)).1,
    )

exchange-Inv :
    {p : ArgsPool} {s : System} (i : ℕ) (l : Layout) (start next ptr : ℕ)
    → s.pc i ≡ trying l start
    → attempt s.pool l start ≡ some (next, ptr)
    → s.pool.allocated ≡ start
    → Inv p s
    → Inv p (record {
      pool = record (s.pool) { allocated = next };
      pc = update s.pc i (granted ptr);
      blocks = record { ptr = ptr; layout = l } ∷ s.blocks;
    })
exchange-Inv {p} {s} i l start next ptr e a won inv =
    let sound : PcSound s.pool (trying l start) = subst (PcSound s.pool) e (inv.threads i) in
    let g = attempt-some inv.valid sound.2 start (sound.0) (omega (arith, sound, inv.valid)) a in
    let grows : s.pool.allocated ≤ next = omega (arith, g, won) in
    record {
      valid = omega (arith, inv.valid, g, won);
      same_base = inv.same_base;
      same_len = inv.same_len;
      grown = omega (arith, inv.grown, grows);
      threads =
          update_all (PcSound (record (s.pool) { allocated = next })) s.pc i (granted ptr) tt
            (λ j. PcSound-grow s.pool next (s.pc j) grows (inv.threads j));
      placed = (
        record {
          lower = omega (arith, inv.grown, g, won);
          upper = omega (arith, g);
          aligned = g.aligned;
          on_line = sound.3 ptr g.aligned;
        },
        All-map s.blocks
            (λ b h. record {
              lower = h.lower;
              upper = omega (arith, h.upper, grows);
              aligned = h.aligned;
              on_line = h.on_line;
            })
            inv.placed,
      );
      apart = (All-map s.blocks (λ b h. omega (arith, h.upper, g, won)) inv.placed, inv.apart);
    }

-- Every step of every thread keeps the invariant.
pub Step-Inv : {p : ArgsPool} {s : System} {i : ℕ} {t : System} → Step s i t → Inv p s → Inv p t
Step-Inv {i} (bad_layout l e a) inv = move-Inv i refused tt inv
Step-Inv {i} (load l l' e r a) inv = move-Inv i _ (loaded l inv.valid r a) inv
Step-Inv {i} (out_of_space l start e a) inv = move-Inv i refused tt inv
Step-Inv {i} (exchange l start next ptr e a won) inv = exchange-Inv i l start next ptr e a won inv
Step-Inv {s} {i} (retry l start next ptr e a) inv =
    let sound : PcSound s.pool (trying l start) = subst (PcSound s.pool) e (inv.threads i) in
    move-Inv i (trying l s.pool.allocated) (inv.valid.lower, omega arith, sound.2, sound.3) inv
Step-Inv {i} (again ptr e) inv = move-Inv i idle tt inv

pub Reach-Inv : {p : ArgsPool} {s : System} → IsValid p → Reach (init p) s → Inv p s
Reach-Inv v initial = record {
  valid = v;
  same_base = refl;
  same_len = refl;
  grown = omega arith;
  threads = λ i. tt;
  placed = tt;
  apart = tt;
}
Reach-Inv v (step r st) = Step-Inv st (Reach-Inv v r)

-- Whatever the order of the threads' steps, every block that was granted lies in the part of the
-- pool that was free at the start, is aligned to its layout and to a cache line, and ends at or
-- before the start of every block that was granted after it.
pub Reach-Separated :
    {p : ArgsPool} {s : System}
    → IsValid p
    → Reach (init p) s
    → All (Placed p.allocated (p.base + p.len)) s.blocks × Separated s.blocks
Reach-Separated {p} {s} v r =
    let inv = Reach-Inv v r in
    (
      All-map s.blocks
          (λ b h. record {
            lower = h.lower;
            upper = omega (arith, h.upper, inv.valid, inv.same_base, inv.same_len);
            aligned = h.aligned;
            on_line = h.on_line;
          })
          inv.placed,
      inv.apart,
    )

-- No two blocks share a cache line: the lines that the bytes of a block touch come before the line
-- of the start of every later block.
abbrev pub LinesApart : List Block → Type 0
LinesApart [] = Unit
LinesApart (b ∷ bs) =
    All (λ c. (c.ptr + c.layout.size + (cacheline - 1)) / cacheline ≤ b.ptr / cacheline) bs
    × LinesApart bs

Separated-LinesApart :
    (lo hi : ℕ) (bs : List Block) → All (Placed lo hi) bs → Separated bs → LinesApart bs
Separated-LinesApart lo hi [] h s = tt
Separated-LinesApart lo hi (b ∷ bs) h s =
    (All-map bs (λ c k. omega (arith, k, h.0.on_line)) s.0, Separated-LinesApart lo hi bs h.1 s.1)

-- No false sharing: in every reachable state the blocks touch different cache lines.
pub Reach-LinesApart :
    {p : ArgsPool} {s : System} → IsValid p → Reach (init p) s → LinesApart s.blocks
Reach-LinesApart {s} v r =
    let (placed, apart) = Reach-Separated v r in Separated-LinesApart _ _ s.blocks placed apart
