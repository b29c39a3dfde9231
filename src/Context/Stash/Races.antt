-- ===== src/Context/Stash/Races.antt =====
-- What `drop` does to the threads that have loaded the cell.
use geobacter.Prelude.{
  ℕ, suc, ◌-◌, ◌≡◌, ◌≢◌, sym, ap, ◌∙◌, ==_iff, update, update_self, update_other,
}
use geobacter.Context.Stash.{
  first, faulted, dropping, dropped, looking, loaded, System, at, seen, drop_load, clear, load,
  use_freed, start_drop, end_drop, Reach, initial, step,
}

-- `upgrade` is not safe beside `drop`: where the cell has the only reference to its data, a thread that
-- starts to look and one that starts to clear the cell can come to an access of freed data.
pub drop_races :
    (s : System) (i j p : ℕ)
    → i ≢ j
    → s.pc i ≡ looking first
    → s.pc j ≡ dropping
    → s.cell ≡ suc p
    → s.strong (suc p) ≡ 1
    → (t : System) × Reach s t × (t.pc i ≡ faulted)
unfolding seen drop_load clear
drop_races s i j p apart looks drops full one = (
  at cleared i faulted,
  step
      (step
        (step (step initial (load first looks))
          (start_drop (update_other s.pc (seen first s.cell) apart ∙ drops)))
        (end_drop (suc p) (update_self s₁.pc j (drop_load s.cell) ∙ ap drop_load full)))
      (use_freed first (suc p) still gone),
  update_self cleared.pc i faulted,
)
  where
    s₁ : System
    s₁ = at s i (seen first s.cell)

    s₂ : System
    s₂ = at s₁ j (drop_load s.cell)

    cleared : System
    cleared = clear s₂ j (suc p)

    cleared-eq : cleared ≡ record s₂ {
      cell = 0;
      strong = update s.strong (suc p) (s.strong (suc p) - 1);
      pc = update s₂.pc j dropped;
    }
    cleared-eq = rw ((==_iff s.cell (suc p)).1 full)

    still : cleared.pc i ≡ loaded first (suc p)
    still =
        ap (λ (z : System). z.pc i) cleared-eq
        ∙ update_other s₂.pc dropped (λ z. apart (sym z))
        ∙ update_other s₁.pc (drop_load s.cell) (λ z. apart (sym z))
        ∙ update_self s.pc i (seen first s.cell)
        ∙ ap (seen first) full

    gone : cleared.strong (suc p) ≡ 0
    gone =
        ap (λ (z : System). z.strong (suc p)) cleared-eq
        ∙ update_self s.strong (suc p) (s.strong (suc p) - 1)
        ∙ ap (λ z. z - 1) one
