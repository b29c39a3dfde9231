-- ===== src/Context/Creation/Once.antt =====
-- There is one context in a process.
use geobacter.Prelude.{
  ℕ, ◌+◌, ◌≡◌, ◌≢◌, refl, sym, ap, ◌∙◌, subst, inl, inr, Bool, true, false, Bool-cases,
  if◌then◌else◌, Option, none, some, update, update-cases, update_self, update_other,
}
use geobacter.Context.Creation.{
  Pc, idle, looking, locking, locked, looking_again, building, installing, failed, returned, System,
  at, upgrade, global, or_go_on, build, install, Step, call, look, lock, unlock, look_again,
  build_pool, not_built, set_ctx, call_again, let_go, end_context, Reach, initial, step,
}

-- Before the pool is built, while thread `k` makes the context, and when there was a context.
pub data Mode : Type 0 where
  before : Mode
  during after : ℕ → Mode

abbrev pub Shape : Mode → Bool → Option ℕ → Type 0
Shape before built ctx = (built ≡ false) × (ctx ≡ none)
Shape (during k) built ctx = (built ≡ true) × (ctx ≡ none)
Shape (after c) built ctx = (built ≡ true) × (ctx ≡ some c)

abbrev pub Sound : Mode → (ℕ → Bool) → ℕ → Pc → Type 0
Sound m live i installing = m ≡ during i
Sound m live i (returned c) = (m ≡ after c) × (live c ≡ true)
Sound m live i _ = Unit

pub record Inv (m : Mode) (s : System) : Type 0 where
  pub shape : Shape m s.built s.ctx
  pub sound : (i : ℕ) → Sound m s.live i (s.pc i)

-- The context stays what it is, and stays dropped.
pub record Next (m : Mode) (s t : System) : Type 0 where
  pub mode : Mode
  pub inv : Inv mode t
  pub stays : (c : ℕ) → m ≡ after c → (mode ≡ after c) × (s.live c ≡ false → t.live c ≡ false)

Shape-after : (m : Mode) (b : Bool) (x : Option ℕ) (c : ℕ) → Shape m b x → x ≡ some c → m ≡ after c
Shape-after before b x c h e = absurd (cc (h.1, e))
Shape-after (during k) b x c h e = absurd (cc (h.1, e))
Shape-after (after d) b x c h e = ap after (cc (h.1, e))

Shape-before : (m : Mode) (x : Option ℕ) → Shape m false x → m ≡ before
Shape-before before x h = refl
Shape-before (during k) x h = absurd (cc h.0)
Shape-before (after c) x h = absurd (cc h.0)

upgrade-some :
    (live : ℕ → Bool) (x : Option ℕ) (c : ℕ)
    → upgrade live x ≡ some c
    → (x ≡ some c) × (live c ≡ true)
upgrade-some live none c e = absurd (cc e)
upgrade-some live (some d) c e = elim (Bool-cases (live d)) [
  | inl held ↦
      let eq : ◌≡◌ {A = Option ℕ} (some d) (some c) = rw (held) at e in
      let eq' : d ≡ c = cc eq in (eq, sym (ap live eq') ∙ held)
  | inr gone ↦ let eq : ◌≡◌ {A = Option ℕ} none (some c) = rw (gone) at e in absurd (cc eq)
]

-- A thread minds nothing before there is a context.
unmade-Sound :
    (m : Mode) (live : ℕ → Bool) (m' : Mode) (live' : ℕ → Bool) (j : ℕ) (p : Pc)
    → m ≢ during j
    → ((c : ℕ) → m ≢ after c)
    → Sound m live j p
    → Sound m' live' j p
unmade-Sound m live m' live' j installing other none_yet h = absurd (other h)
unmade-Sound m live m' live' j (returned c) other none_yet h = absurd (none_yet c h.0)
unmade-Sound m live m' live' j idle other none_yet h = tt
unmade-Sound m live m' live' j looking other none_yet h = tt
unmade-Sound m live m' live' j locking other none_yet h = tt
unmade-Sound m live m' live' j locked other none_yet h = tt
unmade-Sound m live m' live' j looking_again other none_yet h = tt
unmade-Sound m live m' live' j building other none_yet h = tt
unmade-Sound m live m' live' j failed other none_yet h = tt

unheld-Sound :
    (m : Mode) (live : ℕ → Bool) (c j : ℕ) (p : Pc)
    → p ≢ returned c
    → Sound m live j p
    → Sound m (update live c false) j p
unheld-Sound m live c j installing free h = h
unheld-Sound m live c j (returned d) free h =
    (h.0, update_other live false (λ z. free (ap returned (sym z))) ∙ h.1)
unheld-Sound m live c j idle free h = tt
unheld-Sound m live c j looking free h = tt
unheld-Sound m live c j locking free h = tt
unheld-Sound m live c j locked free h = tt
unheld-Sound m live c j looking_again free h = tt
unheld-Sound m live c j building free h = tt
unheld-Sound m live c j failed free h = tt

module _ {m : Mode} {s : System} (inv : Inv m s) where
  -- A thread moves on, and nothing changes but the lock.
  moved_with :
      (i : ℕ) (pc' : Pc) (init' : Bool)
      → Sound m s.live i pc'
      → Next m s (record (at s i pc') { init = init' })
  moved_with i pc' init' here = record {
    mode = m;
    inv = record {
      shape = inv.shape;
      sound = λ j. elim (update-cases s.pc i pc' j) [
        | inl (same, now) ↦
            subst (Sound m s.live j) (sym now) (subst (λ l. Sound m s.live l pc') same here)
        | inr (apart, now) ↦ subst (Sound m s.live j) (sym now) (inv.sound j)
      ];
    };
    stays = λ c e. (e, λ h. h);
  }

  moved : (i : ℕ) (pc' : Pc) → Sound m s.live i pc' → Next m s (at s i pc')
  moved i pc' here = moved_with i pc' s.init here

  looked :
      (i : ℕ) (pc' : Pc) (x : Option ℕ)
      → ((c : ℕ) → x ≡ some c → (m ≡ after c) × (s.live c ≡ true))
      → Sound m s.live i pc'
      → Next m s (at s i (or_go_on pc' x))
  looked i pc' none known here = moved i pc' here
  looked i pc' (some c) known here = moved i (returned c) (known c refl)

  global-Sound : (c : ℕ) → global s ≡ some c → (m ≡ after c) × (s.live c ≡ true)
  unfolding global
  global-Sound c e =
      let (there, held) = upgrade-some s.live s.ctx c e in
      (Shape-after m s.built s.ctx c inv.shape there, held)

  -- A thread makes a step towards the context.
  made :
      (i : ℕ) (m' : Mode) (ctx' : Option ℕ) (live' : ℕ → Bool) (built' : Bool) (fresh' : ℕ)
      (pc' : Pc)
      → Shape m' built' ctx'
      → ((j : ℕ) → i ≢ j → m ≢ during j)
      → ((c : ℕ) → m ≢ after c)
      → Sound m' live' i pc'
      → Next m s (record {
        ctx = ctx';
        live = live';
        built = built';
        fresh = fresh';
        init = s.init;
        pc = update s.pc i pc';
      })
  made i m' ctx' live' built' fresh' pc' shape other none_yet here = record {
    mode = m';
    inv = record {
      shape = shape;
      sound = λ j. elim (update-cases s.pc i pc' j) [
        | inl (same, now) ↦
            subst (Sound m' live' j) (sym now) (subst (λ l. Sound m' live' l pc') same here)
        | inr (apart, now) ↦
            subst (Sound m' live' j) (sym now)
              (unmade-Sound m s.live m' live' j (s.pc j) (other j apart) none_yet (inv.sound j))
      ];
    };
    stays = λ c e. absurd (none_yet c e);
  }

  build-Next : (i : ℕ) → Next m s (build s i)
  unfolding build
  build-Next i = elim (Bool-cases s.built) [
    | inl done ↦ subst (Next m s) (sym (ap choice done)) (moved i failed tt)
    | inr not_yet ↦
        let shape : Shape m false s.ctx = subst (λ b. Shape m b s.ctx) not_yet inv.shape in
        let early = Shape-before m s.ctx shape in
        subst (Next m s) (sym (ap choice not_yet)) (
          made i (during i) s.ctx s.live true s.fresh installing
            (refl, (subst (λ n. Shape n false s.ctx) early shape).1) (λ j apart z. cc (early, z))
            (λ c z. cc (early, z)) refl)
  ]
    where
      choice : Bool → System
      choice b = if b then at s i failed else record (at s i installing) { built = true }

  install-Next : (i : ℕ) → m ≡ during i → Next m s (install s i)
  install-Next i e =
      made i (after s.fresh) (some s.fresh) (update s.live s.fresh true) s.built (s.fresh + 1)
        (returned s.fresh) ((subst (λ n. Shape n s.built s.ctx) e inv.shape).0, refl)
        (λ j apart z. apart (cc (e, z))) (λ c z. cc (e, z)) (refl, update_self s.live s.fresh true)

  end-Next :
      (c : ℕ)
      → ((i : ℕ) → s.pc i ≢ returned c)
      → Next m s (record s { live = update s.live c false })
  end-Next c free = record {
    mode = m;
    inv = record {
      shape = inv.shape;
      sound = λ j. unheld-Sound m s.live c j (s.pc j) (free j) (inv.sound j);
    };
    stays = λ d e. (
      e,
      λ h. elim (update-cases s.live c false d) [
        | inl (same, now) ↦ now
        | inr (apart, now) ↦ now ∙ h
      ],
    );
  }

Step-Next : {m : Mode} {s t : System} → Step s t → Inv m s → Next m s t
Step-Next (call i e) inv = moved inv i looking tt
Step-Next {s = s} (look i e) inv = looked inv i locking (global s) (global-Sound inv) tt
Step-Next (lock i e free) inv = moved_with inv i locked true tt
Step-Next (unlock i e) inv = moved_with inv i looking_again false tt
Step-Next {s = s} (look_again i e) inv = looked inv i building (global s) (global-Sound inv) tt
Step-Next (build_pool i e) inv = build-Next inv i
Step-Next (not_built i e) inv = moved inv i failed tt
Step-Next {m} {s} (set_ctx i e) inv = install-Next inv i (subst (Sound m s.live i) e (inv.sound i))
Step-Next (call_again i e) inv = moved inv i idle tt
Step-Next (let_go i c e) inv = moved inv i idle tt
Step-Next (end_context c free) inv = end-Next inv c free

Reach-Next : {m : Mode} {s t : System} → Inv m s → Reach s t → Next m s t
Reach-Next {m} inv initial = record { mode = m; inv = inv; stays = λ c e. (e, λ h. h) }
Reach-Next inv (step path st) =
    let n = Reach-Next inv path in
    let n' = Step-Next st n.inv in
    record {
      mode = n'.mode;
      inv = n'.inv;
      stays = λ c e.
          ((n'.stays c (n.stays c e).0).0, λ h. (n'.stays c (n.stays c e).0).1 ((n.stays c e).1 h));
    }

-- A process before its first call.
abbrev pub start : System
start = record {
  ctx = none;
  live = λ c. false;
  built = false;
  fresh = 0;
  init = false;
  pc = λ i. idle;
}

start-Inv : Inv before start
start-Inv = record { shape = (refl, refl); sound = λ i. tt }

-- All threads that have a context have the same, which is alive and in `CTX`, whatever the order of
-- their steps.
pub one_context :
    {s : System} (i j p q : ℕ)
    → Reach start s
    → s.pc i ≡ returned p
    → s.pc j ≡ returned q
    → (p ≡ q) × (s.live p ≡ true) × (s.ctx ≡ some p)
one_context {s} i j p q path e f =
    let n = Reach-Next start-Inv path in
    let (one_is, held) = subst (Sound n.mode s.live i) e (n.inv.sound i) in
    let other = subst (Sound n.mode s.live j) f (n.inv.sound j) in
    (cc (one_is, other.0), held, (subst (λ m. Shape m s.built s.ctx) one_is n.inv.shape).1)

-- When the context of a process has ended, no call returns a context any more.
pub no_second_context :
    {s t : System} (c i d : ℕ)
    → Reach start s
    → s.ctx ≡ some c
    → s.live c ≡ false
    → Reach s t
    → t.pc i ≢ returned d
no_second_context {s} {t} c i d path there gone later e =
    let n = Reach-Next start-Inv path in
    let was = Shape-after n.mode s.built s.ctx c n.inv.shape there in
    let n' = Reach-Next n.inv later in
    let (is, still) = n'.stays c was in
    let held = subst (Sound n'.mode t.live i) e (n'.inv.sound i) in
    let same : c ≡ d = cc (is, held.0) in cc (still gone, ap t.live same, held.1)
