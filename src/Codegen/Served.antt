-- ===== src/Codegen/Served.antt =====
-- What the codegen thread answers, and when it panics.
use geobacter.Prelude.{
  Bool-cases, ◌≡◌, ◌≢◌, refl, ap, ◌∙◌, ◌⊎◌, inl, inr, ◌↔◌, Bool, true, false, List, [], ◌∷◌,
}
use geobacter.Codegen.Worker.{
  Message, add_accel, codegen, Received, message, timeout, disconnected, Status, receiving, blocked,
  returned, panicked, Worker, any, on_message, on_timeout, receive, run, thread,
}

module _ {A K : Type 0} where
  -- The kernels that are asked for.
  abbrev pub asked : List (Received A K) → List K
  asked [] = []
  asked (message (codegen desc) ∷ rs) = desc ∷ asked rs
  asked (_ ∷ rs) = asked rs

  -- The senders stay, and a device stays alive.
  abbrev pub Kept : A → Received A K → Type 0
  Kept a (message m) = Unit
  Kept a (timeout alive) = alive a ≡ true
  Kept a disconnected = ⊥

-- The first message is a request.
abbrev codegen_first : {A K : Type 0} → List (Received A K) → Bool
codegen_first [] = false
codegen_first (message (add_accel a) ∷ rs) = false
codegen_first (message (codegen desc) ∷ rs) = true
codegen_first (timeout alive ∷ rs) = codegen_first rs
codegen_first (disconnected ∷ rs) = false

-- A worker that goes on, has had its first message, and knows a device.
pub record Serving {A X : Type 0} (a : A) (w : Worker A X) : Type 0 where
  pub live : (alive : A → Bool) → alive a ≡ true → any alive w.accels ≡ true
  pub begun : w.first_msg ≡ false
  pub up : (w.status ≡ receiving) ⊎ (w.status ≡ blocked)

module _ {A K X : Type 0} (codegen_kernel : K → X) where
  receive-begun :
      (w : Worker A X) (st : Status) (r : Received A K)
      → w.first_msg ≡ false
      → w.status ≡ st
      → st ≢ panicked
      → ((receive codegen_kernel st w r).first_msg ≡ false)
        × ((receive codegen_kernel st w r).status ≢ panicked)
  unfolding receive on_message on_timeout
  receive-begun w panicked r b e n = absurd (n refl)
  receive-begun w returned r b e n = (b, λ h. cc (e, h))
  receive-begun w receiving (message (add_accel a)) b e n = (refl, λ h. cc h)
  receive-begun w receiving (message (codegen desc)) b e n = rw (b) (refl, λ h. cc h)
  receive-begun w receiving (timeout alive) b e n = elim (Bool-cases (any alive w.accels)) [
    | inl live ↦ rw (b, live) (refl, λ h. cc h)
    | inr dead ↦ rw (b, dead) (refl, λ h. cc h)
  ]
  receive-begun w receiving disconnected b e n = (b, λ h. cc h)
  receive-begun w blocked (message (add_accel a)) b e n = (refl, λ h. cc h)
  receive-begun w blocked (message (codegen desc)) b e n = rw (b) (refl, λ h. cc h)
  receive-begun w blocked (timeout alive) b e n = (b, λ h. cc (e, h))
  receive-begun w blocked disconnected b e n = (b, λ h. cc h)

  run-begun :
      (w : Worker A X) (rs : List (Received A K))
      → w.first_msg ≡ false
      → w.status ≢ panicked
      → (run codegen_kernel w rs).status ≢ panicked
  unfolding run
  run-begun w [] b n = n
  run-begun w (r ∷ rs) b n =
      let (b', n') = receive-begun w w.status r b refl n in
      run-begun (receive codegen_kernel w.status w r) rs b' n'

  receive_message :
      (w : Worker A X) (st : Status) (m : Message A K)
      → (st ≡ receiving) ⊎ (st ≡ blocked)
      → receive codegen_kernel st w (message m) ≡ on_message codegen_kernel w m
  unfolding receive
  receive_message w receiving m u = refl
  receive_message w blocked m u = refl
  receive_message w returned m u = absurd (elim u [ inl h ↦ cc h | inr h ↦ cc h ])
  receive_message w panicked m u = absurd (elim u [ inl h ↦ cc h | inr h ↦ cc h ])

  receive_disconnected :
      (w : Worker A X) (st : Status)
      → (st ≡ receiving) ⊎ (st ≡ blocked)
      → receive {K = K} codegen_kernel st w disconnected ≡ record w { status = returned }
  unfolding receive
  receive_disconnected w receiving u = refl
  receive_disconnected w blocked u = refl
  receive_disconnected w returned u = absurd (elim u [ inl h ↦ cc h | inr h ↦ cc h ])
  receive_disconnected w panicked u = absurd (elim u [ inl h ↦ cc h | inr h ↦ cc h ])

  receive_timeout :
      (w : Worker A X) (st : Status) (alive : A → Bool)
      → w.status ≡ st
      → w.first_msg ≡ true
      → (st ≡ receiving) ⊎ (st ≡ blocked)
      → ((receive codegen_kernel st w (timeout alive)).first_msg ≡ true)
        × ((receive codegen_kernel st w (timeout alive)).status ≡ blocked)
  unfolding receive on_timeout
  receive_timeout w receiving alive e b u = elim (Bool-cases (any alive w.accels)) [
    | inl live ↦ rw (b, live) (refl, refl)
    | inr dead ↦ rw (b, dead) (refl, refl)
  ]
  receive_timeout w blocked alive e b u = (b, e)
  receive_timeout w returned alive e b u = absurd (elim u [ inl h ↦ cc h | inr h ↦ cc h ])
  receive_timeout w panicked alive e b u = absurd (elim u [ inl h ↦ cc h | inr h ↦ cc h ])

  ended_stays :
      (w : Worker A X) (rs : List (Received A K))
      → (w.status ≡ panicked) ⊎ (w.status ≡ returned)
      → run codegen_kernel w rs ≡ w
  unfolding run receive
  ended_stays w [] e = refl
  ended_stays w (r ∷ rs) e =
      ap (λ t. run codegen_kernel t rs) (skip w.status e) ∙ ended_stays w rs e
    where
      skip : (st : Status) → (st ≡ panicked) ⊎ (st ≡ returned) → receive codegen_kernel st w r ≡ w
      skip panicked h = refl
      skip returned h = refl
      skip receiving h = absurd (elim h [ inl x ↦ cc x | inr x ↦ cc x ])
      skip blocked h = absurd (elim h [ inl x ↦ cc x | inr x ↦ cc x ])

  run-panics :
      (w : Worker A X) (rs : List (Received A K))
      → w.first_msg ≡ true
      → (w.status ≡ receiving) ⊎ (w.status ≡ blocked)
      → ((run codegen_kernel w rs).status ≡ panicked) ↔ (codegen_first rs ≡ true)
  unfolding run on_message
  run-panics w [] b u = (λ h. absurd (elim u [ inl x ↦ cc (x, h) | inr x ↦ cc (x, h) ]), λ h. cc h)
  run-panics w (message (add_accel a) ∷ rs) b u =
      rw (run, receive_message w w.status (add_accel a) u)
        (λ h. absurd (run-begun _ rs refl (λ x. cc x) h), λ h. cc h)
  run-panics w (message (codegen desc) ∷ rs) b u =
      rw (run, receive_message w w.status (codegen desc) u, b)
        (
          λ h. refl,
          λ h.
              ap (λ t. t.status)
                (ended_stays (record w { first_msg = true; status = panicked }) rs (inl refl)),
        )
  run-panics w (timeout alive ∷ rs) b u =
      let (b', e) = receive_timeout w w.status alive refl b u in
      run-panics (receive codegen_kernel w.status w (timeout alive)) rs b' (inr e)
  run-panics w (disconnected ∷ rs) b u =
      rw (run, receive_disconnected w w.status u)
        (
          λ h. absurd (
              cc (
                ap (λ t. t.status) (ended_stays (record w { status = returned }) rs (inr refl)),
                h,
              )),
          λ h. cc h,
        )

  -- The thread panics exactly if a request is the first message that it receives, however often it
  -- times out before.
  thread_panics :
      (rs : List (Received A K))
      → ((thread codegen_kernel rs).status ≡ panicked) ↔ (codegen_first rs ≡ true)
  unfolding thread
  thread_panics rs = run-panics _ rs refl (inl refl)
