-- ===== src/Codegen/Worker.antt =====
-- `WorkerTranslatorData::thread` of runtime-core/src/codegen/worker/mod.rs, the loop of the codegen
-- thread over what its channel delivers.
use geobacter.Prelude.{Bool, true, false, not, ◌&&◌, ◌||◌, if◌then◌else◌, List, [], ◌∷◌, ◌++◌}

-- `enum Message`, with the handle that the answer goes to left to the position in the list of
-- answers. `A` stands for the weak references of devices.
pub data Message (A K : Type 0) : Type 0 where
  add_accel : A → Message A K
  codegen : K → Message A K

-- What a receive call of the channel gives: a message, the time that ran out, with the devices that
-- are alive by then, or the end of the senders.
pub data Received (A K : Type 0) : Type 0 where
  message : Message A K → Received A K
  timeout : (A → Bool) → Received A K
  disconnected : Received A K

-- In `recv_timeout`, in `recv`, which does not time out, and the ends of the loop.
pub data Status : Type 0 where
  receiving blocked returned panicked : Status

-- The local state of the loop, the devices, and the answers that were sent, the first one first.
pub record Worker (A X : Type 0) : Type 0 where
  pub accels : List A
  pub first_msg : Bool
  pub answers : List X
  pub status : Status

abbrev pub any : {A : Type 0} → (A → Bool) → List A → Bool
any p [] = false
any p (x ∷ xs) = p x || any p xs

module _ {A K X : Type 0} (codegen_kernel : K → X) where
  -- The match on a message.
  unfoldable pub on_message : Worker A X → Message A K → Worker A X
  on_message w (add_accel a) = record w {
    accels = w.accels ++ a ∷ [];
    first_msg = false;
    status = receiving;
  }
  on_message w (codegen desc) =
      if w.first_msg
      then record w { status = panicked }
      else record w { answers = w.answers ++ codegen_kernel desc ∷ []; status = receiving }

  -- The test after a timeout: the loop ends, or goes to wait without a limit.
  unfoldable pub on_timeout : Worker A X → (A → Bool) → Worker A X
  on_timeout w alive =
      let live = any alive w.accels in
      if not live && not w.first_msg
      then record w { status = returned }
      else record w { status = blocked }

  -- One receive. A worker that has ended receives nothing.
  unfoldable pub receive : Status → Worker A X → Received A K → Worker A X
  receive returned w r = w
  receive panicked w r = w
  receive receiving w (message m) = on_message w m
  receive receiving w (timeout alive) = on_timeout w alive
  receive receiving w disconnected = record w { status = returned }
  receive blocked w (message m) = on_message w m
  receive blocked w (timeout alive) = w
  receive blocked w disconnected = record w { status = returned }

  unfoldable pub run : Worker A X → List (Received A K) → Worker A X
  run w [] = w
  run w (r ∷ rs) = run (receive w.status w r) rs

  unfoldable pub thread : List (Received A K) → Worker A X
  unfolding run
  thread rs = run (record { accels = []; first_msg = true; answers = []; status = receiving }) rs
