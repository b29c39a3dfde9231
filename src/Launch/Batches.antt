-- ===== src/Launch/Batches.antt =====
-- What the loops of `Launch.Barriers` put into the ring.
use geobacter.Prelude.{
  ℕ, ◌+◌, ◌*◌, ◌≤◌, ◌<◌, ◌≡◌, refl, ap, ◌∙◌, List, [], ◌∷◌, ◌++◌, length, ◌==◌, true, false, arith,
  length-append, Bool-cases, inl, inr,
}
use geobacter.Launch.Barriers.{count_packets}

-- The dependencies in groups of five, the last one shorter, with `signals` gathered already.
unfoldable pub batches : List ℕ → List ℕ → List (List ℕ)
batches [] [] = []
batches (s ∷ signals) [] = (s ∷ signals) ∷ []
batches signals (d ∷ deps) = elim (length (signals ++ d ∷ []) == 5) [
  | true ↦ (signals ++ d ∷ []) ∷ batches [] deps
  | false ↦ batches (signals ++ d ∷ []) deps
]

abbrev pub concat : List (List ℕ) → List ℕ
concat [] = []
concat (b ∷ bs) = b ++ concat bs

abbrev gathered : List ℕ → ℕ → List ℕ
gathered signals d = signals ++ d ∷ []

length-gathered : (signals : List ℕ) (d : ℕ) → length (gathered signals d) ≡ length signals + 1
length-gathered signals d = length-append signals (d ∷ [])

regather : (signals deps : List ℕ) (d : ℕ) → gathered signals d ++ deps ≡ signals ++ d ∷ deps
regather [] deps d = refl
regather (s ∷ signals) deps d = ap (λ t. s ∷ t) (regather signals deps d)

module _ (signals : List ℕ) (d : ℕ) (deps : List ℕ) where
  pub batches-full :
      length (signals ++ d ∷ []) == 5 ≡ true
      → batches signals (d ∷ deps) ≡ (signals ++ d ∷ []) ∷ batches [] deps
  unfolding batches
  batches-full five = rw (five, batches)

  pub batches-few :
      length (signals ++ d ∷ []) == 5 ≡ false
      → batches signals (d ∷ deps) ≡ batches (signals ++ d ∷ []) deps
  unfolding batches
  batches-few few = rw (few, batches)

-- The batches are all dependencies in order, and there are as many as a fifth of them, rounded up.
pub batches-concat :
    (signals deps : List ℕ)
    → length signals < 5
    → (concat (batches signals deps) ≡ signals ++ deps)
      × (length signals + length deps ≤ 5 * length (batches signals deps))
      × (5 * length (batches signals deps) < length signals + length deps + 5)
unfolding batches
batches-concat [] [] h = ground arith
batches-concat (s ∷ signals) [] h = (refl, omega arith, omega arith)
batches-concat signals (d ∷ deps) h = elim (Bool-cases (length (signals ++ d ∷ []) == 5)) [
  | inl five ↦
      let (joined, lo, hi) = batches-concat [] deps (omega arith) in
      let n = length-gathered signals d in
      (
        rw (five, batches) (ap (λ t. gathered signals d ++ t) joined ∙ regather signals deps d),
        rw (five, batches) (ground arith),
        rw (five, batches) (ground arith),
      )
  | inr few ↦
      let n = length-gathered signals d in
      let (joined, lo, hi) = batches-concat (signals ++ d ∷ []) deps (ground arith) in
      (
        rw (few, batches) (joined ∙ regather signals deps d),
        rw (few, batches) (ground arith),
        rw (few, batches) (ground arith),
      )
]

pub count_packets-batches :
    (packets : ℕ) (signals deps : List ℕ)
    → length signals < 5
    → count_packets packets (length signals) deps ≡ packets + length (batches signals deps)
unfolding batches count_packets
count_packets-batches packets [] [] h = ground arith
count_packets-batches packets (s ∷ signals) [] h = ground arith
count_packets-batches packets signals (d ∷ deps) h =
    elim (Bool-cases (length (signals ++ d ∷ []) == 5)) [
      | inl five ↦
          let n = length-gathered signals d in
          rw (← length-gathered signals d, five, count_packets, batches)
            (count_packets-batches (packets + 1) [] deps (omega arith) ∙ omega arith)
      | inr few ↦
          let n = length-gathered signals d in
          rw (← length-gathered signals d, few, count_packets, batches)
            (count_packets-batches packets (gathered signals d) deps (ground arith))
    ]
