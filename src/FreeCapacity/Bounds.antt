-- ===== src/FreeCapacity/Bounds.antt =====
-- What every interleaving of callers keeps.
use gridix_infra.Prelude.{
  zero, suc, ℕ, ◌+◌, ◌≤◌, ◌<◌, ◌≡◌, List, [], ◌∷◌, length, length-append, arith, suc, ◌⊎◌, ◌-◌, inl,
  ap, inr, refl, Bool-cases, ◌==◌, ==→eq,
}
use gridix_infra.FreeCapacity.{
  FreeCapacity, holding, queued, enter, leave, resume, cancel_queued, cancel_woken, release,
  remove_at, new_capacity, wake_up_next, wake_up,
}

pub data Step : FreeCapacity → FreeCapacity → Type 0 where
  enters_holding : {g h : FreeCapacity} (c : ℕ) → enter c g ≡ holding h → Step g h
  enters_queued : {g h : FreeCapacity} (c : ℕ) → enter c g ≡ queued h → Step g h
  leaves : {g : FreeCapacity} → 0 < g.holders → Step g (leave g)
  resumes : {g : FreeCapacity} (n : ℕ) → n < length g.woken → Step g (resume n g)
  cancels_queued : {g : FreeCapacity} (n : ℕ) → n < length g.queue → Step g (cancel_queued n g)
  cancels_woken : {g : FreeCapacity} (n : ℕ) → n < length g.woken → Step g (cancel_woken n g)

pub data Reach (slots queue_depth : ℕ) : FreeCapacity → Type 0 where
  start : Reach slots queue_depth (new_capacity slots queue_depth)
  next : {g h : FreeCapacity} → Reach slots queue_depth g → Step g h → Reach slots queue_depth h

-- The count of waiting callers is exact and within the depth, every slot is free, given or held,
-- and a slot is free while a caller is queued only until a woken caller runs.
abbrev pub IsBounded : ℕ → ℕ → FreeCapacity → Type 0
IsBounded slots depth g =
    (g.queue_depth ≡ depth)
    × (g.waiting ≡ length g.queue + length g.woken)
    × (g.waiting ≤ depth)
    × (g.free + length g.woken + g.holders ≡ slots)
    × ((length g.queue ≡ 0) ⊎ (g.free ≡ 0) ⊎ (1 ≤ length g.woken))

length-remove_at : (n : ℕ) (xs : List ℕ) → n < length xs → length (remove_at n xs) + 1 ≡ length xs
length-remove_at n [] h = ground arith
length-remove_at zero (x ∷ xs) h = omega arith
length-remove_at (suc n) (x ∷ xs) h = omega (arith, length-remove_at n xs (omega arith))

module _ (slots depth : ℕ) where
  -- The counts alone.
  abbrev IsCounted : FreeCapacity → Type 0
  IsCounted g =
      (g.queue_depth ≡ depth)
      × (g.waiting ≡ length g.queue + length g.woken)
      × (g.waiting ≤ depth)
      × (g.free + length g.woken + g.holders ≡ slots)

  wake_up_next-IsCounted :
      (g : FreeCapacity) (c : ℕ) (cs : List ℕ)
      → g.queue ≡ c ∷ cs
      → 0 < g.free
      → IsCounted g
      → IsCounted (wake_up_next (c ∷ cs) g)
  wake_up_next-IsCounted g c cs e f (d, w, b, s) =
      let whole : length g.queue ≡ suc (length cs) = ap length e in
      let more = length-append g.woken (c ∷ []) in (d, omega arith, b, omega arith)

  release-IsBounded :
      (g : FreeCapacity) (q : List ℕ)
      → g.queue ≡ q
      → 0 < g.free
      → IsCounted g
      → IsBounded slots depth (wake_up_next q g)
  release-IsBounded g [] e f (d, w, b, s) = (d, w, b, s, inl (ap length e))
  release-IsBounded g (c ∷ cs) e f h =
      let (d, w, b, s) = wake_up_next-IsCounted g c cs e f h in
      (d, w, b, s, inr (inr (omega (arith, length-append g.woken (c ∷ [])))))

  wake_up-IsBounded :
      (g : FreeCapacity) (q : List ℕ)
      → g.queue ≡ q
      → IsCounted g
      → IsBounded slots depth (wake_up q g)
  wake_up-IsBounded g [] e (d, w, b, s) = (d, w, b, s, inl (ap length e))
  wake_up-IsBounded g (c ∷ cs) e h = elim (Bool-cases (g.free == 0)) [
    | inl z ↦ rw z (h.0, h.1, h.2, h.3, inr (inl (==→eq _ _ z)))
    | inr z ↦ rw z (
        wake_up-IsBounded (wake_up_next (c ∷ cs) g) cs refl
          (wake_up_next-IsCounted g c cs e (ground arith) h))
  ]

  enter-holding :
      (c : ℕ) (g h : FreeCapacity)
      → enter c g ≡ holding h
      → IsBounded slots depth g
      → IsBounded slots depth h
  unfolding enter
  enter-holding c g h e b = ground arith

  enter-queued :
      (c : ℕ) (g h : FreeCapacity)
      → enter c g ≡ queued h
      → IsBounded slots depth g
      → IsBounded slots depth h
  unfolding enter
  enter-queued c g h e b = ground (arith, length-append g.queue (c ∷ []))

  Step-IsBounded :
      {g h : FreeCapacity} → Step g h → IsBounded slots depth g → IsBounded slots depth h
  unfolding leave release resume cancel_queued cancel_woken
  Step-IsBounded (enters_holding {g} {h} c e) b = enter-holding c g h e b
  Step-IsBounded (enters_queued {g} {h} c e) b = enter-queued c g h e b
  Step-IsBounded (leaves {g} p) (d, w, b, s, i) =
      release-IsBounded (record g { holders = g.holders - 1; free = g.free + 1 }) g.queue refl
        (omega arith) (d, w, b, omega arith)
  Step-IsBounded (resumes {g} n p) (d, w, b, s, i) =
      let less = length-remove_at n g.woken p in
      wake_up-IsBounded _ g.queue refl (d, omega arith, omega arith, omega arith)
  Step-IsBounded (cancels_queued {g} n p) (d, w, b, s, i) =
      let less = length-remove_at n g.queue p in
      wake_up-IsBounded _ (remove_at n g.queue) refl (d, omega arith, omega arith, s)
  Step-IsBounded (cancels_woken {g} n p) (d, w, b, s, i) =
      let less = length-remove_at n g.woken p in
      wake_up-IsBounded _ g.queue refl (d, omega arith, omega arith, omega arith)

-- Over every interleaving of callers that enter, leave, disconnect or are woken, the number of
-- waiting callers is exact and never above the depth of the queue, every slot is free, given to a
-- caller or held, so that no more callers than slots generate at once, and while a caller is queued
-- no slot is free, or some woken caller has yet to run.
pub Reach-IsBounded :
    {slots depth : ℕ} {g : FreeCapacity} → Reach slots depth g → IsBounded slots depth g
Reach-IsBounded {slots} {depth} start = (refl, refl, omega arith, omega arith, inl refl)
Reach-IsBounded {slots} {depth} (next r s) = Step-IsBounded slots depth s (Reach-IsBounded r)
