-- ===== src/Clock/Heap.antt =====
-- The order of the heap of `VirtualClock` (src/network/simulator.py), which `push` keeps.
use blockchain_application.Prelude.{
  ◌≤◌, ◌<◌, ◌≡◌, ◌≢◌, ◌⊎◌, inl, inr, List, [], ◌∷◌, arith, All-map, nat_eq, All, Bool-cases, sym,
}
use blockchain_application.Clock.{Event, Clock, precedes, push}

module _ {A : Type 0} where
  -- An earlier time, or the same time and an earlier number.
  abbrev pub Before : Event A → Event A → Type 0
  Before a b = (a.time < b.time) ⊎ ((a.time ≡ b.time) × (a.id < b.id))

  abbrev pub IsSorted : List (Event A) → Type 0
  IsSorted [] = Unit
  IsSorted (e ∷ heap) = All (Before e) heap × IsSorted heap

  abbrev pub Distinct : List (Event A) → Type 0
  Distinct [] = Unit
  Distinct (e ∷ heap) = All (λ f. f.id ≢ e.id) heap × Distinct heap

  pub record IsValid (c : Clock A) : Type 0 where
    pub sorted : IsSorted c.heap
    pub distinct : Distinct c.heap
    pub future : All (λ e. c.now ≤ e.time) c.heap
    pub numbered : All (λ e. e.id ≤ c.seq) c.heap

  pub All-push :
      (P : Event A → Type 0) (a : Event A) (heap : List (Event A))
      → P a
      → All P heap
      → All P (push a heap)
  unfolding push
  All-push P a [] p h = (p, tt)
  All-push P a (b ∷ heap) p h = elim (Bool-cases (precedes a b)) [
    | inl before ↦ rw before (p, h)
    | inr after ↦ rw after (h.0, All-push P a heap p h.1)
  ]

  pub Before-trans : (a b c : Event A) → Before a b → Before b c → Before a c
  Before-trans a b c h k = omega arith

  pub push-IsSorted :
      (a : Event A) (heap : List (Event A))
      → All (λ f. f.id ≢ a.id) heap
      → IsSorted heap
      → IsSorted (push a heap)
  unfolding push
  push-IsSorted a [] new h = (tt, tt)
  push-IsSorted a (b ∷ heap) new h = elim (Bool-cases (precedes a b)) [
    | inl before ↦
        let ab : Before a b = ground arith in
        rw before ((ab, All-map (Before b) (Before a) heap (λ c. Before-trans a b c ab) h.0), h)
    | inr after ↦
        let ba : Before b a = ground arith in
        rw after (All-push (Before b) a heap ba h.0, push-IsSorted a heap new.1 h.1)
  ]

  pub push-Distinct :
      (a : Event A) (heap : List (Event A))
      → All (λ f. f.id ≢ a.id) heap
      → Distinct heap
      → Distinct (push a heap)
  unfolding push
  push-Distinct a [] new h = (tt, tt)
  push-Distinct a (b ∷ heap) new h = elim (Bool-cases (precedes a b)) [
    | inl before ↦ rw before (new, h)
    | inr after ↦ rw after (
      All-push (λ f. f.id ≢ b.id) a heap (λ e. new.0 (sym e)) h.0,
      push-Distinct a heap new.1 h.1,
    )
  ]
