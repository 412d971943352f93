-- ===== src/Clock/Cancel.antt =====
-- A cancelled event never fires (`cancel` and `run` of `VirtualClock`).
use blockchain_application.Prelude.{
  ℕ, ◌+◌, ◌≤◌, ◌≡◌, ◌≢◌, ◌⊎◌, inl, inr, refl, true, false, Option, none, some, List, [], ◌∷◌, arith,
  ◌==◌, contains, keep, nat_eq, All, not, Bool-cases, ap,
}
use blockchain_application.Clock.{
  Event, Clock, Popped, idle, skipped, expired, fire, push, schedule, cancel, is_after, pop_from,
  pop,
}
use blockchain_application.Clock.Heap.{IsValid, Distinct, All-push}
use blockchain_application.Clock.Order.{schedule-IsValid, cancel-IsValid, pop-IsValid, Leaves}

-- What the program does with its clock.
pub data Op (A : Type 0) : Type 0 where
  scheduling : (delay : ℕ) → A → Op A
  cancelling : Option ℕ → Op A
  popping : (until : Option ℕ) → Op A

contains-keep_ne :
    (xs : List ℕ) (id other : ℕ)
    → id ≢ other
    → contains xs id ≡ true
    → contains (keep (λ i. not (i == other)) xs) id ≡ true
contains-keep_ne [] id other ne h = h
contains-keep_ne (x ∷ xs) id other ne h = ground (arith, contains-keep_ne xs id other ne)

module _ {A : Type 0} where
  -- The clock after a round of the loop, and the event that fired.
  abbrev after_pop : Clock A → Popped A → Clock A × Option (Event A)
  after_pop c idle = (c, none)
  after_pop c (skipped c') = (c', none)
  after_pop c (expired c') = (c', none)
  after_pop c (fire e c') = (c', some e)

  unfoldable pub act : Op A → Clock A → Clock A × Option (Event A)
  act (scheduling delay callback) c = (schedule delay callback c, none)
  act (cancelling id) c = (cancel id c, none)
  act (popping until) c = after_pop c (pop until c)

  abbrev add_event : Option (Event A) → List (Event A) → List (Event A)
  add_event none es = es
  add_event (some e) es = e ∷ es

  -- The events that fire over a sequence of operations, in order.
  unfoldable pub fired : List (Op A) → Clock A → List (Event A)
  fired [] c = []
  fired (op ∷ ops) c = let (c', e) = act op c in let rest = fired ops c' in add_event e rest

  -- The event of this number is cancelled, or it has left the heap.
  pub record IsSilent (id : ℕ) (c : Clock A) : Type 0 where
    pub valid : IsValid c
    pub known : id ≤ c.seq
    pub gone : (contains c.cancelled id ≡ true) ⊎ All (λ e. e.id ≢ id) c.heap

  schedule-IsSilent :
      (id delay : ℕ) (callback : A) (c : Clock A)
      → IsSilent id c
      → IsSilent id (schedule delay callback c)
  unfolding schedule
  schedule-IsSilent id delay callback c s = record {
    valid = schedule-IsValid delay callback c s.valid;
    known = omega (arith, s.known);
    gone = elim s.gone [
      | inl cancelled ↦ inl cancelled
      | inr absent ↦ inr (
          All-push (λ e. e.id ≢ id)
            (record { time = c.now + delay; id = c.seq + 1; callback = callback }) c.heap
            (omega (arith, s.known)) absent)
    ];
  }

  cancel-IsSilent :
      (id : ℕ) (other : Option ℕ) (c : Clock A) → IsSilent id c → IsSilent id (cancel other c)
  unfolding cancel
  cancel-IsSilent id none c s = s
  cancel-IsSilent id (some i) c s = record {
    valid = cancel-IsValid (some i) c s.valid;
    known = s.known;
    gone = elim s.gone [ inl cancelled ↦ inl (ground arith) | inr absent ↦ inr absent ];
  }

  -- What follows for the event that fired, if any.
  abbrev IsOther : ℕ → Option (Event A) → Type 0
  IsOther id none = Unit
  IsOther id (some e) = e.id ≢ id

  abbrev Gone : ℕ → List (Event A) → List ℕ → Type 0
  Gone id heap cancelled = (contains cancelled id ≡ true) ⊎ All (λ (e : Event A). e.id ≢ id) heap

  -- The cases of a round of the loop at the heap's first event.
  abbrev Silenced : ℕ → Popped A → Type 0
  Silenced id idle = Unit
  Silenced id (skipped c) = Gone id c.heap c.cancelled
  Silenced id (expired c) = Gone id c.heap c.cancelled
  Silenced id (fire e c) = (e.id ≢ id) × Gone id c.heap c.cancelled

  skip-Gone :
      (id : ℕ) (x : Event A) (heap : List (Event A)) (cancelled : List ℕ)
      → Distinct (x ∷ heap)
      → Gone id (x ∷ heap) cancelled
      → Gone id heap (keep (λ i. not (i == x.id)) cancelled)
  skip-Gone id x heap cancelled d (inr absent) = inr absent.1
  skip-Gone id x heap cancelled d (inl listed) = elim (nat_eq.dec id x.id) [
    | yes same ↦ inr (rw same d.0)
    | no other ↦ inl (contains-keep_ne cancelled id x.id other listed)
  ]

  pop_from-Silenced :
      (id : ℕ) (until : Option ℕ) (heap : List (Event A)) (c : Clock A)
      → Distinct heap
      → Gone id heap c.cancelled
      → Silenced id (pop_from until heap c)
  unfolding pop_from
  pop_from-Silenced id until [] c d gone = tt
  pop_from-Silenced id until (x ∷ heap) c d gone = elim (Bool-cases (contains c.cancelled x.id)) [
    | inl listed ↦ rw listed (skip-Gone id x heap c.cancelled d gone)
    | inr live ↦ rw live (elim (Bool-cases (is_after x.time until)) [
      | inl late ↦ rw late (repush-Gone gone)
      | inr due ↦ rw due (fire-Gone live gone)
    ])
  ]
    where
      repush-Gone : Gone id (x ∷ heap) c.cancelled → Gone id (push x heap) c.cancelled
      repush-Gone (inl listed) = inl listed
      repush-Gone (inr absent) = inr (All-push (λ e. e.id ≢ id) x heap absent.0 absent.1)

      fire-Gone :
          contains c.cancelled x.id ≡ false
          → Gone id (x ∷ heap) c.cancelled
          → (x.id ≢ id) × Gone id heap c.cancelled
      fire-Gone live (inl listed) = (λ e. clash e, inl listed)
        where
          clash : x.id ≡ id → ⊥
          clash e = cc (ap (contains c.cancelled) e)
      fire-Gone live (inr absent) = (absent.0, inr absent.1)

  pop_from-seq :
      (until : Option ℕ) (heap : List (Event A)) (c : Clock A)
      → Leaves (pop_from until heap c) (λ d. d.seq ≡ c.seq)
  unfolding pop_from
  pop_from-seq until [] c = tt
  pop_from-seq until (x ∷ heap) c = elim (Bool-cases (contains c.cancelled x.id)) [
    | inl listed ↦ rw listed refl
    | inr live ↦ rw live (elim (Bool-cases (is_after x.time until)) [
      | inl late ↦ rw late refl
      | inr due ↦ rw due refl
    ])
  ]

  -- An operation leaves the event silent, and fires another one if any.
  abbrev Quiet : ℕ → Clock A × Option (Event A) → Type 0
  Quiet id r = IsSilent id r.0 × IsOther id r.1

  after_pop-Quiet :
      (id : ℕ) (c : Clock A) (p : Popped A)
      → IsSilent id c
      → Leaves p IsValid
      → Leaves p (λ d. d.seq ≡ c.seq)
      → Silenced id p
      → Quiet id (after_pop c p)
  after_pop-Quiet id c idle s v n gone = (s, tt)
  after_pop-Quiet id c (skipped d) s v n gone =
      (record { valid = v; known = omega (arith, s.known); gone = gone }, tt)
  after_pop-Quiet id c (expired d) s v n gone =
      (record { valid = v; known = omega (arith, s.known); gone = gone }, tt)
  after_pop-Quiet id c (fire e d) s v n gone =
      (record { valid = v; known = omega (arith, s.known); gone = gone.1 }, gone.0)

  act-Quiet : (id : ℕ) (op : Op A) (c : Clock A) → IsSilent id c → Quiet id (act op c)
  unfolding act pop
  act-Quiet id (scheduling delay callback) c s = (schedule-IsSilent id delay callback c s, tt)
  act-Quiet id (cancelling other) c s = (cancel-IsSilent id other c s, tt)
  act-Quiet id (popping until) c s =
      after_pop-Quiet id c (pop until c) s (pop-IsValid until c s.valid)
        (pop_from-seq until c.heap c) (pop_from-Silenced id until c.heap c s.valid.distinct s.gone)

  All-add_event :
      (id : ℕ) (e : Option (Event A)) (es : List (Event A))
      → IsOther id e
      → All (λ f. f.id ≢ id) es
      → All (λ f. f.id ≢ id) (add_event e es)
  All-add_event id none es other rest = rest
  All-add_event id (some e) es other rest = (other, rest)

  silent_never_fires :
      (id : ℕ) (ops : List (Op A)) (c : Clock A)
      → IsSilent id c
      → All (λ e. e.id ≢ id) (fired ops c)
  unfolding fired
  silent_never_fires id [] c s = tt
  silent_never_fires id (op ∷ ops) c s =
      let (silent, other) = act-Quiet id op c s in
      All-add_event id (act op c).1 (fired ops (act op c).0) other
        (silent_never_fires id ops (act op c).0 silent)

  -- After the cancellation of a number that a valid clock has given out, no sequence of scheduling,
  -- cancelling and running rounds of the loop fires the event of that number.
  pub cancelled_never_fires :
      (id : ℕ) (ops : List (Op A)) (c : Clock A)
      → IsValid c
      → id ≤ c.seq
      → All (λ e. e.id ≢ id) (fired ops (cancel (some id) c))
  unfolding cancel
  cancelled_never_fires id ops c v known = silent_never_fires id ops (cancel (some id) c) (record {
    valid = cancel-IsValid (some id) c v;
    known = known;
    gone = inl (ground (arith, nat_eq));
  })
