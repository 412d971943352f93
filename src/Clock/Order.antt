-- ===== src/Clock/Order.antt =====
-- The clock runs forwards, and equal times are resolved by the order of scheduling.
use blockchain_application.Prelude.{
  ℕ, ◌+◌, ◌≤◌, ◌≡◌, ◌≢◌, inl, inr, refl, true, false, Option, none, some, List, [], ◌∷◌, arith,
  All-map, contains, nat_eq, All, Bool-cases,
}
use blockchain_application.Clock.{
  Event, Clock, Popped, idle, skipped, expired, fire, push, schedule, cancel, is_after, deadline_or,
  pop_from, pop,
}
use blockchain_application.Clock.Heap.{Before, IsValid, All-push, push-IsSorted, push-Distinct}

module _ {A : Type 0} where
  -- `schedule` keeps the clock valid: the heap is in order, with distinct numbers that the clock
  -- has given out, and nothing in it lies in the past.
  pub schedule-IsValid :
      (delay : ℕ) (callback : A) (c : Clock A) → IsValid c → IsValid (schedule delay callback c)
  unfolding schedule
  schedule-IsValid delay callback c v =
      let new =
        All-map (λ e. e.id ≤ c.seq) (λ e. e.id ≢ c.seq + 1) c.heap (λ e h. omega arith)
          v.numbered in
      let e : Event A = record { time = c.now + delay; id = c.seq + 1; callback = callback } in
      record {
        sorted = push-IsSorted e c.heap new v.sorted;
        distinct = push-Distinct e c.heap new v.distinct;
        future = All-push (λ f. c.now ≤ f.time) e c.heap (omega arith) v.future;
        numbered =
            All-push (λ f. f.id ≤ c.seq + 1) e c.heap (omega arith)
              (All-map (λ f. f.id ≤ c.seq) (λ f. f.id ≤ c.seq + 1) c.heap (λ f h. omega arith)
                v.numbered);
      }

  pub cancel-IsValid : (id : Option ℕ) (c : Clock A) → IsValid c → IsValid (cancel id c)
  unfolding cancel
  cancel-IsValid none c v = v
  cancel-IsValid (some id) c v = record {
    sorted = v.sorted;
    distinct = v.distinct;
    future = v.future;
    numbered = v.numbered;
  }

  Before-le : (a b : Event A) → Before a b → a.time ≤ b.time
  Before-le a b h = omega arith

  -- What the rest of the heap satisfies once its first event is gone, at that event's time.
  rest-IsValid :
      (e : Event A) (heap : List (Event A)) (c : Clock A) (cancelled : List ℕ)
      → c.heap ≡ e ∷ heap
      → IsValid c
      → IsValid (record { now = e.time; heap = heap; seq = c.seq; cancelled = cancelled })
  rest-IsValid e heap c cancelled is v =
      let sorted = rw is at v.sorted in
      record {
        sorted = (rw is at v.sorted).1;
        distinct = (rw is at v.distinct).1;
        future = All-map (Before e) (λ f. e.time ≤ f.time) heap (Before-le e) (rw is at v.sorted).0;
        numbered = (rw is at v.numbered).1;
      }

  fire_from :
      (until : Option ℕ) (x : Event A) (heap : List (Event A)) (c : Clock A) (e : Event A)
      (c' : Clock A)
      → pop_from until (x ∷ heap) c ≡ fire e c'
      → (e ≡ x)
        × (c' ≡ record { now = x.time; heap = heap; seq = c.seq; cancelled = c.cancelled })
        × (contains c.cancelled x.id ≡ false)
        × (is_after x.time until ≡ false)
  unfolding pop_from
  fire_from until x heap c e c' h = ground arith

  abbrev Fired : Clock A → Event A → Clock A → Type 0
  Fired c e c' =
      (c.now ≤ e.time)
      × (c'.now ≡ e.time)
      × (contains c.cancelled e.id ≡ false)
      × All (Before e) c'.heap
      × IsValid c'

  fire_at :
      (until : Option ℕ) (heap : List (Event A)) (c : Clock A) (e : Event A) (c' : Clock A)
      → c.heap ≡ heap
      → IsValid c
      → pop_from until heap c ≡ fire e c'
      → Fired c e c'
  unfolding pop_from
  fire_at until [] c e c' is v h = absurd (cc)
  fire_at until (x ∷ heap) c e c' is v h =
      let (same, left, live, _) = fire_from until x heap c e c' h in
      rw (same, left)
        (
          (rw is at v.future).0,
          refl,
          live,
          (rw is at v.sorted).0,
          rest-IsValid x heap c c.cancelled is v,
        )

  -- From a valid clock, an event that fires was not cancelled and is not in the past; the clock then
  -- shows its time, every other event comes later or was scheduled later for the same time, and
  -- the clock is valid again.
  pub pop_fires :
      (until : Option ℕ) (c : Clock A) (e : Event A) (c' : Clock A)
      → IsValid c
      → pop until c ≡ fire e c'
      → (c.now ≤ e.time)
        × (c'.now ≡ e.time)
        × (contains c.cancelled e.id ≡ false)
        × All (Before e) c'.heap
        × IsValid c'
  unfolding pop
  pop_fires until c e c' v h = fire_at until c.heap c e c' refl v h

  -- The clock that one round of the loop leaves behind.
  abbrev pub Leaves : Popped A → (Clock A → Type 0) → Type 0
  Leaves idle P = Unit
  Leaves (skipped c) P = P c
  Leaves (expired c) P = P c
  Leaves (fire e c) P = P c

  push-first : (e : Event A) (heap : List (Event A)) → All (Before e) heap → push e heap ≡ e ∷ heap
  unfolding push
  push-first e [] h = refl
  push-first e (f ∷ heap) h = ground arith

  repush-IsValid :
      (until : Option ℕ) (e : Event A) (heap : List (Event A)) (c : Clock A)
      → c.heap ≡ e ∷ heap
      → is_after e.time until ≡ true
      → IsValid c
      → IsValid (record c { heap = push e heap; now = deadline_or until c.now })
  repush-IsValid none e heap c is late v = absurd (cc)
  repush-IsValid (some deadline) e heap c is late v =
      rw (push-first e heap (rw is at v.sorted).0) record {
        sorted = rw is at v.sorted;
        distinct = rw is at v.distinct;
        future = (
          ground arith,
          All-map (Before e) (λ f. deadline ≤ f.time) heap (λ f b. ground (arith, b))
              (rw is at v.sorted).0,
        );
        numbered = rw is at v.numbered;
      }

  skip-IsValid :
      (e : Event A) (heap : List (Event A)) (c : Clock A) (cancelled : List ℕ)
      → c.heap ≡ e ∷ heap
      → IsValid c
      → IsValid (record c { heap = heap; cancelled = cancelled })
  skip-IsValid e heap c cancelled is v = record {
    sorted = (rw is at v.sorted).1;
    distinct = (rw is at v.distinct).1;
    future = (rw is at v.future).1;
    numbered = (rw is at v.numbered).1;
  }

  leave_at :
      (until : Option ℕ) (heap : List (Event A)) (c : Clock A)
      → c.heap ≡ heap
      → IsValid c
      → Leaves (pop_from until heap c) IsValid
  unfolding pop_from
  leave_at until [] c is v = tt
  leave_at until (e ∷ heap) c is v = elim (Bool-cases (contains c.cancelled e.id)) [
    | inl gone ↦ rw gone (skip-IsValid e heap c _ is v)
    | inr live ↦ rw live (elim (Bool-cases (is_after e.time until)) [
      | inl late ↦ rw late (repush-IsValid until e heap c is late v)
      | inr due ↦ rw due (rest-IsValid e heap c c.cancelled is v)
    ])
  ]

  -- One round of the loop keeps the clock valid: the heap is in order, with distinct numbers that
  -- the clock has given out, and nothing in it lies in the past.
  pub pop-IsValid : (until : Option ℕ) (c : Clock A) → IsValid c → Leaves (pop until c) IsValid
  unfolding pop
  pop-IsValid until c v = leave_at until c.heap c refl v
