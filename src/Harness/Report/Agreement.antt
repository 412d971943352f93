-- ===== src/Harness/Report/Agreement.antt =====
-- What `assert_quorum_agreement` of src/main.py decides.
use blockchain_application.Prelude.{
  ℕ, ◌+◌, ◌≤◌, ◌<◌, ◌≡◌, ◌↔◌, refl, ap, String, Bool, true, false, Option, some, List, [], ◌∷◌,
  ◌++◌, arith, length, length-append, leb, ltb, if◌then◌else◌, ◌==◌, All, Option-cases, inl, inr,
}
use blockchain_application.Prelude.Dict
use blockchain_application.Prelude.Dict.{
  Dict, get_or-insert, get_or-some, get_or-none, All-insert, All-lookup,
}
use blockchain_application.Quorum.Counting.{count}
use blockchain_application.Harness.Outcome.{Outcome, done, ◌>>=◌, check, safety_violation}
use blockchain_application.Harness.Setup.{quorum_for}
use blockchain_application.Harness.Report.{
  option_eq, group_by_hash, longest, largest_of, assert_quorum_agreement,
}

abbrev Groups : Type 0
Groups = Dict (Option String) (List String)

-- How many nodes report a last hash.
abbrev pub reporting : Option String → Dict String (Option String) → ℕ
reporting h last_hashes = count (λ x. h == x) (Dict.values last_hashes)

abbrev members : Option String → Groups → List String
members h groups = Dict.get_or h [] groups

-- A group has as many members as there are nodes with its hash.
group_by_hash-members :
    (h : Option String) (groups : Groups) (last_hashes : Dict String (Option String))
    → length (members h (group_by_hash groups last_hashes))
      ≡ length (members h groups) + reporting h last_hashes
unfolding group_by_hash
group_by_hash-members h groups [] = omega arith
group_by_hash-members h groups ((i, k) ∷ last_hashes) = ground (
  arith,
  group_by_hash-members h (Dict.insert k (members k groups ++ (i ∷ [])) groups) last_hashes,
  get_or-insert h k [] (members k groups ++ (i ∷ [])) groups,
  length-append (members k groups) (i ∷ []),
)

-- No group has more members than that.
group_by_hash-All :
    (size : Option String → ℕ) (groups : Groups) (last_hashes : Dict String (Option String))
    → ((h : Option String) → length (members h groups) + reporting h last_hashes ≤ size h)
    → All (λ (h, g). length g ≤ size h) groups
    → All (λ (h, g). length g ≤ size h) (group_by_hash groups last_hashes)
unfolding group_by_hash
group_by_hash-All size groups [] small all = all
group_by_hash-All size groups ((i, k) ∷ last_hashes) small all =
    let g = members k groups ++ (i ∷ []) in
    group_by_hash-All size (Dict.insert k g groups) last_hashes
      (λ h.
        ground (
          arith,
          small h,
          get_or-insert h k [] g groups,
          length-append (members k groups) (i ∷ []),
        ))
      (All-insert _ k g groups (ground (arith, small k, length-append (members k groups) (i ∷ [])))
        all)

longest-le :
    (best : List String) (groups : List (List String)) → length best ≤ length (longest best groups)
unfolding longest
longest-le best [] = omega arith
longest-le best (g ∷ groups) = ground (arith, longest-le g groups, longest-le best groups)

longest-All :
    (P : List String → Type 0) (best : List String) (groups : List (List String))
    → P best
    → All P groups
    → P (longest best groups)
unfolding longest
longest-All P best [] first all = first
longest-All P best (g ∷ groups) first (here, all) =
    longest-All P (if ltb (length best) (length g) then g else best) groups
      (choose (ltb (length best) (length g))) all
  where
    choose : (b : Bool) → P (if b then g else best)
    choose true = here
    choose false = first

longest-upper :
    (best : List String) (groups : List (List String))
    → All (λ g. length g ≤ length (longest best groups)) groups
unfolding longest
longest-upper best [] = tt
longest-upper best (g ∷ groups) = (
  ground (arith, longest-le g groups, longest-le best groups),
  (longest-upper (if ltb (length best) (length g) then g else best) groups),
)

-- The check on the groups.
abbrev decided : ℕ → Groups → Outcome (Unit {0})
decided needed groups = largest_of (Dict.values groups) >>= λ largest.
    check (leb needed (length largest)) safety_violation

-- A group whose size is bounded by that of some hash.
abbrev Backed : (Option String → ℕ) → List String → Type 0
Backed size g = (h : Option String) × (length g ≤ size h)

All-Backed :
    (size : Option String → ℕ) (groups : Groups)
    → All (λ (h, g). length g ≤ size h) groups
    → All (Backed size) (Dict.values groups)
All-Backed size [] all = tt
All-Backed size ((h, g) ∷ groups) (here, all) = ((h, here), All-Backed size groups all)

decided_back :
    (needed : ℕ) (size : Option String → ℕ) (groups : Groups)
    → decided needed groups ≡ done tt
    → All (λ (h, g). length g ≤ size h) groups
    → (h : Option String) × (needed ≤ size h)
unfolding largest_of
decided_back needed size [] e all = absurd (ground arith)
decided_back needed size ((k, g) ∷ groups) e (here, all) =
    let (h, below) =
      longest-All (Backed size) g (Dict.values groups) (k, here) (All-Backed size groups all) in
    (h, ground arith)

All-values :
    (P : List String → Type 0) (groups : Groups)
    → All P (Dict.values groups)
    → All (λ (h, g). P g) groups
All-values P [] all = tt
All-values P ((h, g) ∷ groups) (here, all) = (here, All-values P groups all)

decided_forth :
    (needed : ℕ) (groups : Groups) (h : Option String) (g : List String)
    → Dict.lookup h groups ≡ some g
    → needed ≤ length g
    → decided needed groups ≡ done tt
unfolding largest_of Dict.lookup
decided_forth needed [] h g found big = absurd (ground arith)
decided_forth needed ((k, f) ∷ groups) h g found big =
    let best = longest f (Dict.values groups) in
    let below = λ (x : List String). length x ≤ length best in
    let upper =
      All-lookup (λ (_, x). length x ≤ length best) h g ((k, f) ∷ groups) found
        (
          longest-le f (Dict.values groups),
          All-values (λ x. length x ≤ length best) groups (longest-upper f (Dict.values groups)),
        ) in
    ground arith

-- The check passes exactly when, for some last hash, the number of nodes that report it is at least
-- the quorum.
pub assert_quorum_agreement_iff :
    (last_hashes : Dict String (Option String)) (num_nodes : ℕ)
    → (assert_quorum_agreement last_hashes num_nodes ≡ done tt)
      ↔ ((h : Option String) × (quorum_for num_nodes ≤ reporting h last_hashes))
unfolding assert_quorum_agreement quorum_for Dict.get_or Dict.lookup
assert_quorum_agreement_iff last_hashes num_nodes = (
  λ e.
      decided_back (quorum_for num_nodes) (λ h. reporting h last_hashes)
        (group_by_hash [] last_hashes) e
        (group_by_hash-All (λ h. reporting h last_hashes) [] last_hashes
          (λ h. omega (arith, no_members h)) tt),
  λ (h, enough).
      let size = group_by_hash-members h [] last_hashes in
      let groups = group_by_hash [] last_hashes in
      elim (Option-cases (Dict.lookup h groups)) [
        | inl absent ↦
            let none_there = get_or-none h [] groups absent in
            absurd
              (omega (arith, size, ap length none_there, quorum_for_pos num_nodes, no_members h))
        | inr (g, found) ↦
            let there = get_or-some h [] g groups found in
            decided_forth (quorum_for num_nodes) groups h g found
              (omega (arith, size, ap length there, no_members h))
      ],
)
  where
    no_members : (h : Option String) → length (members h []) ≡ 0
    no_members h = refl

    quorum_for_pos : (n : ℕ) → 0 < quorum_for n
    quorum_for_pos n = omega arith
