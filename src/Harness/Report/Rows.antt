-- ===== src/Harness/Report/Rows.antt =====
-- The rows of the table that `assert_no_conflicting_finalization` of src/main.py fills.
use blockchain_application.Prelude.{
  ℕ, suc, ◌+◌, ◌≡◌, refl, String, Bool, true, false, ◌||◌, some, List, [], ◌∷◌, arith, contains,
  if◌then◌else◌, ◌==◌, get_elem?, string_eq, nat_eq, All, inl, inr, Bool-cases, Option-cases, all,
}
use blockchain_application.Prelude.Dict
use blockchain_application.Prelude.Dict.{
  Dict, get_or-some, get_or-none, lookup-nil, All-insert, All-lookup,
}
use blockchain_application.Crypto.Signing.{Crypto}
use blockchain_application.Messages.Address.{short_addr}
use blockchain_application.Messages.Block
use blockchain_application.Messages.Block.{Block}
use blockchain_application.World.{Node}
use blockchain_application.Harness.Report.{HashTable, is_single, record_ledger, record_nodes}
use blockchain_application.Harness.Report.Table.{DistinctNames, entry, noted}
use blockchain_application.Harness.Report.Singles.{is_single-eq}

-- An honest node has finalized a block with the hash at the height.
abbrev pub Finalized : Crypto → Dict String Node → List String → ℕ → String → Type 0
Finalized C nodes byzantine_ids k h =
    (i : String) × (n : Node) × (b : Block) × (Dict.lookup i nodes ≡ some n)
    × (contains byzantine_ids i ≡ false)
    × (get_elem? n.engine.ledger k ≡ some b)
    × (Block.block_hash C b ≡ h)

-- Two hashes of blocks that honest nodes have finalized at the same height are the same.
abbrev pub Agrees : Crypto → Dict String Node → List String → Type 0
Agrees C nodes byzantine_ids =
    (k : ℕ) (g h : String)
    → Finalized C nodes byzantine_ids k g
    → Finalized C nodes byzantine_ids k h
    → g ≡ h

-- Some honest node has finalized a block.
abbrev pub HasBlock : Crypto → Dict String Node → List String → Type 0
HasBlock C nodes byzantine_ids = (k : ℕ) × (h : String) × Finalized C nodes byzantine_ids k h

contains-values-insert :
    (name h x : String) (d : Dict String String)
    → contains (Dict.values (Dict.insert name h d)) x ≡ true
    → (x == h || contains (Dict.values d) x) ≡ true
unfolding Dict.insert
contains-values-insert name h x [] e = e
contains-values-insert name h x ((j, v) ∷ d) e = ground (arith, contains-values-insert name h x d)

contains-values-insert_self :
    (name h : String) (d : Dict String String)
    → contains (Dict.values (Dict.insert name h d)) h ≡ true
unfolding Dict.insert
contains-values-insert_self name h [] = ground arith
contains-values-insert_self name h ((j, v) ∷ d) =
    ground (arith, contains-values-insert_self name h d)

contains-values-lookup :
    (a x : String) (d : Dict String String)
    → Dict.lookup a d ≡ some x
    → contains (Dict.values d) x ≡ true
unfolding Dict.lookup
contains-values-lookup a x [] e = absurd (ground arith)
contains-values-lookup a x ((j, v) ∷ d) e = ground (arith, contains-values-lookup a x d)

abbrev pub Single : ℕ × Dict String String → Type 0
Single (k, hashes) = is_single (Dict.values hashes) ≡ true

abbrev pub all_single : HashTable → Bool
all_single table = all (λ hashes. is_single (Dict.values hashes)) (Dict.values table)

pub all_single-All : (table : HashTable) → all_single table ≡ true → All Single table
all_single-All [] h = tt
all_single-All ((k, d) ∷ table) h = (ground arith, all_single-All table (ground arith))

pub All-all_single : (table : HashTable) → All Single table → all_single table ≡ true
All-all_single [] h = refl
All-all_single ((k, d) ∷ table) (first, h) = ground (arith, first, All-all_single table h)

-- Two hashes that the row of a height holds are the same when every row passes.
pub entries_agree :
    (table : HashTable) (a b : String) (k : ℕ) (x y : String)
    → all_single table ≡ true
    → entry a k table ≡ some x
    → entry b k table ≡ some y
    → x ≡ y
entries_agree table a b k x y single p q = elim (Option-cases (Dict.lookup k table)) [
  | inl absent ↦ absurd (lookup-nil a x (rw (get_or-none k [] table absent) at p))
  | inr (d, found) ↦
      is_single-eq (Dict.values d) x y
        (All-lookup Single k d table found (all_single-All table single))
        (contains-values-lookup a x d (rw (get_or-some k [] d table found) at p))
        (contains-values-lookup b y d (rw (get_or-some k [] d table found) at q))
]

module _ (R : ℕ → String → Type 0) where
  -- A row is not empty, and each hash in it is related to its height.
  abbrev pub Row : ℕ × Dict String String → Type 0
  Row (k, hashes) =
      ((h : String) × (contains (Dict.values hashes) h ≡ true))
      × ((h : String) → contains (Dict.values hashes) h ≡ true → R k h)

  row_values :
      (k : ℕ) (table : HashTable) (h : String)
      → All Row table
      → contains (Dict.values (Dict.get_or k [] table)) h ≡ true
      → R k h
  row_values k table h good e = elim (Option-cases (Dict.lookup k table)) [
    | inl absent ↦ absurd (nothing (rw (get_or-none k [] table absent) at e))
    | inr (d, found) ↦
        (All-lookup Row k d table found good).1 h (rw (get_or-some k [] d table found) at e)
  ]
    where
      nothing : false ≡ true → ⊥
      nothing c = ground arith

  noted-Row :
      (name : String) (k : ℕ) (h : String) (table : HashTable)
      → R k h
      → All Row table
      → All Row (noted name k h table)
  noted-Row name k h table new good =
      let row = Dict.get_or k [] table in
      All-insert Row k (Dict.insert name h row) table
        (
          (h, contains-values-insert_self name h row),
          λ x e. elim (Bool-cases (x == h)) [
            | inl same ↦ let is : x ≡ h = ground arith in rw is new
            | inr other ↦
                row_values k table x good (ground (arith, contains-values-insert name h x row))
          ],
        )
        good

  module _ (C : Crypto) where
    record_ledger-Row :
        (name : String) (height : ℕ) (ledger : List Block) (table : HashTable)
        → ((i : ℕ) (b : Block)
            → get_elem? ledger i ≡ some b
            → R (height + i) (Block.block_hash C b))
        → All Row table
        → All Row (record_ledger C name height ledger table)
    unfolding record_ledger
    record_ledger-Row name height [] table new good = good
    record_ledger-Row name height (b ∷ ledger) table new good =
        let first : height + 0 ≡ height = omega arith in
        record_ledger-Row name (height + 1) ledger _
          (λ i c e.
            let at : height + 1 + i ≡ height + suc i = omega arith in rw at (new (suc i) c e))
          (noted-Row name height (Block.block_hash C b) table (rw first at (new 0 b refl)) good)

    pub record_nodes-Row :
        (byzantine_ids : List String) (nodes : Dict String Node) (table : HashTable)
        → DistinctNames nodes
        → ((k : ℕ) (h : String) → Finalized C nodes byzantine_ids k h → R k h)
        → All Row table
        → All Row (record_nodes C byzantine_ids nodes table)
    unfolding record_nodes Dict.lookup Dict.has
    record_nodes-Row byzantine_ids [] table names from good = good
    record_nodes-Row byzantine_ids ((i, n) ∷ nodes) table (apart, names) from good =
        record_nodes-Row byzantine_ids nodes _ names
          (λ k h (j, m, b, found, honest, e, is). from k h (
            j,
            m,
            b,
            elim (Bool-cases (j == i)) [
              | inl same ↦
                  let it : i ≡ j = ground arith in
                  absurd (own_name i (rw (← it) at (apart j (ground arith))))
              | inr other ↦ rw other found
            ],
            honest,
            e,
            is,
          ))
          (skip (contains byzantine_ids i) refl)
      where
        own_name : (a : String) → (short_addr a == short_addr a) ≡ false → ⊥
        own_name a e = absurd (ground arith)

        skip :
            (b : Bool)
            → contains byzantine_ids i ≡ b
            → All Row (if b then table else record_ledger C (short_addr i) 0 n.engine.ledger table)
        skip true e = good
        skip false e =
            record_ledger-Row (short_addr i) 0 n.engine.ledger table
              (λ k b at.
                let start : 0 + k ≡ k = omega arith in
                rw start (from k (Block.block_hash C b) (i, n, b, (ground arith), e, at, refl)))
              good
