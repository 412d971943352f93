-- ===== src/Harness/Report/Table.antt =====
-- The table that `assert_no_conflicting_finalization` of src/main.py fills.
use blockchain_application.Prelude.{
  ℕ, zero, suc, ◌+◌, ◌<◌, ◌≡◌, refl, ◌∙◌, String, Bool, true, false, Option, some, List, [], ◌∷◌,
  arith, contains, if◌then◌else◌, ◌==◌, get_elem?, string_eq, nat_eq, inl, inr, Bool-cases,
}
use blockchain_application.Prelude.Dict
use blockchain_application.Prelude.Dict.{Dict, lookup-insert}
use blockchain_application.Crypto.Signing.{Crypto}
use blockchain_application.Messages.Address.{short_addr}
use blockchain_application.Messages.Block
use blockchain_application.Messages.Block.{Block}
use blockchain_application.World.{Node}
use blockchain_application.Harness.Report.{HashTable, record_ledger, record_nodes}

-- Each node's short name differs from those of the nodes after it.
abbrev pub DistinctNames : Dict String Node → Type 0
DistinctNames [] = Unit
DistinctNames ((i, n) ∷ nodes) =
    ((j : String) → Dict.has j nodes ≡ true → (short_addr i == short_addr j) ≡ false)
    × DistinctNames nodes

-- The hash that is recorded for a name at a height.
abbrev pub entry : String → ℕ → HashTable → Option String
entry name height table = Dict.lookup name (Dict.get_or height [] table)

-- The table after one more entry.
abbrev pub noted : String → ℕ → String → HashTable → HashTable
noted name height h table =
    Dict.insert height (Dict.insert name h (Dict.get_or height [] table)) table

entry-noted :
    (j name : String) (k height : ℕ) (h : String) (table : HashTable)
    → entry j k (noted name height h table)
      ≡ (if k == height then (if j == name then some h else entry j k table) else entry j k table)
unfolding Dict.get_or
entry-noted j name k height h table = ground (
  arith,
  lookup-insert k height (Dict.insert name h (Dict.get_or height [] table)) table,
  lookup-insert j name h (Dict.get_or height [] table),
)

module _ (C : Crypto) where
  record_ledger-others :
      (j name : String) (k height : ℕ) (ledger : List Block) (table : HashTable)
      → (j == name) ≡ false
      → entry j k (record_ledger C name height ledger table) ≡ entry j k table
  unfolding record_ledger
  record_ledger-others j name k height [] table other = refl
  record_ledger-others j name k height (b ∷ ledger) table other =
      let h = Block.block_hash C b in
      record_ledger-others j name k (height + 1) ledger (noted name height h table) other
      ∙ ground (arith, entry-noted j name k height h table)

  record_ledger-below :
      (name : String) (k height : ℕ) (ledger : List Block) (table : HashTable)
      → k < height
      → entry name k (record_ledger C name height ledger table) ≡ entry name k table
  unfolding record_ledger
  record_ledger-below name k height [] table low = refl
  record_ledger-below name k height (b ∷ ledger) table low =
      let h = Block.block_hash C b in
      record_ledger-below name k (height + 1) ledger (noted name height h table) (omega arith)
      ∙ ground (arith, entry-noted name name k height h table)

  record_ledger-at :
      (name : String) (i height : ℕ) (ledger : List Block) (table : HashTable) (b : Block)
      → get_elem? ledger i ≡ some b
      → entry name (height + i) (record_ledger C name height ledger table)
        ≡ some (Block.block_hash C b)
  unfolding record_ledger
  record_ledger-at name i height [] table b e = absurd (ground arith)
  record_ledger-at name zero height (a ∷ ledger) table b e =
      let h = Block.block_hash C a in
      let is : a ≡ b = ground arith in
      let at : height + 0 ≡ height = omega arith in
      rw at (
        record_ledger-below name height (height + 1) ledger (noted name height h table)
          (omega arith)
        ∙ ground (arith, entry-noted name name height height h table, is))
  record_ledger-at name (suc i) height (a ∷ ledger) table b e =
      let h = Block.block_hash C a in
      let at : height + suc i ≡ height + 1 + i = omega arith in
      rw at (record_ledger-at name i (height + 1) ledger (noted name height h table) b e)

  record_ledger-whole :
      (name : String) (k : ℕ) (ledger : List Block) (table : HashTable) (b : Block)
      → get_elem? ledger k ≡ some b
      → entry name k (record_ledger C name 0 ledger table) ≡ some (Block.block_hash C b)
  record_ledger-whole name k ledger table b e =
      let start : 0 + k ≡ k = omega arith in
      rw start at (record_ledger-at name k 0 ledger table b e)

  record_nodes-others :
      (byzantine_ids : List String) (name : String) (k : ℕ) (nodes : Dict String Node)
      (table : HashTable)
      → ((j : String) → Dict.has j nodes ≡ true → (name == short_addr j) ≡ false)
      → entry name k (record_nodes C byzantine_ids nodes table) ≡ entry name k table
  unfolding record_nodes Dict.has Dict.lookup
  record_nodes-others byzantine_ids name k [] table other = refl
  record_nodes-others byzantine_ids name k ((i, n) ∷ nodes) table other =
      record_nodes-others byzantine_ids name k nodes _ (λ j h. other j (ground arith))
      ∙ skip (contains byzantine_ids i)
    where
      skip :
          (b : Bool)
          → entry name k
              (if b then table else record_ledger C (short_addr i) 0 n.engine.ledger table)
            ≡ entry name k table
      skip true = refl
      skip false =
          record_ledger-others name (short_addr i) k 0 n.engine.ledger table
            (other i (ground arith))

  -- Every block of an honest node is in the table, under the node's name and the block's height.
  pub record_nodes-at :
      (byzantine_ids : List String) (nodes : Dict String Node) (table : HashTable) (i : String)
      (n : Node) (k : ℕ) (b : Block)
      → DistinctNames nodes
      → Dict.lookup i nodes ≡ some n
      → contains byzantine_ids i ≡ false
      → get_elem? n.engine.ledger k ≡ some b
      → entry (short_addr i) k (record_nodes C byzantine_ids nodes table)
        ≡ some (Block.block_hash C b)
  unfolding record_nodes Dict.lookup
  record_nodes-at byzantine_ids [] table i n k b names found honest e = absurd (ground arith)
  record_nodes-at byzantine_ids ((j, m) ∷ nodes) table i n k b (apart, names) found honest e =
      elim (Bool-cases (i == j)) [
        | inl same ↦
            let is : i ≡ j = ground arith in
            let it : m ≡ n = ground arith in
            let free : contains byzantine_ids j ≡ false = rw (← is) honest in
            rw (is, free, it)
              (record_nodes-others byzantine_ids (short_addr j) k nodes _ apart
                ∙ record_ledger-whole (short_addr j) k n.engine.ledger table b e)
        | inr other ↦ record_nodes-at byzantine_ids nodes _ i n k b names (ground arith) honest e
      ]
