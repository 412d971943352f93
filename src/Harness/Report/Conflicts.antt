-- ===== src/Harness/Report/Conflicts.antt =====
-- What `assert_no_conflicting_finalization` of src/main.py decides.
use blockchain_application.Prelude.{
  ℕ, ◌≡◌, ◌↔◌, refl, ap, ◌∙◌, String, Bool, true, false, some, List, [], ◌∷◌, arith, string_eq,
  nat_eq, All, length, ltb,
}
use blockchain_application.Prelude.Dict
use blockchain_application.Prelude.Dict.{
  Dict, get_or-some, get_or-none, lookup-nil, All-insert, All-lookup,
}
use blockchain_application.Crypto.Signing.{Crypto}
use blockchain_application.Messages.Address.{short_addr}
use blockchain_application.World.{Node}
use blockchain_application.Harness.Outcome.{done, ◌>>◌, check, safety_violation, test_ineffective}
use blockchain_application.Harness.Report.{
  HashTable, record_nodes, assert_no_conflicting_finalization,
}
use blockchain_application.Harness.Report.Table.{DistinctNames, entry, record_nodes-at}
use blockchain_application.Harness.Report.Singles.{is_single-all}
use blockchain_application.Harness.Report.Rows.{
  Agrees, HasBlock, Finalized, Single, All-all_single, entries_agree, Row, record_nodes-Row,
}

module _ (C : Crypto) (nodes : Dict String Node) (byzantine_ids : List String) where
  abbrev by_height : HashTable
  by_height = record_nodes C byzantine_ids nodes []

  passes :
      (a b : Bool)
      → (check a safety_violation >> check b test_ineffective) ≡ done tt
      → (a ≡ true) × (b ≡ true)
  passes true true e = (refl, refl)
  passes true false e = absurd (ground arith)
  passes false b e = absurd (ground arith)

  some_row :
      (R : ℕ → String → Type 0) (table : HashTable)
      → ltb 0 (length table) ≡ true
      → All (Row R) table
      → (k : ℕ) × (h : String) × R k h
  some_row R [] e good = absurd (ground arith)
  some_row R ((k, d) ∷ table) e (((h, here), all_hashes), good) = (k, h, all_hashes h here)

  Row-Single :
      (R : ℕ → String → Type 0) (table : HashTable)
      → ((k : ℕ) (g h : String) → R k g → R k h → g ≡ h)
      → All (Row R) table
      → All Single table
  Row-Single R [] agree good = tt
  Row-Single R ((k, d) ∷ table) agree (((h, here), hashes), good) = (
    is_single-all (Dict.values d) h here (λ g e. agree k g h (hashes g e) (hashes h here)),
    Row-Single R table agree good,
  )

  not_empty :
      (table : HashTable) (name : String) (k : ℕ) (h : String)
      → entry name k table ≡ some h
      → ltb 0 (length table) ≡ true
  unfolding Dict.get_or Dict.lookup
  not_empty [] name k h e = absurd (ground arith)
  not_empty (row ∷ table) name k h e = ground arith

  recorded :
      DistinctNames nodes
      → (k : ℕ) (h : String) (f : Finalized C nodes byzantine_ids k h)
      → entry (short_addr f.0) k by_height ≡ some h
  recorded names k h (i, n, b, found, honest, e, is) =
      record_nodes-at C byzantine_ids nodes [] i n k b names found honest e ∙ ap some is

  by_height-Row : DistinctNames nodes → All (Row (Finalized C nodes byzantine_ids)) by_height
  by_height-Row names =
      record_nodes-Row (Finalized C nodes byzantine_ids) C byzantine_ids nodes [] names (λ k h f. f)
        tt

  -- Take nodes whose short names differ. The check passes exactly when any two blocks that nodes
  -- outside the Byzantine identifiers have finalized at the same height have the same hash, and one
  -- of these nodes has finalized a block.
  pub assert_no_conflicting_finalization_iff :
      DistinctNames nodes
      → (assert_no_conflicting_finalization C nodes byzantine_ids ≡ done tt)
        ↔ (Agrees C nodes byzantine_ids × HasBlock C nodes byzantine_ids)
  unfolding assert_no_conflicting_finalization
  assert_no_conflicting_finalization_iff names = (
    λ e.
        let (single, some_height) = passes _ _ e in
        (
          λ k g h x y.
              entries_agree by_height (short_addr x.0) (short_addr y.0) k g h single
                (recorded names k g x) (recorded names k h y),
          some_row _ by_height some_height (by_height-Row names),
        ),
    λ (agree, (k, h, f)).
        let single =
          All-all_single by_height (Row-Single _ by_height agree (by_height-Row names)) in
        let filled = not_empty by_height (short_addr f.0) k h (recorded names k h f) in
        rw (single, filled) refl,
  )
