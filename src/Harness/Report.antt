-- ===== src/Harness/Report.antt =====
-- What src/main.py checks of the ledgers that a scenario ends with. The printed reports are left
-- out.
pub mod Table
pub mod Rows
pub mod Conflicts
pub mod Agreement
pub mod Singles
use blockchain_application.Prelude.{
  ℕ, ◌+◌, String, Bool, Option, none, some, List, [], ◌∷◌, ◌++◌, leb, ltb, length, last?, contains,
  if◌then◌else◌, ◌==◌, all, Eq, string_eq, nat_eq, string_discrete,
}
use blockchain_application.Prelude.Dict
use blockchain_application.Prelude.Dict.{Dict}
use blockchain_application.Crypto.Signing.{Crypto}
use blockchain_application.Messages.Address.{short_addr}
use blockchain_application.Messages.Block
use blockchain_application.Messages.Block.{Block}
use blockchain_application.World.{Node}
use blockchain_application.Harness.Outcome.{
  Outcome, done, failed, ◌>>=◌, ◌>>◌, check, safety_violation, test_ineffective, nothing_to_compare,
}
use blockchain_application.Harness.Setup.{quorum_for}

option-discrete : Discrete (Option String)
option-discrete = hlevel string_discrete

instance unfoldable pub option_eq : Eq (Option String)
unfolding option-discrete
option_eq = record { dec = option-discrete }

module _ {ℓ} {A : Type ℓ} ⦃e : Eq A⦄ where
  -- `set(xs)`, as a list with no repetition.
  unfoldable pub distinct : List A → List A
  distinct [] = []
  distinct (x ∷ xs) = let rest = distinct xs in if contains rest x then rest else x ∷ rest

  -- `len(set(xs)) == 1`
  unfoldable pub is_single : List A → Bool
  unfolding distinct
  is_single xs = length (distinct xs) == 1

-- The hashes that nodes, by their short names, finalized at each height.
abbrev pub HashTable : Type 0
HashTable = Dict ℕ (Dict String String)

module _ (C : Crypto) where
  -- The inner loop of `assert_no_conflicting_finalization`, from a height on.
  unfoldable pub record_ledger : String → ℕ → List Block → HashTable → HashTable
  record_ledger name height [] by_height = by_height
  record_ledger name height (block ∷ ledger) by_height = record_ledger name (height + 1) ledger (
      Dict.insert height
        (Dict.insert name (Block.block_hash C block) (Dict.get_or height [] by_height)) by_height)

  -- The outer loop.
  unfoldable pub record_nodes : List String → Dict String Node → HashTable → HashTable
  unfolding record_ledger
  record_nodes byzantine_ids [] by_height = by_height
  record_nodes byzantine_ids ((node_id, node) ∷ nodes) by_height =
      record_nodes byzantine_ids nodes (
        if contains byzantine_ids node_id
        then by_height
        else record_ledger (short_addr node_id) 0 node.engine.ledger by_height)

  -- The heights are checked in order; which of them fails shows only in the message.
  unfoldable pub assert_no_conflicting_finalization :
      Dict String Node → List String → Outcome (Unit {0})
  unfolding record_nodes is_single
  assert_no_conflicting_finalization node_lookup byzantine_ids =
      let by_height = record_nodes byzantine_ids node_lookup [] in
      check (all (λ hashes. is_single (Dict.values hashes)) (Dict.values by_height))
        safety_violation
      >> check (ltb 0 (length by_height)) test_ineffective

  abbrev pub last_hash : Node → Option String
  last_hash n = elim (last? n.engine.ledger) [
    | none ↦ none
    | some block ↦ some (short_addr (Block.block_hash C block))
  ]

  abbrev hashes_from : Dict String (Option String) → Dict String Node → Dict String (Option String)
  hashes_from hashes [] = hashes
  hashes_from hashes ((node_id, n) ∷ nodes) =
      hashes_from (Dict.insert (short_addr node_id) (last_hash n) hashes) nodes

  -- `last_hashes`, which it returns.
  unfoldable pub report_state : Dict String Node → Dict String (Option String)
  report_state node_lookup = hashes_from [] node_lookup

unfoldable pub assert_unanimous : Dict String (Option String) → Outcome (Unit {0})
unfolding is_single
assert_unanimous last_hashes = check (is_single (Dict.values last_hashes)) safety_violation

-- The loop that fills `groups`.
unfoldable pub group_by_hash :
    Dict (Option String) (List String)
    → Dict String (Option String)
    → Dict (Option String) (List String)
group_by_hash groups [] = groups
group_by_hash groups ((node_id, h) ∷ last_hashes) =
    group_by_hash (Dict.insert h (Dict.get_or h [] groups ++ (node_id ∷ [])) groups) last_hashes

-- `max(…, key=len)`: the first of the longest.
unfoldable pub longest : List String → List (List String) → List String
longest best [] = best
longest best (group ∷ groups) =
    longest (if ltb (length best) (length group) then group else best) groups

unfoldable pub largest_of : List (List String) → Outcome (List String)
unfolding longest
largest_of [] = failed nothing_to_compare
largest_of (group ∷ groups) = done (longest group groups)

unfoldable pub assert_quorum_agreement : Dict String (Option String) → ℕ → Outcome (Unit {0})
unfolding group_by_hash largest_of
assert_quorum_agreement last_hashes num_nodes =
    largest_of (Dict.values (group_by_hash [] last_hashes)) >>= λ largest.
    check (leb (quorum_for num_nodes) (length largest)) safety_violation
