-- ===== src/Harness/Setup.antt =====
-- The construction of nodes and networks, and the quorum, of src/main.py.
pub mod Identities
use blockchain_application.Prelude.{
  ℕ, ◌+◌, ◌-◌, ◌*◌, ◌/◌, String, ◌<>◌, none, List, [], ◌∷◌, map, take, range, enumerate, contains,
  if◌then◌else◌, string_eq, nat_eq,
}
use blockchain_application.Prelude.Dict
use blockchain_application.Prelude.Dict.{Dict}
use blockchain_application.Crypto.Text.{Bytes}
use blockchain_application.Crypto.Signing.{Crypto, keypair_from_seed, pubkey_hex}
use blockchain_application.Messages.Address.{drop_text}
use blockchain_application.Messages.Transaction
use blockchain_application.Messages.Transaction.{Transaction}
use blockchain_application.Network
use blockchain_application.Network.Types.{Network, NetworkConfig}
use blockchain_application.Engine.Types.{EngineClass, honest, byzantine}
use blockchain_application.Engine.Votes.{sorted_texts}
use blockchain_application.World.{Node, World, new_node, add_node}

-- A signing key, as its seed, with its verify key.
abbrev pub Account : Type 0
Account = Bytes × Bytes

-- The path of the log is dropped.
unfoldable pub create_network : NetworkConfig → Network
create_network network_config = Network.create network_config

-- No node yet.
abbrev pub bare : Network → World
bare network = record { network = network; nodes = [] }

-- `2f+1 out of n=3f+1`, with its own arithmetic.
unfoldable pub quorum_for : ℕ → ℕ
quorum_for num_nodes = let f = (num_nodes - 1) / 3 in 2 * f + 1

abbrev pub class_of : List String → String → EngineClass
class_of byzantine_ids node_id = if contains byzantine_ids node_id then byzantine else honest

module _ (C : Crypto) where
  unfoldable pub node_id_for : List ℕ → ℕ × Account → String
  node_id_for tamper_ids (i, (_, verify_key)) =
      let real_id = pubkey_hex C verify_key in
      if contains tamper_ids i then "fff" <> drop_text 3 real_id else real_id

  -- The loop of `_node_lookup_from`, over the accounts with their positions.
  unfoldable pub add_nodes : List String → List ℕ → List (ℕ × Account) → World → World
  add_nodes validators tamper_ids [] w = w
  add_nodes validators tamper_ids ((i, (sign_key, verify_key)) ∷ accounts) w =
      add_nodes validators tamper_ids accounts (
        add_node
          (new_node honest (node_id_for tamper_ids (i, (sign_key, verify_key))) sign_key validators)
          w)

  unfoldable pub node_lookup_from : List Account → Network → List ℕ → World
  unfolding add_nodes node_id_for
  node_lookup_from validators network tamper_ids =
      let accounts = enumerate 0 validators in
      add_nodes (sorted_texts (map (node_id_for tamper_ids) accounts)) tamper_ids accounts
        (bare network)

  abbrev pub seeded : ℕ → List Account
  seeded num_nodes = map (keypair_from_seed C) (range num_nodes)

  unfoldable pub create_nodes : ℕ → Network → World
  unfolding node_lookup_from
  create_nodes num_nodes network = node_lookup_from (seeded num_nodes) network []

  unfoldable pub create_deterministic_nodes : ℕ → Network → World
  unfolding node_lookup_from
  create_deterministic_nodes num_nodes network = node_lookup_from (seeded num_nodes) network []

  unfoldable pub create_tamper_nodes : ℕ → Network → ℕ → World
  unfolding node_lookup_from
  create_tamper_nodes num_nodes network num_tamper =
      node_lookup_from (seeded num_nodes) network (range num_tamper)

  abbrev pub account_id : Account → String
  account_id (_, verify_key) = pubkey_hex C verify_key

  -- The loop of `create_byzantine_nodes`.
  unfoldable pub add_some_byzantine : List String → List String → List Account → World → World
  add_some_byzantine validators byzantine_ids [] w = w
  add_some_byzantine validators byzantine_ids ((sign_key, verify_key) ∷ accounts) w =
      let node_id = account_id (sign_key, verify_key) in
      add_some_byzantine validators byzantine_ids accounts
        (add_node (new_node (class_of byzantine_ids node_id) node_id sign_key validators) w)

  -- The nodes, with the identifiers of those that equivocate.
  unfoldable pub create_byzantine_nodes : ℕ → Network → ℕ → World × List String
  unfolding add_some_byzantine
  create_byzantine_nodes num_nodes network num_byzantine =
      let accounts = seeded num_nodes in
      let node_ids = sorted_texts (map account_id accounts) in
      let byzantine_ids = take num_byzantine node_ids in
      (add_some_byzantine node_ids byzantine_ids accounts (bare network), byzantine_ids)

  -- The key is written `f"{sender}/{username}"`.
  unfoldable pub make_transaction : String → String → Account → Transaction
  unfolding Transaction.sign
  make_transaction username value (sign_key, verify_key) =
      let sender = pubkey_hex C verify_key in
      Transaction.sign C sign_key (record {
        sender = sender;
        key = sender <> "/" <> username;
        value = value;
        nonce = 1;
        signature = none;
      })
