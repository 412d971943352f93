-- ===== src/Harness/Setup/Identities.antt =====
-- The nodes that `create_byzantine_nodes` and `create_nodes` of src/main.py make: validators under
-- their own keys, at the beginning.
use blockchain_application.Prelude.{
  ℕ, zero, suc, ◌≡◌, refl, ap, ◌∙◌, String, true, ◌||◌, List, [], ◌∷◌, arith, map, length, contains,
  enumerate, range, range_from, ◌==◌, All, All-map, All-and, string_eq, nat_eq, length-map,
  length-range_from, Bool-cases, inl, inr,
}
use blockchain_application.Prelude.Dict
use blockchain_application.Prelude.Dict.{NodupKeys, lookup-insert, insert-NodupKeys}
use blockchain_application.Crypto.Encoding.{insert_key, sort_keys}
use blockchain_application.Crypto.Signing.{Crypto, keypair_from_seed, pubkey_hex}
use blockchain_application.Network.Types.{Network}
use blockchain_application.Engine.Types.{EngineClass, Engine}
use blockchain_application.Engine.Votes.{sorted_texts}
use blockchain_application.Engine.Buckets.{bucket-fresh, IsBucket-nil, nothing-stored}
use blockchain_application.Engine.Authentic.{Authentic}
use blockchain_application.Engine.Induction.{Anything}
use blockchain_application.Engine.Certificates.{Justified}
use blockchain_application.World.{World, new_node, add_node}
use blockchain_application.World.Nodes.{EveryNode}
use blockchain_application.Harness.Setup.{
  Account, account_id, seeded, class_of, bare, add_nodes, node_id_for, node_lookup_from,
  add_some_byzantine, create_nodes, create_byzantine_nodes,
}

abbrev doubled : List String → List (String × String)
doubled xs = map (λ x. (x, x)) xs

contains-insert_key :
    (x k : String) (l : List (String × String))
    → contains (Dict.keys (insert_key k k l)) x ≡ (x == k || contains (Dict.keys l) x)
unfolding insert_key
contains-insert_key x k [] = refl
contains-insert_key x k ((j, w) ∷ l) = ground (arith, contains-insert_key x k l)

contains-sorted_texts :
    (x : String) (xs : List String) → contains (sorted_texts xs) x ≡ contains xs x
unfolding sort_keys
contains-sorted_texts x [] = refl
contains-sorted_texts x (y ∷ xs) =
    ground (arith, contains-insert_key x y (sort_keys (doubled xs)), contains-sorted_texts x xs)

length-insert_key :
    (k : String) (l : List (String × String))
    → length (Dict.keys (insert_key k k l)) ≡ suc (length (Dict.keys l))
unfolding insert_key
length-insert_key k [] = refl
length-insert_key k ((j, w) ∷ l) = ground (arith, length-insert_key k l)

length-sorted_texts : (xs : List String) → length (sorted_texts xs) ≡ length xs
unfolding sort_keys
length-sorted_texts [] = refl
length-sorted_texts (x ∷ xs) =
    omega (arith, length-insert_key x (sort_keys (doubled xs)), length-sorted_texts xs)

module _ (C : Crypto) where
  -- The identifiers of seeded validators, in their order.
  abbrev pub validator_ids : ℕ → List String
  validator_ids num_nodes = sorted_texts (map (account_id C) (seeded C num_nodes))

  pub length-validator_ids : (num_nodes : ℕ) → length (validator_ids num_nodes) ≡ num_nodes
  length-validator_ids num_nodes =
      length-sorted_texts (map (account_id C) (seeded C num_nodes))
      ∙ length-map (seeded C num_nodes) (account_id C)
      ∙ length-map (range num_nodes) (keypair_from_seed C)
      ∙ length-range_from 0 num_nodes

  abbrev HasKey : Account → Type 0
  HasKey (sign_key, verify_key) = verify_key ≡ C.public_key sign_key

  seeded-HasKey : (n k : ℕ) → All HasKey (map (keypair_from_seed C) (range_from n k))
  unfolding keypair_from_seed
  seeded-HasKey n zero = tt
  seeded-HasKey n (suc k) = (refl, seeded-HasKey (suc n) k)

  contains-account_id :
      (accounts : List Account)
      → All (λ a. contains (map (account_id C) accounts) (account_id C a) ≡ true) accounts
  contains-account_id [] = tt
  contains-account_id (a ∷ accounts) =
      (ground arith, All-map _ _ accounts (λ x h. ground arith) (contains-account_id accounts))

  -- An account whose key is its own, and which the validators know.
  abbrev IsValidator : List String → Account → Type 0
  IsValidator vs a = HasKey a × (contains vs (account_id C a) ≡ true)

  seeded-IsValidator : (n : ℕ) → All (IsValidator (validator_ids n)) (seeded C n)
  seeded-IsValidator n = All-and HasKey _ (seeded C n) (seeded-HasKey 0 n) (
      All-map _ _ (seeded C n) (λ a h. contains-sorted_texts _ _ ∙ h)
        (contains-account_id (seeded C n)))

  new_node-Authentic :
      (vs : List String) (class : EngineClass) (a : Account)
      → IsValidator vs a
      → Authentic C (new_node class (account_id C a) a.0 vs).engine
  unfolding new_node pubkey_hex
  new_node-Authentic vs class (sign_key, verify_key) (own, known) = record {
    member = known;
    own = rw own refl;
    stored = λ r p. rw (bucket-fresh r p) (IsBucket-nil vs);
    cast = λ r p a v h. absurd (nothing-stored a v (rw (bucket-fresh r p) at h));
  }

  new_node-Justified :
      (vs : List String) (class : EngineClass) (a : Account)
      → IsValidator vs a
      → Justified C vs Anything (new_node class (account_id C a) a.0 vs).engine
  unfolding new_node
  new_node-Justified vs class a known = record {
    auth = new_node-Authentic vs class a known;
    origin = λ r p b v h other. tt;
    set = refl;
    counted = refl;
    certified = λ k b e. absurd (ground arith);
    lock = λ b e. absurd (ground arith);
  }

  -- A property of all new nodes is one of every node that is there after the loop.
  add_some_byzantine-EveryNode :
      (P : Engine → Type 0) (vs byzantine_ids : List String) (accounts : List Account) (w : World)
      → All
          (λ a. (class : EngineClass) → P (new_node class (account_id C a) a.0 vs).engine)
          accounts
      → EveryNode P w
      → EveryNode P (add_some_byzantine C vs byzantine_ids accounts w)
  unfolding add_some_byzantine add_node new_node
  add_some_byzantine-EveryNode P vs byzantine_ids [] w new every = every
  add_some_byzantine-EveryNode P vs byzantine_ids (a ∷ accounts) w (first, new) every =
      let n = new_node (class_of byzantine_ids (account_id C a)) (account_id C a) a.0 vs in
      add_some_byzantine-EveryNode P vs byzantine_ids accounts (add_node n w) new (λ i m e.
        elim (Bool-cases (i == account_id C a)) [
          | inl same ↦
              let is : m ≡ n = ground (arith, lookup-insert i (account_id C a) n w.nodes) in
              rw is (first _)
          | inr other ↦ every i m (ground (arith, lookup-insert i (account_id C a) n w.nodes))
        ])

  add_some_byzantine-NodupKeys :
      (vs byzantine_ids : List String) (accounts : List Account) (w : World)
      → NodupKeys w.nodes
      → NodupKeys (add_some_byzantine C vs byzantine_ids accounts w).nodes
  unfolding add_some_byzantine add_node
  add_some_byzantine-NodupKeys vs byzantine_ids [] w once = once
  add_some_byzantine-NodupKeys vs byzantine_ids (a ∷ accounts) w once =
      add_some_byzantine-NodupKeys vs byzantine_ids accounts _ (insert-NodupKeys _ _ w.nodes once)

  -- `create_nodes` makes the nodes of `create_byzantine_nodes` with none of them Byzantine.
  add_nodes-eq :
      (vs : List String) (i : ℕ) (accounts : List Account) (w : World)
      → add_nodes C vs [] (enumerate i accounts) w ≡ add_some_byzantine C vs [] accounts w
  unfolding add_nodes add_some_byzantine node_id_for
  add_nodes-eq vs i [] w = refl
  add_nodes-eq vs i (a ∷ accounts) w = add_nodes-eq vs (suc i) accounts _

  map-node_id_for :
      (i : ℕ) (accounts : List Account)
      → map (node_id_for C []) (enumerate i accounts) ≡ map (account_id C) accounts
  unfolding node_id_for
  map-node_id_for i [] = refl
  map-node_id_for i (a ∷ accounts) = ap (λ l. account_id C a ∷ l) (map-node_id_for (suc i) accounts)

  -- `create_nodes` makes the nodes that `create_byzantine_nodes` makes with no Byzantine node among
  -- them, registered in the same order on the same network.
  pub create_nodes_lem :
      (num_nodes : ℕ) (network : Network)
      → create_nodes C num_nodes network ≡ (create_byzantine_nodes C num_nodes network 0).0
  unfolding create_nodes node_lookup_from create_byzantine_nodes
  create_nodes_lem num_nodes network =
      let accounts = seeded C num_nodes in
      let vs = validator_ids num_nodes in
      rw (map-node_id_for 0 accounts) (add_nodes-eq vs 0 accounts (bare network))

  -- What `create_byzantine_nodes` starts from.
  module _ (num_nodes num_byzantine : ℕ) (network : Network) where
    abbrev pub created : World
    created = (create_byzantine_nodes C num_nodes network num_byzantine).0

    pub created-NodupKeys : NodupKeys created.nodes
    unfolding create_byzantine_nodes
    created-NodupKeys = add_some_byzantine-NodupKeys _ _ (seeded C num_nodes) (bare network) tt

    pub created-EveryNode :
        (P : Engine → Type 0)
        → ((class : EngineClass) (a : Account)
            → IsValidator (validator_ids num_nodes) a
            → P (new_node class (account_id C a) a.0 (validator_ids num_nodes)).engine)
        → EveryNode P created
    unfolding create_byzantine_nodes Dict.lookup
    created-EveryNode P new =
        add_some_byzantine-EveryNode P _ _ (seeded C num_nodes) (bare network)
          (All-map _ _ (seeded C num_nodes) (λ a known class. new class a known)
            (seeded-IsValidator num_nodes))
          (λ i n e. absurd (ground arith))

    pub created-Justified : EveryNode (Justified C (validator_ids num_nodes) Anything) created
    created-Justified = created-EveryNode _ (new_node-Justified (validator_ids num_nodes))

    pub created-at_zero : EveryNode (λ e. e.cs.round ≡ 0) created
    unfolding new_node
    created-at_zero = created-EveryNode _ (λ class a known. refl)
