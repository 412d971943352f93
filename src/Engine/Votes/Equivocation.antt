-- ===== src/Engine/Votes/Equivocation.antt =====
-- What `ByzantineEngine` of src/byzantine.py sends to whom.
use blockchain_application.Prelude.{
  All, In, inl, inr, sym, some, ℕ, zero, suc, ◌∙◌, ◌+◌, ◌/◌, ◌≤◌, ◌≡◌, ◌≢◌, refl, String, Bool,
  true, false, not, List, [], ◌∷◌, ◌++◌, arith, string_eq, ◌==◌, length, take, drop, keep, map,
  if◌then◌else◌, take-append-drop, length-append, ap,
}
use blockchain_application.Prelude.Dict
use blockchain_application.Crypto.Encoding.{insert_key, sort_keys}
use blockchain_application.Crypto.Signing.{Crypto, IsLawful, pubkey_hex}
use blockchain_application.Messages.Vote
use blockchain_application.Messages.Vote.{Phase, Vote}
use blockchain_application.Network.Types.{
  Message, NetworkBody, LogMessage, LogEntry, Sending, sent, Network,
}
use blockchain_application.Network.Sent.{send-keeps, send-logs}
use blockchain_application.Engine.Types.{Engine, Sys}
use blockchain_application.Engine.Chain.{put_vote, log, log_at}
use blockchain_application.Engine.Authentic.{IsVoteOf}
use blockchain_application.Engine.Votes.{
  send_each, send_to, equivocate_vote, peers, peer_halves, conflicting_hash, sixty_four_b,
  sixty_four_c, own_vote,
}
use blockchain_application.Quorum.Counting.{count}

count-insert_key :
    (a k v : String) (l : List (String × String))
    → count (λ x. x == a) (Dict.keys (insert_key k v l)) ≡ count (λ x. x == a) (k ∷ Dict.keys l)
unfolding insert_key
count-insert_key a k v [] = refl
count-insert_key a k v ((j, w) ∷ l) = ground (arith, count-insert_key a k v l)

count-sort_keys :
    (a : String) (xs : List String)
    → count (λ x. x == a) (Dict.keys (sort_keys (map (λ x. (x, x)) xs))) ≡ count (λ x. x == a) xs
unfolding sort_keys
count-sort_keys a [] = refl
count-sort_keys a (x ∷ xs) =
    omega (arith, count-insert_key a x x (sort_keys (map (λ y. (y, y)) xs)), count-sort_keys a xs)

count-append :
    (p : String → Bool) (xs ys : List String) → count p (xs ++ ys) ≡ count p xs + count p ys
count-append p [] ys = omega arith
count-append p (x ∷ xs) ys = omega (arith, count-append p xs ys)

count-keep_other :
    (a self : String) (xs : List String)
    → count (λ x. x == a) (keep (λ v. not (v == self)) xs)
      ≡ (if a == self then 0 else count (λ x. x == a) xs)
count-keep_other a self [] = ground arith
count-keep_other a self (x ∷ xs) = ground (arith, count-keep_other a self xs)

length-take : (n : ℕ) (xs : List String) → n ≤ length xs → length (take n xs) ≡ n
length-take zero xs le = refl
length-take (suc n) [] le = absurd (omega arith)
length-take (suc n) (x ∷ xs) le = ap suc (length-take n xs (omega arith))

count-peers :
    (a : String) (e : Engine)
    → count (λ x. x == a) (peers e)
      ≡ (if a == e.node_id then 0 else count (λ x. x == a) e.validators)
unfolding peers
count-peers a e =
    let others = keep (λ v. not (v == e.node_id)) e.validators in
    count-sort_keys a others ∙ count-keep_other a e.node_id e.validators

-- A Byzantine engine splits its peers in two: every entry of the validator set but its own is in
-- exactly one of the groups, and the second group is at most one larger than the first.
pub peer_halves_lem :
    (e : Engine) (a : String)
    → let (group_a, group_b) = peer_halves e in
      (count (λ x. x == a) group_a + count (λ x. x == a) group_b
        ≡ (if a == e.node_id then 0 else count (λ x. x == a) e.validators))
      × (length group_a ≤ length group_b)
      × (length group_b ≤ length group_a + 1)
unfolding peer_halves
peer_halves_lem e a =
    let n = length (peers e) / 2 in
    let group_a = take n (peers e) in
    let group_b = drop n (peers e) in
    let whole = ap (count (λ x. x == a)) (take-append-drop n (peers e)) in
    let measured = ap length (take-append-drop n (peers e)) in
    let first = length-take n (peers e) (omega arith) in
    let rest = length-append group_a group_b in
    (
      omega (arith, whole, count-append (λ x. x == a) group_a group_b, count-peers a e),
      omega (arith, measured, first, rest),
      omega (arith, measured, first, rest),
    )

b_ne_c : sixty_four_b ≢ sixty_four_c
unfolding string_eq
b_ne_c e = let same : true ≡ false = ap (λ s. s == sixty_four_b) e in cc

conflicting_hash-differs : (h : String) → h ≢ conflicting_hash h
unfolding conflicting_hash
conflicting_hash-differs h e = ground (arith, b_ne_c)

In-append : {A : Type 0} (x : A) (xs ys : List A) → In x xs → In x (xs ++ ys)
In-append x [] ys p = absurd p
In-append x (z ∷ xs) ys (inl here) = inl here
In-append x (z ∷ xs) ys (inr there) = inr (In-append x xs ys there)

In-last : {A : Type 0} (x : A) (xs : List A) → In x (xs ++ (x ∷ []))
In-last x [] = inl refl
In-last x (z ∷ xs) = inr (In-last x xs)

-- The log of the network has a send of a message from one node to another.
abbrev pub HasSent : ℕ → ℕ → String → Message → Network → String → Type 0
HasSent height round sender message n target =
    let body : NetworkBody = record { from_node = sender; to_node = target; message = message } in
    let m : LogMessage = record { height = height; round = round; body = body } in
    (ts : ℕ) × (state : Sending) × In (LogEntry.network ts sent m (some state)) n.log_buffer

module _ (draw : ℕ → ℕ → ℕ) (height round : ℕ) (sender : String) where
  HasSent-same :
      (message : Message) (target : String) (n m : Network)
      → m.log_buffer ≡ n.log_buffer
      → HasSent height round sender message n target
      → HasSent height round sender message m target
  HasSent-same message target n m e (ts, state, p) = (ts, state, rw e p)

  HasSent-more :
      (message : Message) (target : String) (entry : LogEntry) (n m : Network)
      → m.log_buffer ≡ n.log_buffer ++ (entry ∷ [])
      → HasSent height round sender message n target
      → HasSent height round sender message m target
  HasSent-more message target entry n m e (ts, state, p) =
      (ts, state, rw e (In-append _ n.log_buffer (entry ∷ []) p))

  -- Further sends leave it there.
  send_each-keeps :
      (message : Message) (target : String) (h r : ℕ) (from : String) (other : Message)
      → (targets : List String) (n : Network) → HasSent height round sender message n target
      → HasSent height round sender message (send_each draw targets h r from other n) target
  unfolding send_each
  send_each-keeps message target h r from other [] n p = p
  send_each-keeps message target h r from other (next ∷ targets) n p =
      send_each-keeps message target h r from other targets _ (
        send-keeps (λ m. HasSent height round sender message m target) (HasSent-same message target)
          (HasSent-more message target) draw h r
          (record { from_node = from; to_node = next; message = other }) n p)

  -- A loop of sends reaches every target, as far as the log goes.
  send_each-HasSent :
      (message : Message) (targets : List String) (n : Network)
      → All
          (HasSent height round sender message
            (send_each draw targets height round sender message n))
          targets
  unfolding send_each
  send_each-HasSent message [] n = tt
  send_each-HasSent message (target ∷ targets) n =
      let body : NetworkBody = record { from_node = sender; to_node = target; message = message } in
      (
        send_each-keeps message target height round sender message targets _ (
            send-logs (λ m. HasSent height round sender message m target)
              (HasSent-same message target) (HasSent-more message target) draw height round body
              (λ l ts state m e. (ts, state, rw e (In-last _ l))) n),
        send_each-HasSent message targets _,
      )

All-map :
    {A : Type 0} (P R : A → Type 0) (xs : List A) → ((x : A) → P x → R x) → All P xs → All R xs
All-map P R [] f h = tt
All-map P R (x ∷ xs) f (p, h) = (f x p, All-map P R xs f h)

-- For lawful cryptography, when a Byzantine engine that signs under its own key votes, it sends one
-- signed vote for the hash to every peer of its first half, and one for another hash to every peer
-- of its second half: two genuine votes under its name for one height, round and phase. The
-- network's log shows each of these sends.
pub equivocate_vote_lem :
    (C : Crypto)
    → IsLawful C
    → (draw : ℕ → ℕ → ℕ) (phase : Phase) (block_hash : String) (s : Sys)
    → s.engine.node_id ≡ pubkey_hex C (C.public_key s.engine.signing_key)
    → let e = s.engine in
      let n = (equivocate_vote C draw phase block_hash s).network in
      let (group_a, group_b) = peer_halves e in
      (a : Vote) × (b : Vote) × (IsVoteOf C e.height e.cs.round e.node_id a)
      × (IsVoteOf C e.height e.cs.round e.node_id b)
      × (a.phase ≡ phase)
      × (b.phase ≡ phase)
      × (a.block_hash ≡ block_hash)
      × (b.block_hash ≢ block_hash)
      × All (HasSent e.height e.cs.round e.node_id (Message.vote phase a) n) group_a
      × All (HasSent e.height e.cs.round e.node_id (Message.vote phase b) n) group_b
unfolding equivocate_vote send_to own_vote Vote.sign put_vote log log_at
equivocate_vote_lem C L draw phase block_hash s own =
    let e = s.engine in
    let other = conflicting_hash block_hash in
    let a = own_vote C e phase block_hash in
    let b = own_vote C e phase other in
    let (group_a, group_b) = peer_halves e in
    (
      a,
      b,
      (refl, refl, refl, Vote.verify-sign C L e.signing_key _ own),
      (refl, refl, refl, Vote.verify-sign C L e.signing_key _ own),
      refl,
      refl,
      refl,
      (λ same. conflicting_hash-differs block_hash (sym same)),
      All-map _ _ group_a
          (λ target.
            send_each-keeps draw e.height e.cs.round e.node_id (Message.vote phase a) target
              e.height e.cs.round e.node_id (Message.vote phase b) group_b _)
          (send_each-HasSent draw e.height e.cs.round e.node_id (Message.vote phase a) group_a _),
      send_each-HasSent draw e.height e.cs.round e.node_id (Message.vote phase b) group_b _,
    )
