-- ===== src/Network/Stable.antt =====
-- A loop of sends on a stabilized network of src/network/simulator.py.
use blockchain_application.Prelude.{
  ℕ, zero, suc, ◌+◌, ◌≡◌, ◌∙◌, refl, String, true, Option, none, some, List, [], ◌∷◌, arith, drop,
  get_elem?,
}
use blockchain_application.Clock
use blockchain_application.Network.Types.{Message, NetworkBody, Network, Callback, deliver}
use blockchain_application.Network.{
  append_log, log, random, drops, base_delay, reordered_delay, schedule_delivery, transmit,
  send_unlimited, send,
}
use blockchain_application.Network.Sent.{message_of}
use blockchain_application.Engine.Votes.{send_each}

-- One delivery for each target: after the delays of a list and, when these are used up, after a
-- fixed delay.
abbrev pub deliveries :
    List ℕ
    → ℕ
    → List String
    → ℕ
    → ℕ
    → String
    → Message
    → Clock.Clock Callback
    → Clock.Clock Callback
deliveries delays bound [] height round sender message c = c
deliveries [] bound (target ∷ targets) height round sender message c =
    let body : NetworkBody = record { from_node = sender; to_node = target; message = message } in
    deliveries [] bound targets height round sender message
      (Clock.schedule bound (deliver (message_of height round body)) c)
deliveries (delay ∷ delays) bound (target ∷ targets) height round sender message c =
    let body : NetworkBody = record { from_node = sender; to_node = target; message = message } in
    deliveries delays bound targets height round sender message
      (Clock.schedule delay (deliver (message_of height round body)) c)

-- What is left of the reorder list.
abbrev pub pending : Network → List ℕ
pending n = drop n.order_index n.config.reorder_list

drop-none : (i : ℕ) (xs : List ℕ) → get_elem? xs i ≡ none → drop i xs ≡ []
drop-none zero [] e = refl
drop-none zero (x ∷ xs) e = absurd (ground arith)
drop-none (suc i) [] e = refl
drop-none (suc i) (x ∷ xs) e = drop-none i xs e

drop-some :
    (i : ℕ) (xs : List ℕ) (d : ℕ) → get_elem? xs i ≡ some d → drop i xs ≡ d ∷ drop (suc i) xs
drop-some zero [] d e = absurd (ground arith)
drop-some zero (x ∷ xs) d e = ground arith
drop-some (suc i) [] d e = absurd (ground arith)
drop-some (suc i) (x ∷ xs) d e = drop-some i xs d e

-- A network that loses, holds back and copies nothing.
abbrev pub IsCalm : Network → Type 0
IsCalm n = (n.config.stabilized ≡ true) × (n.config.rate_limit ≡ 0) × (n.config.duplicate_rate ≡ 0)

module _ (draw : ℕ → ℕ → ℕ) (height round : ℕ) (body : NetworkBody) where
  send-config : (n : Network) → IsCalm n → (send draw height round body n).config ≡ n.config
  unfolding send send_unlimited drops transmit base_delay reordered_delay random log append_log
      schedule_delivery
  send-config n (stable, unlimited, once) = ground arith

  send-clock :
      (n : Network)
      → IsCalm n
      → (send draw height round body n).clock
        ≡ Clock.schedule
            (elim (get_elem? n.config.reorder_list n.order_index) [
              | none ↦ n.config.bounded_delay
              | some delay ↦ delay
            ])
            (deliver (message_of height round body))
            n.clock
  unfolding send send_unlimited drops transmit base_delay reordered_delay random log append_log
      schedule_delivery
  send-clock n (stable, unlimited, once) = ground arith

  send-order_index :
      (n : Network)
      → IsCalm n
      → (send draw height round body n).order_index
        ≡ (elim (get_elem? n.config.reorder_list n.order_index) [
          | none ↦ n.order_index
          | some delay ↦ n.order_index + 1
        ])
  unfolding send send_unlimited drops transmit base_delay reordered_delay random log append_log
      schedule_delivery
  send-order_index n (stable, unlimited, once) = ground arith

module _ (draw : ℕ → ℕ → ℕ) (height round : ℕ) (sender : String) (message : Message) where
  -- On a stabilized network without a rate limit and without copies, a loop of sends puts one
  -- delivery for each target on the clock, in the order of the targets: after the delays that are
  -- left of the reorder list, one for each message, and after the fixed bound when they are used up.
  pub send_each-deliveries :
      (targets : List String) (n : Network)
      → IsCalm n
      → (send_each draw targets height round sender message n).clock
        ≡ deliveries (pending n) n.config.bounded_delay targets height round sender message n.clock
  unfolding send_each
  send_each-deliveries [] n calm = refl
  send_each-deliveries (target ∷ targets) n calm =
      next (get_elem? n.config.reorder_list n.order_index) refl (
        send_each-deliveries targets _ (
          rw
            (send-config draw height round
              (record { from_node = sender; to_node = target; message = message }) n calm)
            calm))
    where
      body : NetworkBody
      body = record { from_node = sender; to_node = target; message = message }

      n' : Network
      n' = send draw height round body n

      same : n'.config ≡ n.config
      same = send-config draw height round body n calm

      next :
          (o : Option ℕ)
          → get_elem? n.config.reorder_list n.order_index ≡ o
          → (send_each draw targets height round sender message n').clock
            ≡ deliveries
                (pending n')
                n'.config.bounded_delay
                targets
                height
                round
                sender
                message
                n'.clock
          → (send_each draw targets height round sender message n').clock
            ≡ deliveries
                (pending n)
                n.config.bounded_delay
                (target ∷ targets)
                height
                round
                sender
                message
                n.clock
      next none e rest =
          let left : drop n'.order_index n'.config.reorder_list ≡ [] =
            rw (same, send-order_index draw height round body n calm, e)
              (drop-none n.order_index n.config.reorder_list e) in
          let now = send-clock draw height round body n calm in
          rw (drop-none n.order_index n.config.reorder_list e) (rest ∙ rw (left, same, now, e) refl)
      next (some d) e rest =
          let left : drop n'.order_index n'.config.reorder_list
              ≡ drop (suc n.order_index) n.config.reorder_list =
            let plus : n.order_index + 1 ≡ suc n.order_index = omega arith in
            rw (same, send-order_index draw height round body n calm, e, plus) refl in
          let now = send-clock draw height round body n calm in
          rw (drop-some n.order_index n.config.reorder_list d e)
            (rest ∙ rw (left, same, now, e) refl)
