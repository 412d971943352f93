-- ===== src/Network.antt =====
-- `Network` of src/network/simulator.py: rate limits, drops, delays, copies and deliveries on the
-- virtual clock. Rates are in billionths; the generator of random numbers is a parameter.
pub mod Limit
pub mod Sent
pub mod Stable
pub mod Types
use Types.{
  Message, NetworkBody, LogMessage, Sending, Direction, LogEntry, Callback, deliver, NetworkConfig,
  Network, succeeded, duplicated, dropped, blocked, unblocked, rate_limited, sent, recv,
}
use blockchain_application.Prelude.{
  ℕ, zero, suc, ◌+◌, ◌-◌, ◌*◌, ◌/◌, String, Bool, true, false, Option, none, some, List, [], ◌∷◌,
  ◌++◌, not, ltb, leb, if◌then◌else◌, ◌==◌, contains, Eq, string_eq, string_discrete, keep, length,
  get_elem?,
}
use blockchain_application.Prelude.Dict
use blockchain_application.Prelude.Dict.{Dict}
use blockchain_application.Clock

pair-discrete : Discrete (String × String)
pair-discrete = hlevel string_discrete

instance unfoldable pub pair_eq : Eq (String × String)
unfolding pair-discrete
pair_eq = record { dec = pair-discrete }

abbrev pub billion : ℕ
billion = 1_000_000_000

-- `Network(config)`; the seed is that of `__init__`.
unfoldable pub create : NetworkConfig → Network
create config = record {
  config = config;
  clock = Clock.fresh;
  nodes = [];
  log_buffer = [];
  order_index = 0;
  seed = 1337;
  drawn = 0;
  send_times = [];
  blocked_until = [];
}

unfoldable pub set_seed : ℕ → Network → Network
set_seed seed n = record n { seed = seed; drawn = 0 }

-- The key of `register`; the node itself is in the world's table.
unfoldable pub register : String → Network → Network
register node_id n = record n {
  nodes = if contains n.nodes node_id then n.nodes else n.nodes ++ (node_id ∷ []);
}

unfoldable pub append_log : LogEntry → Network → Network
append_log entry n = record n { log_buffer = n.log_buffer ++ (entry ∷ []) }

-- `_log`
unfoldable pub log : Direction → LogMessage → Option Sending → Network → Network
log direction message state n = append_log (LogEntry.network n.clock.now direction message state) n

-- `flush_log`, less the file.
unfoldable pub flush_log : Network → Network
flush_log n = record n { log_buffer = [] }

-- The times of a sender's earlier messages that lie within the window, and the present. The test is
-- exact here; in floats its boundary case, a message exactly `rate_window` old, may go either way.
unfoldable pub recent_times : String → Network → List ℕ
recent_times sender n =
    keep (λ t. leb n.clock.now (t + n.config.rate_window)) (Dict.get_or sender [] n.send_times)
    ++ (n.clock.now ∷ [])

-- The second half of `_rate_limit_blocks`: the window of the sender.
unfoldable pub check_window : LogMessage → Network → Network × Bool
check_window message n =
    let sender = message.body.from_node in
    let times = recent_times sender n in
    let n' = record n { send_times = Dict.insert sender times n.send_times } in
    let until = n.clock.now + n.config.block_duration in
    if ltb n.config.rate_limit (length times)
    then (
      log sent message (some (rate_limited until)) (record n' {
        blocked_until = Dict.insert (message.body.to_node, sender) until n.blocked_until;
      }),
      true,
    )
    else (n', false)

-- `_rate_limit_blocks`: the network after it, and whether the message is suppressed.
unfoldable pub rate_limit_blocks : LogMessage → Network → Network × Bool
rate_limit_blocks message n =
    let pair : String × String = (message.body.to_node, message.body.from_node) in
    elim (Dict.lookup pair n.blocked_until) [
      | none ↦ check_window message n
      | some until ↦
          if ltb n.clock.now until
          then (log sent message (some blocked) n, true)
          else check_window message (
              log sent message (some unblocked)
                (record n { blocked_until = Dict.erase pair n.blocked_until }))
    ]

-- A number of the generator, in billionths, for each seed and position.
module _ (draw : ℕ → ℕ → ℕ) where
  -- `rng.random()`
  unfoldable pub random : Network → ℕ × Network
  random n = (draw n.seed n.drawn, record n { drawn = n.drawn + 1 })

  -- `rng.uniform(a, b)`, which is `a + (b - a) * random()`, for a ≤ b and rounded down to a whole
  -- nanosecond; for b < a, which no configuration has, it is `a` here.
  unfoldable pub uniform : ℕ → ℕ → Network → ℕ × Network
  uniform a b n = let (x, n') = random n in (a + (b - a) * x / billion, n')

  -- The drop test, which draws only before stabilisation.
  unfoldable pub drops : Network → Bool × Network
  drops n =
      if n.config.stabilized
      then (false, n)
      else let (x, n') = random n in (ltb x n.config.drop_rate, n')

  unfoldable pub base_delay : Network → ℕ × Network
  base_delay n =
      if n.config.stabilized
      then (n.config.bounded_delay, n)
      else uniform n.config.min_delay n.config.max_delay n

  -- An entry of `reorder_list` takes the place of the delay, while there is one.
  unfoldable pub reordered_delay : ℕ → Network → ℕ × Network
  reordered_delay delay n = elim (get_elem? n.config.reorder_list n.order_index) [
    | none ↦ (delay, n)
    | some d ↦ (d, record n { order_index = n.order_index + 1 })
  ]

  unfoldable pub schedule_delivery : ℕ → LogMessage → Network → Network
  schedule_delivery delay message n = record n {
    clock = Clock.schedule delay (deliver message) n.clock;
  }

  -- From the choice of the delay on: the message is sent, perhaps twice.
  unfoldable pub transmit : LogMessage → Network → Network
  transmit message n =
      let (d₀, n₁) = base_delay n in
      let (delay, n₂) = reordered_delay d₀ n₁ in
      let (x, n₃) = random (log sent message (some (succeeded delay)) n₂) in
      if ltb x n.config.duplicate_rate
      then schedule_delivery delay message
          (schedule_delivery delay message (log sent message (some duplicated) n₃))
      else schedule_delivery delay message n₃

  -- `send` after the rate limit.
  unfoldable pub send_unlimited : LogMessage → Network → Network
  send_unlimited message n =
      let (dropping, n') = drops n in
      if dropping then log sent message (some dropped) n' else transmit message n'

  unfoldable pub send : ℕ → ℕ → NetworkBody → Network → Network
  send height round body n =
      let message : LogMessage = record { height = height; round = round; body = body } in
      if ltb 0 n.config.rate_limit
      then (let (n', suppressed) = rate_limit_blocks message n in
          if suppressed then n' else send_unlimited message n')
      else send_unlimited message n

  broadcast_to : List String → ℕ → ℕ → String → Message → Network → Network
  broadcast_to [] height round sender message n = n
  broadcast_to (receiver ∷ receivers) height round sender message n =
      broadcast_to receivers height round sender message (
        if receiver == sender
        then n
        else send height round
            (record { from_node = sender; to_node = receiver; message = message }) n)

  unfoldable pub broadcast : ℕ → ℕ → String → Message → Network → Network
  unfolding broadcast_to
  broadcast height round sender message n = broadcast_to n.nodes height round sender message n
