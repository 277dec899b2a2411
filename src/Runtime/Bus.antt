-- ===== src/Runtime/Bus.antt =====
-- core/bus.py: the bus in memory, and the Kafka bus that falls back to it.
use far_away.Prelude.{
  ℕ, zero, suc, ◌-◌, String, Bool, true, false, not, Option, none, some, List, [], ◌∷◌, ◌++◌,
  str_eq, ltb, if◌then◌else◌, length, drop, filter, or_else,
}
use far_away.Core.Dict.{Dict, find, put}

-- `InMemoryBus`. A subscription is a subscriber's name and a number for its callback.
pub record Bus (M : Type 0) : Type 0 where
  pub subs : Dict (List (String × ℕ))
  pub history_max : ℕ
  pub history : List M

module _ {M : Type 0} where
  -- `InMemoryBus(history)`
  unfoldable pub new_bus : ℕ → Bus M
  new_bus history = record { subs = []; history_max = history; history = [] }

  -- `subscribe`
  unfoldable pub subscribe : (topic subscriber : String) → (callback : ℕ) → Bus M → Bus M
  unfolding find put
  subscribe topic subscriber callback b = record b {
    subs = put topic (or_else (find topic b.subs) [] ++ (subscriber, callback) ∷ []) b.subs;
  }

  -- `self.history[-n:]`, which is the whole list where n is 0
  abbrev pub last_items : ℕ → List M → List M
  last_items zero ms = ms
  last_items (suc n) ms = drop (length ms - suc n) ms

  -- the ring buffer of `publish`
  unfoldable pub remember : M → Bus M → Bus M
  remember m b =
      let history = b.history ++ m ∷ [] in
      record b {
        history =
            if ltb b.history_max (length history)
            then last_items b.history_max history
            else history;
      }

  module _ (topic_of : M → String) where
    abbrev pub latest : String → Option M → List M → Option M
    latest topic found [] = found
    latest topic found (m ∷ ms) =
        latest topic (if str_eq (topic_of m) topic then some m else found) ms

    -- `last_on`
    unfoldable pub last_on : String → Bus M → Option M
    last_on topic b = latest topic none b.history

    -- `act` is what a callback leaves of the bus, on which it may publish, and of the rest of the
    -- system; where it raises, `publish` goes on with what it has left.
    module _ {W : Type 0} (act : ℕ → M → Bus M × W → Bus M × W) where
      unfoldable pub notify : List (String × ℕ) → M → Bus M × W → Bus M × W
      notify [] m s = s
      notify ((subscriber, callback) ∷ rest) m s = notify rest m (act callback m s)

      -- `publish`
      unfoldable pub publish : M → Bus M × W → Bus M × W
      unfolding remember notify find
      publish m (b, w) =
          let b' = remember m b in notify (or_else (find (topic_of m) b'.subs) []) m (b', w)

-- `KafkaBus`. `connected` says that there is a producer, and `produced` holds what it was given.
pub record KafkaBus (M : Type 0) : Type 0 where
  pub fallback : Bus M
  pub connected : Bool
  pub degraded : Bool
  pub produced : List M

-- the first endpoint that a producer can be made for
unfoldable pub first_reachable : (reachable : String → Bool) → List String → Option String
first_reachable reachable [] = none
first_reachable reachable (e ∷ rest) =
    if reachable e then some e else first_reachable reachable rest

abbrev is_some : Option String → Bool
is_some none = false
is_some (some s) = true

module _ {M : Type 0} where
  -- `KafkaBus(brokers, backup_brokers)`; an endpoint that is `None` or empty is left out, and
  -- nothing is reachable where the client library is not installed
  unfoldable pub connect :
      (reachable : String → Bool)
      → (brokers : String) → (backup_brokers : Option String) → KafkaBus M
  unfolding first_reachable new_bus
  connect reachable brokers backup_brokers =
      let endpoints = filter (λ e. not (str_eq e "")) (brokers ∷ or_else backup_brokers "" ∷ []) in
      let connected = is_some (first_reachable reachable endpoints) in
      record {
        fallback = new_bus 2000;
        connected = connected;
        degraded = not connected;
        produced = [];
      }

  module _ (topic_of : M → String) {W : Type 0} (act : ℕ → M → Bus M × W → Bus M × W) where
    abbrev on_fallback : KafkaBus M → Bus M × W → KafkaBus M × W
    on_fallback k (b, w) = (record k { fallback = b }, w)

    -- `publish`; `accepted` says that `produce` and `poll` did not raise
    unfoldable pub publish_kafka : (accepted : Bool) → M → KafkaBus M × W → KafkaBus M × W
    unfolding publish
    publish_kafka accepted m (k, w) =
        if not k.connected
        then on_fallback k (publish topic_of act m (k.fallback, w))
        else if accepted
        then (record k { produced = k.produced ++ m ∷ [] }, w)
        else on_fallback (record k { degraded = true }) (publish topic_of act m (k.fallback, w))

  -- `subscribe`
  unfoldable pub subscribe_kafka :
      (topic subscriber : String) → (callback : ℕ) → KafkaBus M → KafkaBus M
  unfolding subscribe
  subscribe_kafka topic subscriber callback k = record k {
    fallback = subscribe topic subscriber callback k.fallback;
  }
