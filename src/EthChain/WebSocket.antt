-- ===== src/EthChain/WebSocket.antt =====
-- class WebSocketSubscriber of eth/websocket.cpp: the subscriptions of a connection and the messages
-- that it receives. The websocketpp library is not part of the repository.
use xayax.Prelude.{
  ℕ, String, ◌==◌, List, [], ◌∷◌, ◌++◌, Option, none, some, if◌then◌else◌, ℤ, pos, negsuc,
}
use xayax.Prelude.Texts.{same}
use xayax.Prelude.Action.{Action, Outcome, done, ◌>>=◌, ◌>>◌, pure, abort, get, check}
use xayax.Values.{Values, reading, field}

-- WebSocketSubscriber::Callbacks, which run on the state Env of the one who listens.
pub record Callbacks (Env : Type 0) : Type 0 where
  pub new_tip : String → Action Env (Unit {0})
  pub new_pending_tx : String → Action Env (Unit {0})

-- WebSocketSubscriber::Connection, with the requests that were sent over it.
pub record Connection (Json : Type 0) : Type 0 where
  pub sub_new_heads : String
  pub sub_pending_tx : String
  pub sent : List Json

abbrev pub new_connection : {Json : Type 0} → Connection Json
new_connection = record { sub_new_heads = ""; sub_pending_tx = ""; sent = [] }

module _ {Json Double : Type 0} (values : Values Json Double) where
  -- The request of SendSubscribe.
  unfoldable pub subscribe_request : ℕ → String → Json
  subscribe_request id type = values.set "params" (values.array (values.string type ∷ [])) (
      values.set "method" (values.string "eth_subscribe") (
        values.set "id" (values.integer (pos id))
          (values.set "jsonrpc" (values.string "2.0") values.empty_object)))

  unfoldable pub send_subscribe : ℕ → String → Connection Json → Connection Json
  unfolding subscribe_request
  send_subscribe id type c = record c { sent = c.sent ++ subscribe_request id type ∷ [] }

  -- The open handler.
  unfoldable pub on_open : Connection Json → Connection Json
  unfolding send_subscribe
  on_open c = send_subscribe 1 "newHeads" c

  -- WebSocketSubscriber::EnablePending: `none` is the failed CHECK.
  unfoldable pub enable_pending : Option (Connection Json) → Option (Connection Json)
  unfolding send_subscribe
  enable_pending none = none
  enable_pending (some c) = some (send_subscribe 2 "newPendingTransactions" c)

  -- The connection with the state of the listener.
  pub record Listening (Env : Type 0) : Type 0 where
    pub connection : Connection Json
    pub env : Env

  module _ {Env : Type 0} (cb : Callbacks Env) where
    abbrev State : Type 0
    State = Listening Env

    abbrev on_env : Action Env (Unit {0}) → Action State (Unit {0})
    on_env act s = elim (act s.env) [
      | Outcome.done a e ↦ done a (record s { env = e })
      | Outcome.threw e ↦ Outcome.threw (record s { env = e })
      | Outcome.aborted ↦ Outcome.aborted
    ]

    -- The response to the request with an ID.
    unfoldable pub subscribed : ℤ → String → Action State (Unit {0})
    subscribed (negsuc n) sub s = abort s
    subscribed (pos n) sub s =
        if n == 1
        then done tt (record s { connection = record s.connection { sub_new_heads = sub } })
        else if n == 2
        then done tt (record s { connection = record s.connection { sub_pending_tx = sub } })
        else abort s

    unfoldable pub notified : String → Json → Action State (Unit {0})
    notified sub result = do
      s ← get
      if same sub s.connection.sub_new_heads
          then (do
            check (values.is_object result)
            hash ← field values values.as_string "hash" result
            on_env (cb.new_tip hash))
          else if same sub s.connection.sub_pending_tx
          then (do
            check (values.is_string result)
            txid ← reading (values.as_string result)
            on_env (cb.new_pending_tx txid))
          else pure tt

    -- The first half of HandleMessage: responses.
    unfoldable pub handle_response : Json → Action State (Unit {0})
    unfolding subscribed
    handle_response val =
        if values.is_member "result" val
        then (do
          id ← field values values.as_int "id" val
          sub ← field values values.as_string "result" val
          subscribed id sub)
        else pure tt

    -- The second half: notifications.
    unfoldable pub handle_notification : Json → Action State (Unit {0})
    unfolding notified
    handle_notification val =
        if values.is_member "method" val
        then (do
          method ← field values values.as_string "method" val
          if same method "eth_subscription"
              then (do
                params ← reading (values.at "params" val)
                check (values.is_object params)
                sub ← field values values.as_string "subscription" params
                result ← reading (values.at "result" params)
                notified sub result)
              else pure tt)
        else pure tt

    -- With the payload, as JSON.
    unfoldable pub handle_message : Json → Action State (Unit {0})
    unfolding handle_response handle_notification
    handle_message val = handle_response val >> handle_notification val
