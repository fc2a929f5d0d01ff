-- ===== src/Channels/Hub.antt =====
-- `channel_list_impl` of include/easyprospect-web-worker/worker-server.h, and what
-- `ws_session_base::operator()` of include/easyprospect-service-shared/session.hpp does with a
-- message.
use easyprospect_service.Prelude.{
  if◌then◌else◌, ℕ, ◌+◌, ◌-◌, Option, none, some, List, [], ◌∷◌, ◌++◌, String, length, get_elem?,
  set, replicate,
}
use easyprospect_service.Json.{Json, get_size}
use easyprospect_service.Rpc.{
  RpcCall, empty_call, RpcError, error_with, invalid_request, invalid_params, Float, extract,
  returned, threw, complete_error, ok, fail, checked_value, message,
}
use easyprospect_service.Channels.{
  room, system, table, Channel, World, Site, Outcome, done, failed, crash, send_direct,
}
use easyprospect_service.Channels.Dispatch.{dispatch}

-- `channel_list_impl` with the world of its channels: `channels` is `v_`.
pub record Hub : Type 0 where
  pub channels : List (Option Channel)
  pub world : World

-- The constructor leaves element 0 unused; `resize` fills with null.
unfoldable pub resize : ℕ → List (Option Channel) → List (Option Channel)
resize n v = v ++ replicate (n - length v) none

unfoldable pub put : Channel → List (Option Channel) → List (Option Channel)
unfolding resize
put c v = set (resize (c.cid + 1) v) c.cid (some c)

unfoldable pub take_out : Channel → List (Option Channel) → List (Option Channel)
take_out c v = set v c.cid none

abbrev pub at : ℕ → List (Option Channel) → Option Channel
at cid v = elim (get_elem? v cid) [ none ↦ none | some c ↦ c ]

-- The list with the rooms that the server makes: "General" in the constructor, the system channel
-- and, when the service starts, the blackjack table.
unfoldable pub first_channels : List (Option Channel)
unfolding put
first_channels =
    let general : Channel = record { kind = room; cid = 2; name = "General"; sessions = [] } in
    let system_channel : Channel = record {
      kind = system;
      cid = 1;
      name = "System";
      sessions = [];
    } in
    let blackjack : Channel = record { kind = table; cid = 3; name = "Blackjack"; sessions = [] } in
    put blackjack (put system_channel (put general (none ∷ [])))

unfoldable pub write_back : ℕ → Hub → Site × Outcome → Hub × Outcome
write_back cid h (k, o) =
    (record { channels = set h.channels cid (some k.channel); world = k.world }, o)

-- `channel_list_impl::dispatch`
unfoldable pub dispatch_list : RpcCall → ℕ → ℕ → Hub → Hub × Outcome
unfolding checked_value get_size dispatch write_back error_with
dispatch_list rpc u s h = elim (checked_value rpc.params "cid") [
  | fail e ↦ (h, failed e)
  | ok v ↦ elim (get_size v) [
    | none ↦ (h, crash)
    | some cid ↦ elim (at cid h.channels) [
      | none ↦ (h, failed (error_with invalid_params "Unknown cid"))
      | some c ↦ write_back cid h (dispatch rpc u s (record { channel = c; world = h.world }))
    ]
  ]
]

-- The read loop goes on, ends, or an exception leaves it.
pub data Loop : Type 0 where
  reading ended crashed : Loop
  -- The user of the session is a null pointer.
  undefined : Loop

-- The handler for an `rpc_error`.
unfoldable pub report : RpcCall → RpcError → ℕ → Hub → Hub
unfolding complete_error send_direct
report rpc e s h = elim (complete_error rpc e) [
  | none ↦ h
  | some jv ↦ record h { world = send_direct s jv h.world }
]

unfoldable pub settle : RpcCall → ℕ → Hub × Outcome → Hub × Loop
unfolding report
settle rpc s (h, done) = (h, reading)
settle rpc s (h, failed e) = (report rpc e s h, reading)
settle rpc s (h, crash) = (h, crashed)

module _ (stof : String → Option Float) (parse : String → Option Json) where
  -- `operator()` for one message that was read without an error; the user of session `s` is `s`.
  unfoldable pub receive : ℕ → String → Hub → Hub × Loop
  unfolding extract dispatch_list settle error_with message
  receive s text h = elim (parse text) [
    | none ↦ (h, ended)
    | some jv ↦ elim (extract stof jv empty_call) [
      | returned rpc (some ec) ↦ settle rpc s (h, failed (error_with invalid_request (message ec)))
      | returned rpc none ↦
          if h.world.moved s then (h, undefined) else settle rpc s (dispatch_list rpc s s h)
      | threw rpc e ↦ (h, crashed)
    ]
  ]

  -- A run of messages from any sessions, each with the session that read it, while all loops go on.
  unfoldable pub receive_all : List (ℕ × String) → Hub → Hub
  unfolding receive
  receive_all [] h = h
  receive_all ((s, text) ∷ ms) h = receive_all ms (receive s text h).0
