-- ===== src/Blackjack/Table.antt =====
-- `class table` of src/easyprospect-web-worker/ws-user.cpp: the handlers that run on its strand, and
-- the JSON of a game. A handler owns the session that was moved into it, so its reply is sent.
pub mod Replies
use easyprospect_service.Prelude.{
  if◌then◌else◌, ◌==◌, ℕ, zero, suc, ◌+◌, Bool, true, false, Option, none, some, List, [], ◌∷◌,
  ◌++◌, map, String,
}
use easyprospect_service.Prelude.Int.{ℤ, pos, negsuc}
use easyprospect_service.Json.{
  Json, Items, nil, cons, Fields, end, assign, integer, string, array, object,
}
use easyprospect_service.Rpc.{RpcCall, RpcError, error_of_text, complete, complete_error}
use easyprospect_service.Blackjack.Hand.{Hand}
use easyprospect_service.Blackjack.Game.{
  Error, message, SeatState, dealer, waiting, playing, leaving, open_seat, Seat, GameState, wait,
  play, Game, Event, game_bet, game_deal_card, join, leave, surrender, bet, Deal, dealt, threw,
  start,
}
use easyprospect_service.Blackjack.Game
use easyprospect_service.Channels.{
  Channel, World, Site, Job, Post, inserted, erased, job, broadcast, send_direct, post_to,
}
use easyprospect_service.Channels

unfoldable pub items : List Json → Items
items [] = nil
items (x ∷ xs) = cons x (items xs)

-- `to_json(json&, hand const&)`
unfoldable pub hand_json : Hand → Json
unfolding items
hand_json h = array (items (map (λ c. integer (pos c)) h.cards))

-- A seat whose state has a user but whose pointer is null is undefined behaviour.
unfoldable pub player_fields : (ℕ → String) → String → Seat → Fields → Option Fields
player_fields names state s fs = elim s.u [
  | none ↦ none
  | some v ↦ some (
      assign "chips" (integer s.chips)
        (assign "user" (string (names v)) (assign "state" (string state) fs)))
]

unfoldable pub with_wager : Seat → Option Fields → Option Fields
with_wager s none = none
with_wager s (some fs) = some (assign "wager" (integer s.wager) fs)

unfoldable pub seat_fields : (ℕ → String) → Seat → Fields → Option Fields
unfolding player_fields with_wager
seat_fields names s fs = elim s.state [
  | dealer ↦ some (assign "state" (string "dealer") fs)
  | waiting ↦ player_fields names "waiting" s fs
  | playing ↦ with_wager s (player_fields names "playing" s fs)
  | leaving ↦ with_wager s (player_fields names "leaving" s fs)
  | open_seat ↦ some (assign "state" (string "open") fs)
]

-- `to_json(json&, seat const&)`
unfoldable pub seat_json : (ℕ → String) → Seat → Option Json
unfolding seat_fields hand_json
seat_json names s =
    elim (seat_fields names s (assign "hands" (array (items (map hand_json s.hands))) end)) [
      | none ↦ none
      | some fs ↦ some (object fs)
    ]

unfoldable pub seats_json : (ℕ → String) → List Seat → Option Items
unfolding seat_json
seats_json names [] = some nil
seats_json names (s ∷ ss) =
    let rest = seats_json names ss in
    elim (seat_json names s) [
      | none ↦ none
      | some j ↦ elim rest [ none ↦ none | some js ↦ some (cons j js) ]
    ]

unfoldable pub state_text : GameState → String
state_text wait = "Waiting for players"
state_text play = "Playing"

-- `to_json(json&, game const&)`
unfoldable pub game_json : (ℕ → String) → Game → Option Json
unfolding seats_json state_text
game_json names g = elim (seats_json names g.seats) [
  | none ↦ none
  | some js ↦
      some (object (assign "seats" (array js) (assign "message" (string (state_text g.state)) end)))
]

pub record Table : Type 0 where
  pub site : Site
  pub g : Game

unfoldable pub update_json : String → Channel → Json → Json
update_json action c game = object (
    assign "game" game (
      assign "action" (string action)
        (assign "verb" (string "update") (assign "cid" (integer (pos c.cid)) end))))

-- A handler ends, an exception leaves it, or its behaviour is undefined.
pub data Ran : Type 0 where
  ended escaped undefined : Ran

abbrev pub is_one : ℤ → Bool
is_one (pos n) = n == 1
is_one (negsuc n) = false

module _ (names : ℕ → String) where
  -- `update`
  unfoldable pub update : String → Table → Table × Ran
  unfolding game_json update_json broadcast
  update action t = elim (game_json names t.g) [
    | none ↦ (t, undefined)
    | some game ↦
        (record t { site = broadcast (update_json action t.site.channel game) t.site }, ended)
  ]

  unfoldable pub updates : List Event → Table → Table × Ran
  unfolding update
  updates [] t = (t, ended)
  updates (game_bet ∷ es) t = update "bet" t
  updates (game_deal_card ∷ es) t = update "deal" t

  abbrev pub send_to : ℕ → Option Json → Table → Table
  send_to s none t = t
  send_to s (some jv) t = record t {
    site = record t.site { world = send_direct s jv t.site.world };
  }

  -- `rpc.complete(f1)`, after what came before it has ended.
  unfoldable pub reply : RpcCall → ℕ → Table × Ran → Table × Ran
  unfolding complete
  reply rpc s (t, ended) = (send_to s (complete rpc) t, ended)
  reply rpc s (t, escaped) = (t, escaped)
  reply rpc s (t, undefined) = (t, undefined)

  -- `rpc.fail(ec.message())` and the handler for it.
  unfoldable pub refuse : RpcCall → ℕ → Error → Table → Table × Ran
  unfolding complete_error error_of_text Game.message
  refuse rpc s ec t = (send_to s (complete_error rpc (error_of_text (Game.message ec))) t, ended)

  unfoldable pub do_play : RpcCall → ℕ → ℕ → Table → Table × Ran
  unfolding join update reply refuse
  do_play rpc v s t =
      let (g, ec) = join t.g v in
      let u : Table = record t { g = g } in
      elim ec [ some e ↦ refuse rpc s e u | none ↦ reply rpc s (update "play" u) ]

  unfoldable pub do_watch : RpcCall → ℕ → ℕ → Table → Table × Ran
  unfolding leave update reply refuse
  do_watch rpc v s t =
      let (g, code, ec) = leave t.g v none in
      let u : Table = record t { g = g } in
      elim ec [ some e ↦ refuse rpc s e u | none ↦ reply rpc s (update "watch" u) ]

  unfoldable pub do_bet : RpcCall → ℕ → ℕ → Table → Table × Ran
  unfolding bet updates reply refuse
  do_bet rpc v s t =
      let (g, ec, events) = bet t.g v none in
      let u : Table = record t { g = g } in
      elim ec [ some e ↦ refuse rpc s e u | none ↦ reply rpc s (updates events u) ]

  -- `do_hit` and `do_stand`
  unfoldable pub do_nothing : RpcCall → ℕ → Table → Table × Ran
  unfolding reply
  do_nothing rpc s t = reply rpc s (t, ended)

  -- `do_insert`
  unfoldable pub do_insert : ℕ → Table → Table × Ran
  unfolding game_json update_json post_to
  do_insert s t = elim (game_json names t.g) [
    | none ↦ (t, undefined)
    | some game ↦
        let jv = update_json "init" t.site.channel game in
        (record t { site = record t.site { world = post_to s jv t.site.world } }, ended)
  ]

  -- `do_erase`
  unfoldable pub do_erase : ℕ → Table → Table × Ran
  unfolding surrender update
  do_erase u t =
      let (g, result) = surrender t.g u in
      let v : Table = record t { g = g } in
      if is_one result then update "surrender" v else (v, ended)

  module _ (rand : ℕ → ℕ) where
    unfoldable pub do_start : RpcCall → ℕ → Table → Table × Ran
    unfolding start updates reply
    do_start rpc s t = elim (start rand t.g).0 [
      | dealt g events ↦ reply rpc s (updates events (record t { g = g }))
      | threw g ↦ (record t { g = g }, escaped)
      | Deal.undefined ↦ (t, undefined)
    ]

    -- A posted call; `v` is the user that was moved into the handler.
    unfoldable pub run_post : Post → ℕ → Table → Table × Ran
    unfolding do_play do_watch do_bet do_nothing do_insert do_erase do_start
    run_post (inserted s) v t = do_insert s t
    run_post (erased u s) v t = do_erase u t
    run_post (job Job.play rpc s) v t = do_play rpc v s t
    run_post (job Job.watch rpc s) v t = do_watch rpc v s t
    run_post (job Job.bet rpc s) v t = do_bet rpc v s t
    run_post (job Job.start rpc s) v t = do_start rpc s t
    run_post (job Job.hit rpc s) v t = do_nothing rpc s t
    run_post (job Job.stand rpc s) v t = do_nothing rpc s t
