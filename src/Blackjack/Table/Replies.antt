-- ===== src/Blackjack/Table/Replies.antt =====
-- Each job of the table is answered once, unless it does not end.
use easyprospect_service.Prelude.{
  ℕ, ◌+◌, ◌≡◌, refl, ◌∙◌, inl, inr, Option, none, some, List, [], ◌∷◌, String, arith, Option-cases,
}
use easyprospect_service.Prelude.Int.{pos}
use easyprospect_service.Json.{Json, lookup, assign}
use easyprospect_service.Rpc.{RpcCall, error_of_text}
use easyprospect_service.Blackjack.Game.{
  Error, Game, Event, game_bet, game_deal_card, join, leave, bet, Deal, dealt, threw, start,
}
use easyprospect_service.Blackjack.Game
use easyprospect_service.Blackjack.Table.{
  Table, update_json, Ran, ended, escaped, undefined, update, updates, game_json, reply, refuse,
  do_play, do_watch, do_bet, do_nothing, do_start, run_post,
}
use easyprospect_service.Channels.{Channel, Job, job}
use easyprospect_service.Channels.Answers.{has_id, answers, answers-send_direct, answers-broadcast}
use easyprospect_service.Channels.Once.{complete_one}
use easyprospect_service.Channels.Receive.{report_one}

abbrev pub ran_to_end : Ran → ℕ
ran_to_end ended = 1
ran_to_end _ = 0

-- What a handler that ends adds to the answers of `t`.
abbrev Adds : ℕ → Table → Table × Ran → Type 0
Adds n t (u, r) = answers u.site.world ≡ answers t.site.world + n

abbrev Answered : Table → Table × Ran → Type 0
Answered t (u, r) = answers u.site.world ≡ answers t.site.world + ran_to_end r

module _ (names : ℕ → String) where
  update_plain :
      (action : String) (c : Channel) (game : Json) → has_id (update_json action c game) ≡ 0
  unfolding update_json assign lookup
  update_plain action c game = refl

  update-Adds : (action : String) (t : Table) → Adds 0 t (update names action t)
  unfolding update
  update-Adds action t = elim (Option-cases (game_json names t.g)) [
    | inl e ↦ rw (e, update) (omega arith)
    | inr (game, e) ↦
        let jv = update_json action t.site.channel game in
        rw (e, update)
          (answers-broadcast jv t.site (update_plain action t.site.channel game) ∙ omega arith)
  ]

  updates-Adds : (es : List Event) (t : Table) → Adds 0 t (updates names es t)
  unfolding updates
  updates-Adds [] t = omega arith
  updates-Adds (game_bet ∷ es) t = update-Adds "bet" t
  updates-Adds (game_deal_card ∷ es) t = update-Adds "deal" t

  module _ (rpc : RpcCall) (n : ℕ) (h : rpc.id ≡ some (pos n)) (s : ℕ) where
    reply-Answered : (t : Table) (r : Table × Ran) → Adds 0 t r → Answered t (reply names rpc s r)
    unfolding reply
    reply-Answered t (u, ended) e =
        let (jv, c, one) = complete_one rpc (pos n) h in
        rw (c, reply) (answers-send_direct s jv u.site.world ∙ omega (arith, one))
    reply-Answered t (u, escaped) e = e
    reply-Answered t (u, undefined) e = e

    refuse-Answered : (t : Table) (ec : Error) → Answered t (refuse names rpc s ec t)
    unfolding refuse
    refuse-Answered t ec =
        let (jv, c, one) = report_one rpc (error_of_text (Game.message ec)) n h in
        rw (c, refuse) (answers-send_direct s jv t.site.world ∙ omega (arith, one))

    either-Answered :
        (t : Table) (ec : Option Error) (r : Table × Ran)
        → Adds 0 t r
        → Answered t (elim ec [ some e ↦ refuse names rpc s e t | none ↦ reply names rpc s r ])
    either-Answered t none r e = reply-Answered t r e
    either-Answered t (some ec) r e = refuse-Answered t ec

    do_play-Answered : (v : ℕ) (t : Table) → Answered t (do_play names rpc v s t)
    unfolding do_play
    do_play-Answered v t =
        let (g, ec) = join t.g v in
        let u : Table = record t { g = g } in
        either-Answered u ec (update names "play" u) (update-Adds "play" u)

    do_watch-Answered : (v : ℕ) (t : Table) → Answered t (do_watch names rpc v s t)
    unfolding do_watch
    do_watch-Answered v t =
        let (g, code, ec) = leave t.g v none in
        let u : Table = record t { g = g } in
        either-Answered u ec (update names "watch" u) (update-Adds "watch" u)

    do_bet-Answered : (v : ℕ) (t : Table) → Answered t (do_bet names rpc v s t)
    unfolding do_bet
    do_bet-Answered v t =
        let (g, ec, events) = bet t.g v none in
        let u : Table = record t { g = g } in
        either-Answered u ec (updates names events u) (updates-Adds events u)

    do_nothing-Answered : (t : Table) → Answered t (do_nothing names rpc s t)
    unfolding do_nothing
    do_nothing-Answered t = reply-Answered t (t, ended) (omega arith)

    module _ (rand : ℕ → ℕ) where
      do_start-Answered : (t : Table) → Answered t (do_start names rand rpc s t)
      unfolding do_start
      do_start-Answered t = dealt_case (start rand t.g).0
        where
          dealt_case :
              (d : Deal)
              → Answered t (elim d [
                | dealt g events ↦ reply names rpc s (updates names events (record t { g = g }))
                | threw g ↦ (record t { g = g }, escaped)
                | Deal.undefined ↦ (t, undefined)
              ])
          dealt_case (dealt g events) =
              let u : Table = record t { g = g } in
              reply-Answered u (updates names events u) (updates-Adds events u)
          dealt_case (threw g) = omega arith
          dealt_case Deal.undefined = omega arith

      -- A job of the table with an id that is not negative is answered by exactly one reply if its
      -- handler ends, an error reply or a result, and by none if an exception leaves it.
      pub run_post-Answered :
          (j : Job) (v : ℕ) (t : Table) → Answered t (run_post names rand (job j rpc s) v t)
      unfolding run_post
      run_post-Answered Job.play v t = do_play-Answered v t
      run_post-Answered Job.watch v t = do_watch-Answered v t
      run_post-Answered Job.bet v t = do_bet-Answered v t
      run_post-Answered Job.start v t = do_start-Answered t
      run_post-Answered Job.hit v t = do_nothing-Answered t
      run_post-Answered Job.stand v t = do_nothing-Answered t
