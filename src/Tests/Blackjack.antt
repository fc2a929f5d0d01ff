-- ===== src/Tests/Blackjack.antt =====
-- Hands, shoes and games of src/easyprospect-web-worker/ws-user.cpp at concrete inputs.
use mathlib.Core.List.{Perm}
use easyprospect_service.Prelude.{
  inr, String, false, ℕ, ◌+◌, ◌*◌, ◌≤◌, ◌<◌, ◌≡◌, refl, ◌↔◌, ◌⊎◌, true, none, some, List, [], ◌∷◌,
  arith,
}
use easyprospect_service.Prelude.Int.{pos, negsuc}
use easyprospect_service.Blackjack.Hand.{
  value, Hand, empty_hand, count_cards, soften, hand_total, eval, is_finished,
}
use easyprospect_service.Blackjack.Hand.Rule.{
  Choice, worth, hand_total_best, eval-is_finished, eval_busts,
}
use easyprospect_service.Blackjack.Shoe.{fill, make_shoe}
use easyprospect_service.Blackjack.Shoe.Deals.{deals, deals-make_shoe-perm}
use easyprospect_service.Blackjack.Game.{
  Game, Event, not_playing, make_game, join, leave, surrender, bet, dealt,
}
use easyprospect_service.Blackjack.Game.Seating.{joins, step, Reach, here, next, Reach-not_playing}
use easyprospect_service.Rpc.{RpcCall}
use easyprospect_service.Json.{integer}
use easyprospect_service.Channels.{Job, job, table}
use easyprospect_service.Channels.Answers.{answers}
use easyprospect_service.Blackjack.Table.{Table, run_post}
use easyprospect_service.Blackjack.Table.Replies.{ran_to_end, run_post-Answered}
use easyprospect_service.Blackjack.Game.Dealing.{size_at, rounds, rounds-shares}

two_aces : hand_total (1 ∷ 1 ∷ 9 ∷ []) ≡ 21
unfolding hand_total count_cards soften
two_aces = refl

hand_total_best_example :
    Choice (1 ∷ 1 ∷ 9 ∷ []) (hand_total (1 ∷ 1 ∷ 9 ∷ []))
    × ((t : ℕ)
        → Choice (1 ∷ 1 ∷ 9 ∷ []) t
        → t ≤ 21
        → (hand_total (1 ∷ 1 ∷ 9 ∷ []) ≤ 21) × (t ≤ hand_total (1 ∷ 1 ∷ 9 ∷ [])))
hand_total_best_example =
    hand_total_best (1 ∷ 1 ∷ 9 ∷ []) (omega arith, (omega arith, (omega arith, tt)))

abbrev ace_ten : Hand
ace_ten = record empty_hand { cards = 1 ∷ 10 ∷ [] }

eval-is_finished_example :
    (((eval ace_ten).busted ≡ true) ↔ (21 < 11))
    × (((eval ace_ten).twenty_one ≡ true) ↔ Choice (1 ∷ 10 ∷ []) 21)
    × ((is_finished (eval ace_ten) ≡ true) ↔ ((21 < 11) ⊎ Choice (1 ∷ 10 ∷ []) 21))
unfolding value
eval-is_finished_example = eval-is_finished ace_ten (omega arith, (omega arith, tt))

-- The aces of two suits are worth 2 and bust.
abbrev two_suits : Hand
two_suits = record empty_hand { cards = 14 ∷ 27 ∷ [] }

two_suits_worth : worth (14 ∷ 27 ∷ []) ≡ 2
unfolding value
two_suits_worth = refl

eval_busts_example : (eval two_suits).busted ≡ true
eval_busts_example = eval_busts two_suits (inr (omega arith))

abbrev sevens : ℕ → ℕ
sevens k = k * 7 + 3

deals-make_shoe-perm_example : Perm (deals sevens 52 (make_shoe sevens 1 0)).0 (fill 52 0)
deals-make_shoe-perm_example = deals-make_shoe-perm sevens 1 0 (omega arith)

abbrev new_game : Game
new_game = make_game sevens 1 0 (pos 0)

join_same_game : (join new_game 7).0 ≡ new_game
unfolding join make_game step
join_same_game = refl

after_join : Reach sevens new_game new_game
unfolding join make_game step
after_join = next here (joins 7) refl

Reach-not_playing_example :
    (join new_game 7 ≡ (new_game, none))
    × (bet new_game 7 none ≡ (new_game, some not_playing, []))
    × (leave new_game 7 none ≡ (new_game, 0, some not_playing))
    × (surrender new_game 7 ≡ (new_game, negsuc 0))
Reach-not_playing_example = Reach-not_playing sevens 1 0 (pos 0) new_game 7 none after_join

rounds-shares_example :
    (g : Game) × (events : List Event) × (rounds sevens 8 new_game ≡ dealt g events)
    × (g.turn ≡ 2)
    × (size_at g.seats 1 ≡ 2)
rounds-shares_example = rounds-shares sevens 1 0 (pos 0) 8 1 (omega arith) (omega arith)

abbrev no_names : ℕ → String
no_names u = ""

abbrev new_table : Table
new_table = record {
  site = record {
    channel = record { kind = table; cid = 3; name = "Blackjack"; sessions = 5 ∷ 8 ∷ [] };
    world = record {
      names = no_names;
      alive = λ s. true;
      moved = λ s. false;
      outbox = [];
      asked = [];
      posted = [];
    };
  };
  g = new_game;
}

abbrev call_7 : RpcCall
call_7 = record {
  id = some (pos 7);
  version = 2;
  method = "play";
  params = integer (pos 0);
  result = integer (pos 0);
}

run_post-Answered_example :
    answers (run_post no_names sevens (job Job.play call_7 5) 90 new_table).0.site.world
    ≡ answers new_table.site.world
      + ran_to_end (run_post no_names sevens (job Job.play call_7 5) 90 new_table).1
run_post-Answered_example = run_post-Answered no_names call_7 7 refl 5 sevens Job.play 90 new_table
