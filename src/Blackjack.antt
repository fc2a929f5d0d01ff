-- ===== src/Blackjack.antt =====
-- The blackjack table of src/easyprospect-web-worker/ws-user.cpp: hands, the shoe, the game.
pub mod Hand
pub mod Shoe
pub mod Game
pub mod Table
