-- ===== src/Channels/Answers.antt =====
-- How many requests a world has answered.
use easyprospect_service.Prelude.{
  false, if-both, if◌then◌else◌, ap, ℕ, ◌+◌, ◌≡◌, refl, ap, ◌∙◌, none, some, List, [], ◌∷◌, ◌++◌,
  String, arith, if◌then◌else◌,
}
use easyprospect_service.Json.{Json, lookup, find, assign}
use easyprospect_service.Channels.{
  Channel, inserted, erased, job, Post, World, Site, send_direct, post_to, send_if_alive, send_each,
  post, notice, said, broadcast, user_name, on_insert, on_erase, announce_join, announce_leave,
  insert_session, erase_session, with_sessions, insert, erase,
}

-- A message with an id is a reply.
abbrev pub has_id : Json → ℕ
has_id jv = elim (find jv "id") [ none ↦ 0 | some v ↦ 1 ]

abbrev pub replies : List (ℕ × Json) → ℕ
replies [] = 0
replies ((s, jv) ∷ ms) = has_id jv + replies ms

abbrev pub is_job : Post → ℕ
is_job (job j rpc s) = 1
is_job _ = 0

abbrev pub jobs : List Post → ℕ
jobs [] = 0
jobs (p ∷ ps) = is_job p + jobs ps

-- The requests that were answered, and those that the table has to answer.
abbrev pub answers : World → ℕ
answers w = replies w.outbox + jobs w.posted

replies-append : (xs ys : List (ℕ × Json)) → replies (xs ++ ys) ≡ replies xs + replies ys
replies-append [] ys = omega arith
replies-append ((s, jv) ∷ xs) ys = omega (arith, replies-append xs ys)

jobs-append : (xs ys : List Post) → jobs (xs ++ ys) ≡ jobs xs + jobs ys
jobs-append [] ys = omega arith
jobs-append (p ∷ xs) ys = omega (arith, jobs-append xs ys)

pub answers-send_direct :
    (s : ℕ) (jv : Json) (w : World) → answers (send_direct s jv w) ≡ answers w + has_id jv
unfolding send_direct
answers-send_direct s jv w = omega (arith, replies-append w.outbox ((s, jv) ∷ []))

pub answers-post_to :
    (s : ℕ) (jv : Json) (w : World)
    → w.moved s ≡ false
    → answers (post_to s jv w) ≡ answers w + has_id jv
unfolding post_to
answers-post_to s jv w m =
    ap (λ b. answers (if b then w else send_direct s jv w)) m ∙ answers-send_direct s jv w

answers-post_to_plain :
    (s : ℕ) (jv : Json) (w : World) → has_id jv ≡ 0 → answers (post_to s jv w) ≡ answers w
unfolding post_to
answers-post_to_plain s jv w h =
    if-both (λ v. answers v ≡ answers w) (w.moved s) refl
      (omega (arith, answers-send_direct s jv w))

pub answers-post : (p : Post) (w : World) → answers (post p w) ≡ answers w + is_job p
unfolding post
answers-post p w = omega (arith, jobs-append w.posted (p ∷ []))

answers-send_if_alive :
    (s : ℕ) (jv : Json) (w : World) → has_id jv ≡ 0 → answers (send_if_alive s jv w) ≡ answers w
unfolding send_if_alive
answers-send_if_alive s jv w h =
    if-both (λ v. answers v ≡ answers w) (w.alive s) (answers-post_to_plain s jv w h) refl

answers-send_each :
    (ss : List ℕ) (jv : Json) (w : World) → has_id jv ≡ 0 → answers (send_each ss jv w) ≡ answers w
unfolding send_each
answers-send_each [] jv w h = refl
answers-send_each (s ∷ ss) jv w h =
    answers-send_each ss jv (send_if_alive s jv w) h ∙ answers-send_if_alive s jv w h

notice_plain : (verb : String) (c : Channel) (user : String) → has_id (notice verb c user) ≡ 0
unfolding notice assign lookup
notice_plain verb c user = refl

pub said_plain : (c : Channel) (user text : String) → has_id (said c user text) ≡ 0
unfolding said assign lookup
said_plain c user text = refl

answers-on_insert : (s : ℕ) (k : Site) → answers (on_insert s k).world ≡ answers k.world
unfolding on_insert
answers-on_insert s k = ground (arith, answers-post (inserted s) k.world)

answers-on_erase : (u s : ℕ) (k : Site) → answers (on_erase u s k).world ≡ answers k.world
unfolding on_erase
answers-on_erase u s k = ground (arith, answers-post (erased u s) k.world)

pub answers-broadcast :
    (jv : Json) (k : Site) → has_id jv ≡ 0 → answers (broadcast jv k).world ≡ answers k.world
unfolding broadcast
answers-broadcast jv k h = answers-send_each k.channel.sessions jv k.world h

answers-announce_join : (u s : ℕ) (k : Site) → answers (announce_join u s k).world ≡ answers k.world
unfolding announce_join
answers-announce_join u s k =
    let jv = notice "join" k.channel (user_name u k) in
    answers-on_insert s (broadcast jv k)
    ∙ answers-broadcast jv k (notice_plain "join" k.channel (user_name u k))

answers-announce_leave :
    (u s : ℕ) (k : Site) → answers (announce_leave u s k).world ≡ answers k.world
unfolding announce_leave
answers-announce_leave u s k =
    let jv = notice "leave" k.channel (user_name u k) in
    let l = broadcast jv k in
    let plain = notice_plain "leave" k.channel (user_name u k) in
    answers-on_erase u s (record l { world = send_if_alive s jv l.world })
    ∙ (answers-send_if_alive s jv l.world plain ∙ answers-broadcast jv k plain)

pub answers-insert : (u s : ℕ) (k : Site) → answers (insert u s k).0.world ≡ answers k.world
unfolding insert
answers-insert u s k =
    let l = with_sessions (insert_session s k.channel.sessions) k in
    ground (arith, answers-announce_join u s l)

pub answers-erase : (u s : ℕ) (k : Site) → answers (erase u s k).0.world ≡ answers k.world
unfolding erase
answers-erase u s k =
    let l = with_sessions (erase_session s k.channel.sessions) k in
    ground (arith, answers-announce_leave u s l)
