-- ===== src/Channels/Frame.antt =====
-- What sending leaves as it is: the channel, the names and the sessions that are alive.
use easyprospect_service.Prelude.{ℕ, ◌≡◌, refl, ◌∙◌, inl, inr, List, [], ◌∷◌, if-both, Option-cases}
use easyprospect_service.Json.{Json}
use easyprospect_service.Rpc.{RpcCall, complete}
use easyprospect_service.Channels.{
  Kind, room, system, table, World, Site, post_to, send_direct, send_if_alive, send_each, post,
  notice, broadcast, user_name, on_insert, on_erase, announce_join, announce_leave, complete_to,
  inserted, erased,
}

pub record SameWorld (w v : World) : Type 0 where
  pub names : v.names ≡ w.names
  pub alive : v.alive ≡ w.alive
  pub moved : v.moved ≡ w.moved

pub record Same (k l : Site) : Type 0 where
  pub channel : l.channel ≡ k.channel
  pub world : SameWorld k.world l.world

SameWorld-refl : (w : World) → SameWorld w w
SameWorld-refl w = record { names = refl; alive = refl; moved = refl }

SameWorld-trans : {u v w : World} → SameWorld u v → SameWorld v w → SameWorld u w
SameWorld-trans a b = record {
  names = b.names ∙ a.names;
  alive = b.alive ∙ a.alive;
  moved = b.moved ∙ a.moved;
}

pub Same-refl : (k : Site) → Same k k
Same-refl k = record { channel = refl; world = SameWorld-refl k.world }

pub Same-trans : {k l m : Site} → Same k l → Same l m → Same k m
Same-trans a b = record { channel = b.channel ∙ a.channel; world = SameWorld-trans a.world b.world }

post_to-Same : (s : ℕ) (jv : Json) (w : World) → SameWorld w (post_to s jv w)
unfolding post_to send_direct
post_to-Same s jv w =
    if-both (SameWorld w) (w.moved s) (SameWorld-refl w)
      (record { names = refl; alive = refl; moved = refl })

pub send_if_alive-Same : (s : ℕ) (jv : Json) (w : World) → SameWorld w (send_if_alive s jv w)
unfolding send_if_alive
send_if_alive-Same s jv w =
    if-both (SameWorld w) (w.alive s) (post_to-Same s jv w) (SameWorld-refl w)

send_each-Same : (ss : List ℕ) (jv : Json) (w : World) → SameWorld w (send_each ss jv w)
unfolding send_each
send_each-Same [] jv w = SameWorld-refl w
send_each-Same (s ∷ ss) jv w =
    SameWorld-trans (send_if_alive-Same s jv w) (send_each-Same ss jv (send_if_alive s jv w))

pub broadcast-Same : (jv : Json) (k : Site) → Same k (broadcast jv k)
unfolding broadcast
broadcast-Same jv k = record {
  channel = refl;
  world = send_each-Same k.channel.sessions jv k.world;
}

on_insert-Same : (s : ℕ) (k : Site) → Same k (on_insert s k)
unfolding on_insert post
on_insert-Same s k = hooked k.channel.kind
  where
    hooked :
        (d : Kind)
        → Same k (elim d [ table ↦ record k { world = post (inserted s) k.world } | _ ↦ k ])
    hooked room = Same-refl k
    hooked system = Same-refl k
    hooked table = record {
      channel = refl;
      world = record { names = refl; alive = refl; moved = refl };
    }

on_erase-Same : (u s : ℕ) (k : Site) → Same k (on_erase u s k)
unfolding on_erase post
on_erase-Same u s k = hooked k.channel.kind
  where
    hooked :
        (d : Kind)
        → Same k (elim d [ table ↦ record k { world = post (erased u s) k.world } | _ ↦ k ])
    hooked room = Same-refl k
    hooked system = Same-refl k
    hooked table = record {
      channel = refl;
      world = record { names = refl; alive = refl; moved = refl };
    }

pub announce_join-Same : (u s : ℕ) (k : Site) → Same k (announce_join u s k)
unfolding announce_join
announce_join-Same u s k =
    let jv = notice "join" k.channel (user_name u k) in
    Same-trans (broadcast-Same jv k) (on_insert-Same s (broadcast jv k))

pub announce_leave-Same : (u s : ℕ) (k : Site) → Same k (announce_leave u s k)
unfolding announce_leave
announce_leave-Same u s k =
    let jv = notice "leave" k.channel (user_name u k) in
    let l = broadcast jv k in
    let m : Site = record l { world = send_if_alive s jv l.world } in
    Same-trans (broadcast-Same jv k) (
      Same-trans {l = m} (record { channel = refl; world = send_if_alive-Same s jv l.world })
        (on_erase-Same u s m))

pub complete_to-Same : (rpc : RpcCall) (s : ℕ) (k : Site) → Same k (complete_to rpc s k)
unfolding complete_to
complete_to-Same rpc s k = elim (Option-cases (complete rpc)) [
  | inl e ↦ rw (e, complete_to) (Same-refl k)
  | inr (r, e) ↦ rw (e, complete_to) (record { channel = refl; world = post_to-Same s r k.world })
]
