-- ===== src/Downstream/Forwards.antt =====
-- When a request is forwarded.
use easyprospect_service.Prelude.{ℕ, ◌≡◌, refl, false, Option, none, some, List, if-both, get_elem?}
use easyprospect_service.Prelude.Int.{pos}
use easyprospect_service.Downstream.{
  Connection, Session, Backend, Downstream, found_session, get_session, find_acquire,
  take_connection, taken, get_connection, connections_at, put_session, set_owner,
}
use easyprospect_service.Downstream.Serve.{
  Package, Net, bound, connection_of, Sent, backend_at, init_at, initialize, forward, exchange,
  connect, serve, current, start_with, start_request,
}

-- A backend in the range of the connections and of the backends.
pub record Known (i : ℕ) (d : Downstream) : Type 0 where
  pub con : List ℕ
  pub backend : Backend
  pub pool : get_elem? d.connections i ≡ some con
  pub entry : get_elem? d.backends i ≡ some backend

abbrev KnownSession : ℕ → Option (Downstream × Session) → Type 0
KnownSession i none = ⊥
KnownSession i (some (d, x)) = Known i d

abbrev KnownConnection : ℕ → Option (Downstream × ℕ) → Type 0
KnownConnection i none = ⊥
KnownConnection i (some (d, a)) = Known i d

found_session-Known :
    (i fresh s : ℕ) (d : Downstream) (m : Option Session)
    → Known i d
    → KnownSession i (found_session fresh s false d m)
unfolding found_session put_session
found_session-Known i fresh s d none k = record {
  con = k.con;
  backend = k.backend;
  pool = k.pool;
  entry = k.entry;
}
found_session-Known i fresh s d (some x) k = k

take_connection-Known :
    (i s : ℕ) (f : (ℕ → Connection) × Option ℕ) (d : Downstream)
    → Known i d
    → KnownConnection i (some (take_connection s f d))
unfolding take_connection set_owner
take_connection-Known i s (h, none) d k = record {
  con = k.con;
  backend = k.backend;
  pool = k.pool;
  entry = k.entry;
}
take_connection-Known i s (h, some a) d k = record {
  con = k.con;
  backend = k.backend;
  pool = k.pool;
  entry = k.entry;
}

taken-Known :
    (i s : ℕ) (d : Downstream) (m : Option (List ℕ)) (c : List ℕ)
    → m ≡ some c
    → Known i d
    → KnownConnection i (taken s d m)
unfolding taken
taken-Known i s d none c e k = cc
taken-Known i s d (some b) c e k = take_connection-Known i s (find_acquire s b d.heap) d k

bound-Known :
    (i : ℕ) (x : Session) (m : Option (Downstream × ℕ))
    → KnownConnection i m
    → KnownConnection i (bound x m)
unfolding bound put_session
bound-Known i x none k = k
bound-Known i x (some (d, a)) k = record {
  con = k.con;
  backend = k.backend;
  pool = k.pool;
  entry = k.entry;
}

connection_of-Known :
    (i : ℕ) (x : Session) (m : Option ℕ) (d : Downstream)
    → Known i d
    → KnownConnection i (connection_of (pos i) x m d)
unfolding connection_of get_connection connections_at
connection_of-Known i x (some a) d k = k
connection_of-Known i x none d k =
    bound-Known i x _ (taken-Known i x.id d (get_elem? d.connections i) k.con k.pool k)

module _ {R : Type 0} where
  abbrev pub Forwards : ℕ → Option Package → Option Package → Net R → Downstream × Sent R → Type 0
  Forwards i first more net o = (o.1 ≡ forward first more net) × Known i o.0

  init_at-Forwards :
      (i : ℕ) (first more : Option Package) (net : Net R) (a : ℕ) (d : Downstream)
      (m : Option Backend) (b : Backend)
      → m ≡ some b
      → Known i d
      → Forwards i first more net (exchange first more net d (init_at net a d m))
  unfolding init_at exchange
  init_at-Forwards i first more net a d none b e k = absurd cc
  init_at-Forwards i first more net a d (some c) b e k =
      (refl, record { con = k.con; backend = k.backend; pool = k.pool; entry = k.entry })

  connect-Forwards :
      (i : ℕ) (first more : Option Package) (net : Net R) (d : Downstream)
      (m : Option (Downstream × ℕ))
      → KnownConnection i m
      → Forwards i first more net (connect (pos i) first more net d m)
  unfolding connect initialize backend_at exchange
  connect-Forwards i first more net d none k = absurd k
  connect-Forwards i first more net d (some (e, a)) k =
      if-both (λ m. Forwards i first more net (exchange first more net e m)) (e.heap a).initialized
        (refl, k) (init_at-Forwards i first more net a e _ k.backend k.entry k)

  serve-Forwards :
      (i : ℕ) (first more : Option Package) (net : Net R) (d : Downstream)
      (m : Option (Downstream × Session))
      → KnownSession i m
      → Forwards i first more net (serve (pos i) first more net d m)
  unfolding serve
  serve-Forwards i first more net d none k = absurd k
  serve-Forwards i first more net d (some (e, x)) k =
      connect-Forwards i first more net e _ (connection_of-Known i x x.conn e k)

  start_with-Forwards :
      (fresh i : ℕ) (first more : Option Package) (net : Net R) (d : Downstream)
      (m : Option Package) (p : Package)
      → m ≡ some p
      → Known i d
      → Forwards i first more net (start_with fresh (pos i) first more net d m)
  unfolding start_with get_session
  start_with-Forwards fresh i first more net d none p e k = absurd cc
  start_with-Forwards fresh i first more net d (some q) p e k =
      serve-Forwards i first more net d _
        (found_session-Known i fresh q.session d (d.sessions q.session) k)

  -- The backend stays known, too.
  pub start_request-Forwards :
      (fresh i : ℕ) (first more : Option Package) (net : Net R) (d : Downstream) (p : Package)
      → current first more ≡ some p
      → Known i d
      → Forwards i first more net (start_request fresh (pos i) first more net d)
  unfolding start_request
  start_request-Forwards fresh i first more net d p e k =
      start_with-Forwards fresh i first more net d (current first more) p e k

  -- A request with a package, for a backend that the connections and the backends both have, comes to
  -- what the write, the tests whether the message is complete and the read make of it: it throws no
  -- exception and no index is out of range, whatever the sessions are.
  start_request-forwards :
      (fresh i : ℕ) (first more : Option Package) (net : Net R) (d : Downstream) (p : Package)
      → current first more ≡ some p
      → Known i d
      → (start_request fresh (pos i) first more net d).1 ≡ forward first more net
  start_request-forwards fresh i first more net d p e k =
      (start_request-Forwards fresh i first more net d p e k).0
