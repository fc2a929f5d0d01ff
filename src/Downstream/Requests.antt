-- ===== src/Downstream/Requests.antt =====
-- What holds after any requests to the downstream connections.
use easyprospect_service.Prelude.{
  ℕ, ◌≡◌, put_cases, ◌≢◌, refl, sym, ap, ◌∙◌, inl, inr, false, Option, none, some, List, [], ◌∷◌,
  arith, ◌&&◌, length, if-both,
}
use easyprospect_service.Prelude.Int.{ℤ}
use easyprospect_service.Downstream.{
  Connection, Session, Backend, Downstream, empty_downstream, get_session, set_backends,
}
use easyprospect_service.Downstream.Serve.{
  Package, Net, init, backend_at, init_at, initialize, exchange, connect, serve, current,
  start_with, start_request, Event, backends_event, request_event, step, run,
}
use easyprospect_service.Downstream.Owned.{
  Owned, heap-Owned, GoodSession, found_session-Good, GoodConnection, connection_of-Good,
  AllEmpty-resize,
}

abbrev GoodState : Option Downstream → Type 0
GoodState none = Unit
GoodState (some d) = Owned d

module _ {R : Type 0} where
  init-owner : (net : Net R) (c : Connection) → (init net c).owner ≡ c.owner
  unfolding init
  init-owner net c =
      if-both (λ (x : Connection). x.owner ≡ c.owner) (net.resolved && net.connected) refl refl

  init_at-Good :
      (net : Net R) (a : ℕ) (d : Downstream) (m : Option Backend)
      → Owned d
      → GoodState (init_at net a d m)
  unfolding init_at
  init_at-Good net a d none o = tt
  init_at-Good net a d (some b) o = heap-Owned d d.next _ o (omega arith) (λ j h.
      elim (put_cases a j (init net (d.heap a)) d.heap) [
        | inl p ↦
            ap (λ (c : Connection). c.owner) p.1
            ∙ init-owner net (d.heap a)
            ∙ ap (λ i. (d.heap i).owner) (sym p.0)
        | inr q ↦ ap (λ (c : Connection). c.owner) q
      ])

  initialize-Good :
      (b : ℤ) (net : Net R) (a : ℕ) (d : Downstream) → Owned d → GoodState (initialize b net a d)
  unfolding initialize
  initialize-Good b net a d o =
      if-both GoodState (d.heap a).initialized o (init_at-Good net a d (backend_at b d) o)

  exchange-Owned :
      (first more : Option Package) (net : Net R) (d : Downstream) (m : Option Downstream)
      → Owned d
      → GoodState m
      → Owned (exchange first more net d m).0
  unfolding exchange
  exchange-Owned first more net d none o g = o
  exchange-Owned first more net d (some e) o g = g

  connect-Owned :
      (b : ℤ) (first more : Option Package) (net : Net R) (d : Downstream) (s : ℕ)
      (m : Option (Downstream × ℕ))
      → Owned d
      → GoodConnection s m
      → Owned (connect b first more net d m).0
  unfolding connect
  connect-Owned b first more net d s none o g = o
  connect-Owned b first more net d s (some (e, a)) o g =
      exchange-Owned first more net e _ g.0 (initialize-Good b net a e g.0)

  serve-Owned :
      (b : ℤ) (first more : Option Package) (net : Net R) (d : Downstream)
      (m : Option (Downstream × Session))
      → Owned d
      → GoodSession m
      → Owned (serve b first more net d m).0
  unfolding serve
  serve-Owned b first more net d none o g = o
  serve-Owned b first more net d (some (e, x)) o g =
      connect-Owned b first more net e x.id _ g.0 (connection_of-Good b x x.conn e refl g.0 g.1)

  start_with-Owned :
      (fresh : ℕ) (b : ℤ) (first more : Option Package) (net : Net R) (d : Downstream)
      (m : Option Package)
      → Owned d
      → Owned (start_with fresh b first more net d m).0
  unfolding start_with get_session
  start_with-Owned fresh b first more net d none o = o
  start_with-Owned fresh b first more net d (some p) o =
      serve-Owned b first more net d _ o (found_session-Good fresh p.session false d _ refl o)

  step-Owned : (d : Downstream) (e : Event R) → Owned d → Owned (step d e)
  unfolding step set_backends start_request
  step-Owned d (backends_event bs) o = record {
    ids = o.ids;
    owned = o.owned;
    pooled = AllEmpty-resize (length bs) d.connections o.pooled;
  }
  step-Owned d (request_event fresh b first more net) o =
      start_with-Owned fresh b first more net d (current first more) o

  run_from-Owned : (es : List (Event R)) (d : Downstream) → Owned d → Owned (run es d)
  unfolding run
  run_from-Owned [] d o = o
  run_from-Owned (e ∷ es) d o = run_from-Owned es (step d e) (step-Owned d e o)

  -- Whatever requests and backends come, the connection of a session exists and belongs to that
  -- session, and the pools of connections to use again stay empty.
  pub run-Owned : (es : List (Event R)) → Owned (run es empty_downstream)
  unfolding empty_downstream
  run-Owned es =
      run_from-Owned es empty_downstream
        (record { ids = λ s x e. cc; owned = λ s x a e c. cc; pooled = tt })

  -- Two different sessions never have the same connection, whatever requests and backends came.
  pub run-unshared :
      (es : List (Event R)) (s t : ℕ) (x y : Session) (a : ℕ)
      → s ≢ t
      → (run es empty_downstream).sessions s ≡ some x
      → (run es empty_downstream).sessions t ≡ some y
      → x.conn ≡ some a
      → y.conn ≢ some a
  run-unshared es s t x y a differ e f c d =
      let o = run-Owned es in differ (sym (o.owned s x a e c).1 ∙ (o.owned t y a f d).1)
