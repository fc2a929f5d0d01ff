-- ===== src/Client/Stop.antt =====
-- A stop message of the control process shuts the worker down.
use easyprospect_service.Prelude.{
  ℕ, ◌<◌, ◌≡◌, refl, sym, ap, ◌∙◌, true, false, Option, some, List, [], ◌∷◌, ◌++◌, if◌then◌else◌,
  if-both, take, lt→ltb,
}
use easyprospect_service.Prelude.Int.{ℤ}
use easyprospect_service.Control.{
  Base, MessageType, cmd_stop, Message, stop_message, base_of, Value, pack,
}
use easyprospect_service.Control.Unpack.{message, process_input}
use easyprospect_service.Control.RoundTrip.{InRange, sends_stop, pack-process_input}
use easyprospect_service.Pipes
use easyprospect_service.Pipes.Loop
use easyprospect_service.Pipes.{
  Thread, running, ended, terminated, broken, Io, completes, pending, fails, instances,
}
use easyprospect_service.Pipes.Drain.{sent_pipe}
use easyprospect_service.Pipes.Rounds.{round-Wrote}
use easyprospect_service.Client.{
  Client, finished, signalled, do_action, if_running, and_then, read_file, begin_read, write_front,
  begin_write, received, act, handle, run_handler, round_event, handler_event, read_result,
  on_read_event, on_wait, round, step, run,
}

-- A client whose read is pending, with no message left to handle.
pub record Reading {S : Type 0} (c : Client S) : Type 0 where
  pub runs : c.thread ≡ running
  pub waits : c.read_pending ≡ true
  pub begun : c.read_pipe ≡ false
  pub handled : c.read_queue ≡ []
  pub none_posted : c.posted ≡ 0

module _ {S : Type 0} where
  and_then_running :
      (f : Client S → Client S) (c : Client S) → c.thread ≡ running → and_then f c ≡ f c
  unfolding if_running
  and_then_running f c e = ap (λ k. if_running k f c) e

  write_front-Reading :
      (io : Io) (c : Client S) (q : List Value)
      → Reading c
      → Reading (write_front io c q) × ((write_front io c q).app ≡ c.app)
  unfolding write_front
  write_front-Reading io c [] r = (
    record {
      runs = r.runs;
      waits = r.waits;
      begun = r.begun;
      handled = r.handled;
      none_posted = r.none_posted;
    },
    refl,
  )
  write_front-Reading io c (b ∷ q) r = (
    record {
      runs = r.runs;
      waits = r.waits;
      begun = r.begun;
      handled = r.handled;
      none_posted = r.none_posted;
    },
    refl,
  )

  -- Up to the wait nothing happens to the read.
  writes-Reading :
      (io out : Io) (c : Client S)
      → Reading c
      → let d = and_then (begin_write out) (and_then (begin_read io) c) in
        Reading d × (d.app ≡ c.app)
  unfolding begin_write begin_read
  writes-Reading io out c r =
      let read : and_then (begin_read io) c ≡ c =
        and_then_running (begin_read io) c r.runs
        ∙ ap (λ b. if b then read_file io c else c) r.begun in
      rw (read, and_then_running (begin_write out) c r.runs)
        (if-both (λ (d : Client S). Reading d × (d.app ≡ c.app)) c.write_pipe
          (write_front-Reading out c c.write_queue r) (r, refl))

module _ {S : Type 0} (unpack : List ℕ → Option Value) (shutdown : S → S) where
  -- The end of the read, and then the handler.
  handles_stop :
      (d : Client S) (m : Message) (fresh : Base) (tc : MessageType) (rs : ℤ) (bytes : List ℕ)
      (n : ℕ)
      → Reading d
      → (base_of m).type ≡ cmd_stop
      → 0 < n
      → process_input fresh tc rs unpack bytes n ≡ message m
      → let t = on_wait unpack (signalled 0 (finished fresh tc rs bytes n)) d in
        (run_handler shutdown t.posted t).app ≡ shutdown d.app
  unfolding on_wait on_read_event read_result received run_handler handle act do_action
  handles_stop d m fresh tc rs bytes n r ty h p =
      let ready : Client S = record d { read_pipe = true; read_pending = false } in
      let final : Client S → S = λ t. (run_handler shutdown t.posted t).app in
      let left : Client S = record ready { posted = d.posted; read_queue = [] } in
      ap
        (λ b. final (
          if b
          then read_result unpack (finished fresh tc rs bytes n) ready
          else record d { read_pipe = true }))
        r.waits
      ∙ ap
          (λ b.
            final (if b then received (process_input fresh tc rs unpack bytes n) ready else ready))
          (lt→ltb 0 n h)
      ∙ ap (λ q. final (received q ready)) p
      ∙ ap
          (λ q.
            (handle shutdown (q ++ m ∷ [])
              (record ready { posted = d.posted; read_queue = q ++ m ∷ [] })).app)
          r.handled
      ∙ ap (λ y. (act shutdown (do_action y) left).app) ty

  reads_stop :
      (c : Client S) (io out : Io) (m : Message) (fresh : Base) (tc : MessageType) (rs : ℤ)
      (bytes : List ℕ) (n : ℕ)
      → Reading c
      → (base_of m).type ≡ cmd_stop
      → 0 < n
      → process_input fresh tc rs unpack bytes n ≡ message m
      → (run unpack shutdown
          (round_event
              (record { read = io; write = out; wait = signalled 0 (finished fresh tc rs bytes n) })
            ∷ handler_event
            ∷ [])
          c).app
        ≡ shutdown c.app
  unfolding run step round
  reads_stop c io out m fresh tc rs bytes n r ty h p =
      let d : Client S = and_then (begin_write out) (and_then (begin_read io) c) in
      let same = writes-Reading io out c r in
      ap (λ (t : Client S). (run_handler shutdown t.posted t).app)
        (and_then_running (on_wait unpack (signalled 0 (finished fresh tc rs bytes n))) d
          same.0.runs)
      ∙ handles_stop d m fresh tc rs bytes n same.0 ty h p
      ∙ ap shutdown same.1

  -- A stop message, which packs to `v`, is sent on a pipe whose queue is empty, and the next round of the
  -- control process leaves its loop running. Then that round writes `v`, and a worker whose read is
  -- pending and ends with bytes that msgpack unpacks to `v` calls its shutdown function once the posted
  -- handler runs.
  pub stop-reaches :
      (s : Pipes.Server) (k : ℕ) (e : Pipes.Round) (b : Base) (v : Value) (c : Client S)
      (io out : Io) (fresh : Base) (tc : MessageType) (rs : ℤ) (bytes : List ℕ) (n : ℕ)
      → k < instances
      → InRange b
      → b.type ≡ cmd_stop
      → (s.pipes k).write_queue ≡ []
      → (Loop.round unpack e (Pipes.send k (stop_message b) s)).thread ≡ running
      → pack (stop_message b) ≡ some v
      → Reading c
      → 0 < n
      → unpack (take n bytes) ≡ some v
      → (((Loop.round unpack e (Pipes.send k (stop_message b) s)).pipes k).written
          ≡ (s.pipes k).written ++ v ∷ [])
        × ((run unpack shutdown
              (round_event (record {
                read = io;
                write = out;
                wait = signalled 0 (finished fresh tc rs bytes n);
              })
                ∷ handler_event
                ∷ [])
              c).app
            ≡ shutdown c.app)
  stop-reaches s k e b v c io out fresh tc rs bytes n lt r ty empty runs packed reading h u =
      let m : Message = stop_message b in
      let sent = sent_pipe k m v s lt packed in
      let wrote = round-Wrote unpack k e (Pipes.send k m s) lt runs in
      let (w, packed', read) =
        pack-process_input fresh tc rs unpack m (message m) r (sends_stop b ty) in
      (
        wrote.written
            ∙ ap (λ (x : Pipes.Pipe). x.written ++ take 1 x.write_queue) sent
            ∙ ap (λ q. (s.pipes k).written ++ take 1 (q ++ v ∷ [])) empty,
        reads_stop c io out m fresh tc rs bytes n reading ty h
            (read bytes n h (u ∙ sym packed ∙ packed')),
      )
