-- ===== src/Ipc/Session/Refines.antt =====
-- A session treats the frames of the stream one after the other (src/ipc/server.cpp,
-- `Server::serve_client`): its loops over chunks and frames are the loop of Ipc/Pump.

use contextsnap.Base.{
  Bool, Bool-cases, Bytes, List, [], false, if◌then◌else◌, inl, inr, none, refl, some, suc, true,
  zero, ℕ, ◌++◌, ◌∷◌, ◌≡◌, Option, length, arith, ◌∙◌,
}
use contextsnap.Errors.{Error, Result, error, value, ◌>>=◌}
use contextsnap.Ipc.Frame.{FrameReader, feed, next, encode_frame}
use contextsnap.Ipc.Pump.{Drained, drain, pump, after_chunk, drain_step}
use contextsnap.Json.{Value}
use contextsnap.Json.Printer.{serialize}
use contextsnap.Json.Parser.{parse}
use contextsnap.Base.Int.{negsuc}
use contextsnap.Ipc.Message.{Event, Request, failure, request_from_json, response_json, success}
use contextsnap.Ipc.Session.{
  Read, Served, Service, Session, broken, chunk, close, handle, serve_client, serve_frames,
  timed_out, after_frames, serve_step, Handler, acknowledgement, broadcast, broadcast_all, dispatch,
  handle_parsed, handle_request, is_subscribe, send, send_frame, while_active,
}

-- The chunks that the reads deliver until the connection breaks.
abbrev pub chunks_of : List Read → List Bytes
chunks_of [] = []
chunks_of (chunk bytes ∷ reads) = bytes ∷ chunks_of reads
chunks_of (timed_out ∷ reads) = chunks_of reads
chunks_of (broken ∷ reads) = []

module _ {C S : Type 0} (service : Service C S) where
  abbrev run_step : (Session C S → Session C S × Bool) → Session C S × Bool → Session C S × Bool
  run_step more (s, goes_on) = if goes_on then more s else (s, false)

  -- The frames of a list, treated until one ends the session.
  unfoldable pub run : List Bytes → Session C S → Session C S × Bool
  run [] s = (s, true)
  run (p ∷ ps) s = run_step (run ps) (handle service s p)

  pub run-append :
      (ps qs : List Bytes) (s : Session C S) → run (ps ++ qs) s ≡ run_step (run qs) (run ps s)
  unfolding run
  run-append [] qs s = refl
  run-append (p ∷ ps) qs s = elim (Bool-cases (handle service s p).1) [
    | inl on ↦ rw on (run-append ps qs (handle service s p).0)
    | inr off ↦ rw off refl
  ]

  -- What the inner loop leaves, told from the frames that `drain` finds.
  record IsServed (d : Drained) (s : Session C S) (served : Served C S) : Type 0 where
    session_run : served.session ≡ (run d.frames s).0
    stopped : (run d.frames s).1 ≡ false → served.is_open ≡ false
    failed : (e : Error) → d.failure ≡ some e → served.is_open ≡ false
    going :
        (run d.frames s).1 ≡ true
        → d.failure ≡ none
        → (served.is_open ≡ true) × (served.reader ≡ d.reader)

  IsServed-step :
      (drained : FrameReader → Drained) (served : FrameReader → Session C S → Served C S)
      (popped : Result (Option Bytes) × FrameReader) (s : Session C S)
      → ((r : FrameReader) (t : Session C S) → IsServed (drained r) t (served r t))
      → IsServed (drain_step drained popped) s (serve_step service served s popped)
  unfolding run
  IsServed-step drained served (error e, r) s ih = record {
    session_run = refl;
    stopped = λ h. cc;
    failed = λ e' h. refl;
    going = λ h k. cc;
  }
  IsServed-step drained served (value none, r) s ih = record {
    session_run = refl;
    stopped = λ h. cc;
    failed = λ e' h. cc;
    going = λ h k. (refl, refl);
  }
  IsServed-step drained served (value (some p), r) s ih = elim (Bool-cases (handle service s p).1) [
    | inl on ↦
        let rest = ih r (handle service s p).0 in
        record {
          session_run = rw on rest.session_run;
          stopped = rw on rest.stopped;
          failed = rw on rest.failed;
          going = rw on rest.going;
        }
    | inr off ↦ record {
      session_run = rw off refl;
      stopped = rw off (λ h. refl);
      failed = rw off (λ e h. refl);
      going = rw off (λ h k. cc);
    }
  ]

  serve_frames-IsServed :
      (fuel : ℕ) (r : FrameReader) (s : Session C S)
      → IsServed (drain fuel r) s (serve_frames service fuel r s)
  unfolding drain serve_frames run
  serve_frames-IsServed zero r s = record {
    session_run = refl;
    stopped = λ h. cc;
    failed = λ e h. cc;
    going = λ h k. (refl, refl);
  }
  serve_frames-IsServed (suc fuel) r s =
      IsServed-step (drain fuel) (serve_frames service fuel) (next r) s
        (λ r' t. serve_frames-IsServed fuel r' t)

  -- Nothing makes an inactive session active again.
  send-active : (s : Session C S) (v : Value) → (send service s v).0.active ≡ s.active
  unfolding send
  send-active s v = go (encode_frame (serialize service.double_text (negsuc 0) v) service.limit)
    where
      go : (o : Result Bytes) → (send_frame service s o).0.active ≡ s.active
      go (error e) = refl
      go (value frame) = refl

  broadcast_all-inactive :
      (s : Session C S) (es : List Event)
      → s.active ≡ false
      → (broadcast_all service s es).active ≡ false
  unfolding broadcast_all broadcast
  broadcast_all-inactive s [] h = h
  broadcast_all-inactive s (e ∷ es) h =
      broadcast_all-inactive (broadcast service s e) es (ground arith)

  dispatch-inactive :
      (o : Option (Handler S)) (s : Session C S) (r : Request)
      → s.active ≡ false
      → (dispatch service o s r).0.active ≡ false
  unfolding dispatch
  dispatch-inactive none s r h = h
  dispatch-inactive (some handler) s r h =
      let handled = handler s.daemon r.params in
      broadcast_all-inactive (record s { daemon = handled.daemon }) handled.published h

  handle-inactive :
      (s : Session C S) (p : Bytes) → s.active ≡ false → (handle service s p).0.active ≡ false
  unfolding handle handle_request
  handle-inactive s p h = go (parse service.double_text p >>= request_from_json service.double_text)
    where
      go : (o : Result Request) → (handle_parsed service s o).0.active ≡ false
      go (error e) = send-active s (response_json (failure 0 e)) ∙ h
      go (value r) = elim (Bool-cases (is_subscribe r.method)) [
        | inl on ↦ rw on (
            send-active (record s { subscribed = true })
              (response_json (success r.id acknowledgement))
            ∙ h)
        | inr off ↦ rw off (
            send-active (dispatch service (service.handlers r.method) s r).0
              (response_json (dispatch service (service.handlers r.method) s r).1)
            ∙ dispatch-inactive (service.handlers r.method) s r h)
      ]

  run-inactive :
      (ps : List Bytes) (s : Session C S) → s.active ≡ false → (run ps s).0.active ≡ false
  unfolding run
  run-inactive [] s h = h
  run-inactive (p ∷ ps) s h = elim (Bool-cases (handle service s p).1) [
    | inl on ↦ rw on (run-inactive ps (handle service s p).0 (handle-inactive s p h))
    | inr off ↦ rw off (handle-inactive s p h)
  ]

  run-active : (ps : List Bytes) (s : Session C S) → (run ps s).0.active ≡ true → s.active ≡ true
  run-active ps s h = elim (Bool-cases s.active) [
    | inl on ↦ on
    | inr off ↦ absurd (let still = run-inactive ps s off in cc)
  ]

  while_active-on : (s m : Session C S) → s.active ≡ true → while_active service s m ≡ m
  while_active-on s m h = rw h refl

  -- One chunk, with the loops over the later ones.
  after_frames-run :
      (d : Drained) (s : Session C S) (served : Served C S) (pumped : FrameReader → Drained)
      (more : FrameReader → Session C S → Session C S)
      → IsServed d s served
      → ((r : FrameReader) (t : Session C S)
          → (run (pumped r).frames t).0.active ≡ true
          → more r t ≡ close service (run (pumped r).frames t).0)
      → (run (after_chunk pumped d).frames s).0.active ≡ true
      → after_frames service more served ≡ close service (run (after_chunk pumped d).frames s).0
  after_frames-run d s served pumped more h k = go d.failure refl (run d.frames s).1 refl
    where
      go :
          (o : Option Error)
          → d.failure ≡ o
          → (b : Bool) → (run d.frames s).1 ≡ b
          → (run (after_chunk pumped d).frames s).0.active ≡ true
          → after_frames service more served ≡ close service (run (after_chunk pumped d).frames s).0
      go (some e) failed b e1 live = rw (failed, h.failed e failed, h.session_run) refl
      go none fine false e1 live =
          rw (fine, run-append d.frames (pumped d.reader).frames s, e1, h.stopped e1, h.session_run)
            refl
      go none fine true e1 live =
          let (opened, same) = h.going e1 fine in
          let on = rw (fine, run-append d.frames (pumped d.reader).frames s, e1) at live in
          rw (fine, run-append d.frames (pumped d.reader).frames s, e1, opened, same, h.session_run)
            (k d.reader (run d.frames s).0 on)

  -- If the session is active, and stays so in the run over the frames of the whole stream (no event
  -- that a handler publishes fails to be written), it ends as that run does, however the stream is
  -- cut into chunks and whatever timeouts come between: each frame is treated once and in order, up
  -- to the first one whose treatment ends the session.
  pub serve_client-run :
      (reads : List Read) (r : FrameReader) (s : Session C S)
      → (run (pump (chunks_of reads) r).frames s).0.active ≡ true
      → serve_client service reads r s ≡ close service (run (pump (chunks_of reads) r).frames s).0
  unfolding serve_client pump
  serve_client-run [] r s h = unfold run in refl
  serve_client-run (timed_out ∷ reads) r s h =
      while_active-on s (serve_client service reads r s)
        (run-active (pump (chunks_of reads) r).frames s h)
      ∙ serve_client-run reads r s h
  serve_client-run (broken ∷ reads) r s h = unfold run in refl
  serve_client-run (chunk [] ∷ reads) r s h = unfold run in refl
  serve_client-run (chunk (b ∷ bs) ∷ reads) r s h =
      let fed = feed r (b ∷ bs) in
      let fuel = suc (length fed.buffer) in
      let pumped = after_chunk (pump (chunks_of reads)) (drain fuel fed) in
      while_active-on s
        (after_frames service (serve_client service reads) (serve_frames service fuel fed s))
        (run-active pumped.frames s h)
      ∙ after_frames-run (drain fuel fed) s (serve_frames service fuel fed s)
          (pump (chunks_of reads)) (serve_client service reads) (serve_frames-IsServed fuel fed s)
          (λ r' t. serve_client-run reads r' t) h
