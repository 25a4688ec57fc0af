-- ===== src/Ipc/Session.antt =====
-- src/ipc/server.cpp: one client's session (`ClientSession::send`, `Server::serve_client` and
-- `Server::dispatch`).
pub mod Refines
pub mod Expected
pub mod Reliable
pub mod Answers
mod Tests
use contextsnap.Json
use contextsnap.Base.{
  Bool, Bytes, [], drop, false, suc, true, zero, ℕ, ◌∷◌, List, Option, codes, if◌then◌else◌, length,
  ◌&&◌, none, some, ◌++◌,
}
use contextsnap.Errors.{Result, error, value, make_error, unsupported, ◌>>=◌}
use contextsnap.Json.{Value, DoubleText, bool, no_members, object}
use contextsnap.Base.Int.{negsuc}
use contextsnap.Json.Printer.{serialize}
use contextsnap.Json.Parser.{parse}
use contextsnap.Ipc.Frame.{FrameReader, encode_frame, feed, next}
use contextsnap.Ipc.Message.{
  Event, Method, Request, Response, event_json, failure, method_string, request_from_json,
  response_json, subscribe, success,
}

-- What one `read_some` does: it returns a chunk, an empty one when the peer closed the connection,
-- or fails, with a timeout or otherwise.
pub data Read : Type 0 where
  chunk : Bytes → Read
  timed_out : Read
  broken : Read

-- `Connection::write`: it returns how many bytes it took, and the connection after the call.
abbrev pub Write : Type 0 → Type 0
Write C = C → Bytes → Result ℕ × C

-- What a handler comes to: the events that it publishes, in their order, what it returns, and the
-- daemon's state after it.
pub record Handled (S : Type 0) : Type 0 where
  pub published : List Event
  pub result : Result Value
  pub daemon : S

-- A handler works on the daemon's state; the peer is an argument that it has taken.
abbrev pub Handler : Type 0 → Type 0
Handler S = S → Value → Handled S

-- The session, with the state of the daemon that the handlers share.
pub record Session (C S : Type 0) : Type 0 where
  pub connection : C
  pub subscribed : Bool
  pub active : Bool
  pub daemon : S

abbrev next_write : {C : Type 0} → Result ℕ × C → (C → Bytes → C × Bool) → Bytes → C × Bool
next_write (error e, c) more bytes = (c, false)
next_write (value zero, c) more bytes = (c, false)
next_write (value (suc n), c) more bytes = more c (drop (suc n) bytes)

-- The loop of `send`. Every round writes a byte or more, so the number of bytes is enough fuel.
unfoldable pub write_all : {C : Type 0} → Write C → ℕ → C → Bytes → C × Bool
write_all write fuel c [] = (c, true)
write_all write zero c (b ∷ bs) = (c, false)
write_all write (suc fuel) c (b ∷ bs) =
    next_write (write c (b ∷ bs)) (write_all write fuel) (b ∷ bs)

-- What the sessions of a server share: the arithmetic of doubles, the transport, the limit of a
-- frame, and the handlers that are registered.
pub record Service (C S : Type 0) : Type 0 where
  pub double_text : DoubleText
  pub write : Write C
  pub limit : ℕ
  pub handlers : Method → Option (Handler S)

unfoldable pub acknowledgement : Value
unfolding Json.set
acknowledgement = Json.set (object no_members) (codes "subscribed") (bool true)

abbrev pub is_subscribe : Method → Bool
is_subscribe subscribe = true
is_subscribe _ = false

-- What `Server::dispatch` makes of the handler's result.
abbrev pub answer : ℕ → Result Value → Response
answer id (error e) = failure id e
answer id (value v) = success id v

abbrev pub not_handled : Request → Response
not_handled r = failure r.id (
    make_error unsupported (codes "method " ++ method_string r.method ++ codes " is not handled")
      (codes "ipc.server"))

-- What the inner loop leaves: the reader, and whether the session is still active.
pub record Served (C S : Type 0) : Type 0 where
  pub session : Session C S
  pub reader : FrameReader
  pub is_open : Bool

module _ {C S : Type 0} (service : Service C S) where
  abbrev pub send_frame : Session C S → Result Bytes → Session C S × Bool
  send_frame s (error e) = (s, false)
  send_frame s (value frame) =
      let (c, sent) = write_all service.write (length frame) s.connection frame in
      (record s { connection = c }, sent)

  -- `ClientSession::send`; the lock keeps the frames of the threads apart.
  unfoldable pub send : Session C S → Value → Session C S × Bool
  send s v = send_frame s (encode_frame (serialize service.double_text (negsuc 0) v) service.limit)

  -- `Server::broadcast`, for this session: an event that cannot be written deactivates it.
  abbrev after_event : Session C S × Bool → Session C S
  after_event (s, sent) = if sent then s else record s { active = false }

  unfoldable pub broadcast : Session C S → Event → Session C S
  unfolding send
  broadcast s e = if s.subscribed && s.active then after_event (send s (event_json e)) else s

  unfoldable pub broadcast_all : Session C S → List Event → Session C S
  unfolding broadcast
  broadcast_all s [] = s
  broadcast_all s (e ∷ es) = broadcast_all (broadcast s e) es

  -- `Server::dispatch`: the handler that is registered for the method. The events that it publishes
  -- are written before its reply.
  unfoldable pub dispatch : Option (Handler S) → Session C S → Request → Session C S × Response
  unfolding broadcast_all
  dispatch none s r = (s, not_handled r)
  dispatch (some handler) s r =
      let h = handler s.daemon r.params in
      (broadcast_all (record s { daemon = h.daemon }) h.published, answer r.id h.result)

  -- A reply whose failure to be sent does not end the session.
  abbrev pub reply : Session C S → Response → Session C S × Bool
  reply s r = ((send s (response_json r)).0, true)

  abbrev pub respond : Session C S × Response → Session C S × Bool
  respond (s, r) = send s (response_json r)

  -- The treatment of a request, and whether the inner loop goes on.
  unfoldable pub handle_request : Session C S → Request → Session C S × Bool
  handle_request s r =
      if is_subscribe r.method
      then reply (record s { subscribed = true }) (success r.id acknowledgement)
      else respond (dispatch (service.handlers r.method) s r)

  abbrev pub handle_parsed : Session C S → Result Request → Session C S × Bool
  handle_parsed s (error e) = reply s (failure 0 e)
  handle_parsed s (value r) = handle_request s r

  -- The treatment of one frame: a document or a request that cannot be read is answered under the
  -- id 0.
  unfoldable pub handle : Session C S → Bytes → Session C S × Bool
  handle s payload =
      handle_parsed s (parse service.double_text payload >>= request_from_json service.double_text)

  abbrev pub serve_step :
      (FrameReader → Session C S → Served C S)
      → Session C S
      → Result (Option Bytes) × FrameReader
      → Served C S
  serve_step more s (error e, r) = record { session = s; reader = r; is_open = false }
  serve_step more s (value none, r) = record { session = s; reader = r; is_open = true }
  serve_step more s (value (some p), r) =
      let (s', goes_on) = handle s p in
      if goes_on then more r s' else record { session = s'; reader = r; is_open = false }

  -- The inner loop of `serve_client`. A frame takes four bytes or more from the buffer, so fuel
  -- above its length is enough.
  unfoldable pub serve_frames : ℕ → FrameReader → Session C S → Served C S
  serve_frames zero r s = record { session = s; reader = r; is_open = true }
  serve_frames (suc fuel) r s = serve_step (serve_frames fuel) s (next r)

  abbrev pub close : Session C S → Session C S
  close s = record s { active = false }

  abbrev pub after_frames : (FrameReader → Session C S → Session C S) → Served C S → Session C S
  after_frames more served =
      if served.is_open then more served.reader served.session else close served.session

  -- The condition of the outer loop.
  abbrev pub while_active : Session C S → Session C S → Session C S
  while_active s more = if s.active then more else close s

  -- The outer loop; the reads end where the server is stopped.
  unfoldable pub serve_client : List Read → FrameReader → Session C S → Session C S
  serve_client [] r s = close s
  serve_client (timed_out ∷ reads) r s = while_active s (serve_client reads r s)
  serve_client (broken ∷ reads) r s = close s
  serve_client (chunk [] ∷ reads) r s = close s
  serve_client (chunk (b ∷ bs) ∷ reads) r s =
      let fed = feed r (b ∷ bs) in
      let served = serve_frames (suc (length fed.buffer)) fed s in
      while_active s (after_frames (serve_client reads) served)
