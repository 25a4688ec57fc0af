-- ===== src/Ipc/Session/Answers.antt =====
-- What a client receives for the requests it sends (src/ipc/server.cpp).
use contextsnap.Ipc.Session.Reliable.{IsReliable, IsAnswered, respond-answers, send-reliable}
use contextsnap.Ipc.Session.Expected.{
  messages_to, answer_to, event_text, heard-nil, messages_of, of_handler, request_text,
  response_text, sent-append, sent-one,
}
use contextsnap.Base.{
  Bytes, All, Bool, Bool-cases, List, Option, [], ap, append-nil, append_assoc, flatten, inl, inr,
  map, refl, subst, sym, true, ◌++◌, ◌<◌, ◌^◌, ◌||◌, ◌∙◌, ◌∷◌, ◌≡◌, ◌≢◌, false, or-false,
}
use contextsnap.Errors.{Error, value, ◌>>=◌}
use contextsnap.Ipc.Message.{Request, request_from_json, response_json, success, unknown}
use contextsnap.Ipc.Message.Wire.{IsPayload, read_request, read_request-request_json}
use contextsnap.Ipc.Session.{
  Read, Service, Session, acknowledgement, dispatch, handle, handle_request, is_subscribe, reply,
  respond, serve_client,
}
use contextsnap.Errors.Chain.{value_injective}
use contextsnap.Ipc.Pump.Delivery.{pump-sent, sent}
use contextsnap.Json.Parser.{parse}
use contextsnap.Ipc.Session.Refines.{chunks_of, run, serve_client-run}
use contextsnap.Ipc.Pump.Chunks.{AreOpen}
use contextsnap.Ipc.Pump.{pump}
use contextsnap.Ipc.Frame.{FrameReader}

-- A request that a client can send.
pub record IsSendable (r : Request) : Type 0 where
  pub id_fits : r.id < 2 ^ 64
  pub known : r.method ≢ unknown
  pub payload : IsPayload r.params

or-true : (b : Bool) → (b || true) ≡ true
or-true true = refl
or-true false = refl

module _ {C S : Type 0} (service : Service C S) (out : C → Bytes)
    (reliable : IsReliable service.write out) where
  handle_request-answers :
      (s : Session C S) (r : Request) (bytes : Bytes)
      → s.active ≡ true
      → sent
          (messages_of service.double_text s.subscribed (answer_to service.handlers s.daemon r))
          service.limit
        ≡ value bytes
      → IsAnswered service out reliable s bytes
          (s.subscribed || is_subscribe r.method)
          (answer_to service.handlers s.daemon r).daemon
          (handle_request service s r)
  unfolding handle_request answer_to
  handle_request-answers s r bytes live h = elim (Bool-cases (is_subscribe r.method)) [
    | inl on ↦ rw on (subscribed_lem (rw on at h))
    | inr off ↦ rw off (
        subst
          (λ b.
            IsAnswered service out reliable s bytes b
              (of_handler (service.handlers r.method) s.daemon r).daemon
              (respond service (dispatch service (service.handlers r.method) s r)))
          (sym (or-false s.subscribed))
          (respond-answers service out reliable (service.handlers r.method) s r bytes live
            (rw off at h)))
  ]
    where
      subscribed_lem :
          sent
              (messages_of service.double_text s.subscribed (record {
                published = [];
                response = success r.id acknowledgement;
                daemon = s.daemon;
              }))
              service.limit
            ≡ value bytes
          → IsAnswered service out reliable s bytes
              (s.subscribed || true)
              s.daemon
              (reply service (record s { subscribed = true }) (success r.id acknowledgement))
      subscribed_lem k =
          let text = response_text service.double_text (success r.id acknowledgement) in
          let one = sent-one text service.limit bytes (
            ap (λ es. sent (map (event_text service.double_text) es ++ text ∷ []) service.limit)
              (sym (heard-nil s.subscribed))
            ∙ k) in
          let (sent_on, after) =
            send-reliable service out reliable (record s { subscribed = true })
              (response_json (success r.id acknowledgement)) bytes live one in
          (
            refl,
            record {
              lives = after.lives;
              hears = after.hears ∙ sym (or-true s.subscribed);
              wrote = after.wrote;
              holds = after.holds;
            },
          )

  handle-answers :
      (s : Session C S) (r : Request) (bytes : Bytes)
      → IsSendable r
      → s.active ≡ true
      → sent
          (messages_of service.double_text s.subscribed (answer_to service.handlers s.daemon r))
          service.limit
        ≡ value bytes
      → IsAnswered service out reliable s bytes
          (s.subscribed || is_subscribe r.method)
          (answer_to service.handlers s.daemon r).daemon
          (handle service s (request_text service.double_text r))
  unfolding handle
  handle-answers s r bytes valid live h =
      let fp = service.double_text in
      let read : (parse fp (request_text fp r) >>= request_from_json fp) ≡ value r =
        unfold read_request in
        read_request-request_json fp r valid.id_fits valid.known valid.payload in
      rw read (handle_request-answers s r bytes live h)

  -- What several requests come to.
  abbrev pub IsAllAnswered : Session C S → Bytes → S → Session C S × Bool → Type 0
  IsAllAnswered s bytes d handled =
      (handled.1 ≡ true)
      × (handled.0.active ≡ true)
      × (out handled.0.connection ≡ out s.connection ++ bytes)
      × (handled.0.daemon ≡ d)

  run-answers :
      (rs : List Request) (s : Session C S) (b : Bool) (d : S) (bytes : Bytes)
      → s.active ≡ true
      → s.subscribed ≡ b
      → s.daemon ≡ d
      → All IsSendable rs
      → sent (messages_to service.double_text service.handlers b d rs).0 service.limit ≡ value bytes
      → IsAllAnswered s bytes
          (messages_to service.double_text service.handlers b d rs).1
          (run service (map (request_text service.double_text) rs) s)
  unfolding run messages_to
  run-answers [] s b d bytes live eb ed valid h = (
    refl,
    live,
    sym (append-nil (out s.connection)) ∙ ap (λ b. out s.connection ++ b) (value_injective h),
    ed,
  )
  run-answers (r ∷ rs) s b d bytes live eb ed valid h =
      let fp = service.double_text in
      let a = answer_to service.handlers d r in
      let (f, rest, first, others, joined) =
        sent-append (messages_of fp b a)
          (messages_to fp service.handlers (b || is_subscribe r.method) a.daemon rs).0 service.limit
          bytes h in
      let handled = handle service s (request_text fp r) in
      let treated =
        ap
          (λ (x : Bool × S).
            sent (messages_of fp x.0 (answer_to service.handlers x.1 r)) service.limit)
          (λ i. (eb i, ed i))
        ∙ first in
      let (on, after) = handle-answers s r f valid.0 live treated in
      let (more, lives, wrote, holds) =
        run-answers rs handled.0 (b || is_subscribe r.method) a.daemon rest after.lives
          (after.hears ∙ ap (λ x. x || is_subscribe r.method) eb)
          (after.holds ∙ ap (λ x. (answer_to service.handlers x r).daemon) ed) valid.1 others in
      rw on (
        more,
        lives,
        wrote
            ∙ ap (λ b. b ++ rest) after.wrote
            ∙ append_assoc (out s.connection) f rest
            ∙ ap (λ b. out s.connection ++ b) joined,
        holds,
      )

  -- What the run over all frames of the stream comes to.
  pub run-IsAllAnswered :
      (rs : List Request) (reads : List Read) (s : Session C S) (bytes : Bytes)
      → s.active ≡ true
      → service.limit < 2 ^ 32
      → All IsSendable rs
      → AreOpen (chunks_of reads)
      → sent (map (request_text service.double_text) rs) service.limit
        ≡ value (flatten (chunks_of reads))
      → sent
          (messages_to service.double_text service.handlers s.subscribed s.daemon rs).0
          service.limit
        ≡ value bytes
      → IsAllAnswered s bytes
          (messages_to service.double_text service.handlers s.subscribed s.daemon rs).1
          (run service
            (pump (chunks_of reads) (record { buffer = []; max_bytes = service.limit })).frames
            s)
  run-IsAllAnswered rs reads s bytes live k valid open_all stream h =
      let texts = map (request_text service.double_text) rs in
      rw
        (ap (λ (o : List Bytes × Option Error). o.0)
          (pump-sent texts (chunks_of reads) service.limit k open_all stream))
        (run-answers rs s s.subscribed s.daemon bytes live refl refl valid h)

  -- Requests that a client sends on an active session over a reliable connection, in whatever chunks
  -- they arrive, are all treated, in order, each by the registered handler in the state that the
  -- earlier requests left: for each, the session writes its reply, and before it, where the client
  -- has subscribed by an earlier request or before, the events that the handler publishes. It writes
  -- nothing else, as long as every message fits a frame and no other thread publishes meanwhile.
  pub serve_client-answers :
      (rs : List Request) (reads : List Read) (s : Session C S) (bytes : Bytes)
      → s.active ≡ true
      → service.limit < 2 ^ 32
      → All IsSendable rs
      → AreOpen (chunks_of reads)
      → sent (map (request_text service.double_text) rs) service.limit
        ≡ value (flatten (chunks_of reads))
      → sent
          (messages_to service.double_text service.handlers s.subscribed s.daemon rs).0
          service.limit
        ≡ value bytes
      → let end =
          serve_client service reads (record { buffer = []; max_bytes = service.limit }) s in
        (out end.connection ≡ out s.connection ++ bytes)
        × (end.daemon
            ≡ (messages_to service.double_text service.handlers s.subscribed s.daemon rs).1)
  serve_client-answers rs reads s bytes live k valid open_all stream h =
      let start : FrameReader = record { buffer = []; max_bytes = service.limit } in
      let (_, lives, wrote, holds) =
        run-IsAllAnswered rs reads s bytes live k valid open_all stream h in
      rw (serve_client-run service reads start s lives) (wrote, holds)
