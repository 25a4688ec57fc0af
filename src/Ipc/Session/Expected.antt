-- ===== src/Ipc/Session/Expected.antt =====
-- What a client may expect for its requests: the messages that `Server::broadcast` and
-- `Server::dispatch` of src/ipc/server.cpp write for each of them.

use contextsnap.Base.Int.{negsuc}
use contextsnap.Base.{
  Bytes, List, Option, [], if◌then◌else◌, refl, true, ℕ, ◌++◌, ◌∷◌, ◌≡◌, Bool, ap, append-nil,
  append_assoc, map, sym, ◌∙◌, false, none, some, ◌||◌,
}
use contextsnap.Errors.{value}
use contextsnap.Json.{DoubleText}
use contextsnap.Json.Printer.{serialize}
use contextsnap.Ipc.Frame.{encode_frame}
use contextsnap.Ipc.Message.{
  Method, Request, Response, request_json, response_json, success, Event, event_json,
}
use contextsnap.Ipc.Session.{Handler, acknowledgement, is_subscribe, answer, not_handled}
use contextsnap.Errors.Chain.{value_injective, bind-eq-value}
use contextsnap.Ipc.Pump.Delivery.{sent}

-- What a request comes to: the events that its handler publishes, the response, and the daemon's
-- state after it.
pub record Answered (S : Type 0) : Type 0 where
  pub published : List Event
  pub response : Response
  pub daemon : S

abbrev pub of_handler : {S : Type 0} → Option (Handler S) → S → Request → Answered S
of_handler none d r = record { published = []; response = not_handled r; daemon = d }
of_handler (some handler) d r =
    let h = handler d r.params in
    record { published = h.published; response = answer r.id h.result; daemon = h.daemon }

unfoldable pub answer_to : {S : Type 0} → (Method → Option (Handler S)) → S → Request → Answered S
answer_to handlers d r =
    if is_subscribe r.method
    then record { published = []; response = success r.id acknowledgement; daemon = d }
    else of_handler (handlers r.method) d r

-- The payload of a message.
abbrev pub request_text : DoubleText → Request → Bytes
request_text fp r = serialize fp (negsuc 0) (request_json r)

abbrev pub response_text : DoubleText → Response → Bytes
response_text fp r = serialize fp (negsuc 0) (response_json r)

abbrev pub event_text : DoubleText → Event → Bytes
event_text fp e = serialize fp (negsuc 0) (event_json e)

-- Only a subscribed session hears events.
abbrev pub heard : Bool → List Event → List Event
heard true es = es
heard false es = []

-- The messages of one request: the events that its handler publishes, then the response.
abbrev pub messages_of : {S : Type 0} → DoubleText → Bool → Answered S → List Bytes
messages_of fp subscribed a =
    map (event_text fp) (heard subscribed a.published) ++ response_text fp a.response ∷ []

-- The messages of several requests, and the daemon's state after them; a request to subscribe
-- holds from the next request on.
unfoldable pub messages_to :
    {S : Type 0}
    → DoubleText
    → (Method → Option (Handler S))
    → Bool
    → S
    → List Request
    → List Bytes × S
messages_to fp handlers subscribed d [] = ([], d)
messages_to fp handlers subscribed d (r ∷ rs) =
    let a = answer_to handlers d r in
    let (rest, d') = messages_to fp handlers (subscribed || is_subscribe r.method) a.daemon rs in
    (messages_of fp subscribed a ++ rest, d')

pub sent-append :
    (xs ys : List Bytes) (limit : ℕ) (bytes : Bytes)
    → sent (xs ++ ys) limit ≡ value bytes
    → (f : Bytes) × (g : Bytes) × (sent xs limit ≡ value f)
      × (sent ys limit ≡ value g)
      × (f ++ g ≡ bytes)
sent-append [] ys limit bytes h = ([], bytes, refl, h, refl)
sent-append (x ∷ xs) ys limit bytes h =
    let (f, framed, h') = bind-eq-value (encode_frame x limit) _ h in
    let (rest, others, same) = bind-eq-value (sent (xs ++ ys) limit) _ h' in
    let (f', g, left, right, joined) = sent-append xs ys limit rest others in
    (
      f ++ f',
      g,
      rw (framed, left) refl,
      right,
      append_assoc f f' g ∙ ap (λ b. f ++ b) joined ∙ value_injective same,
    )

pub sent-one :
    (x : Bytes) (limit : ℕ) (bytes : Bytes)
    → sent (x ∷ []) limit ≡ value bytes
    → encode_frame x limit ≡ value bytes
sent-one x limit bytes h =
    let (f, framed, same) = bind-eq-value (encode_frame x limit) _ h in
    framed ∙ ap value (sym (append-nil f)) ∙ same

pub heard-nil : (b : Bool) → heard b [] ≡ []
heard-nil true = refl
heard-nil false = refl
