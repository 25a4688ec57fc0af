-- ===== src/Ipc/Session/Tests.antt =====
-- A session over a connection that writes three bytes at a time.
use contextsnap.Ipc.Session.Reliable.{IsReliable}
use contextsnap.Ipc.Session.Expected.{messages_to, answer_to, request_text}
use contextsnap.Base.{
  Bytes, List, Option, [], false, length, none, refl, some, suc, take, true, ℕ, ◌++◌, ◌∷◌, ◌≡◌, All,
  ap, arith, codes, flatten, map, sym,
}
use contextsnap.Base.Int.{pos, int64_of_uint64}
use contextsnap.Base.Double.{bits}
use contextsnap.Errors.{value}
use contextsnap.Json.{DoubleText, array, int, no_items, null}
use contextsnap.Ipc.Message.{
  Method, Request, ping, subscribe, success, method_string, request_json, response_json, event_json,
  event_string, snapshot_created,
}
use contextsnap.Ipc.Session.{
  Handler, Service, Session, Write, acknowledgement, Read, chunk, close, serve_client, timed_out,
}
use contextsnap.Ipc.Session.Answers.{IsSendable, serve_client-answers, run-IsAllAnswered}
use contextsnap.Json.Printer.{serialize, serialize_into}
use contextsnap.Ipc.Pump.{pump}
use contextsnap.Ipc.Pump.Delivery.{sent}
use contextsnap.Json.RoundTrip.Shape.{IsPlain, nest}
use contextsnap.Ipc.Frame.{encode_frame}
use contextsnap.Ipc.Session.Refines.{chunks_of, run, serve_client-run}
use contextsnap.Ipc.Message.Wire.{IsPayload}

-- No double occurs.
abbrev no_doubles : DoubleText
no_doubles = record {
  is_special = λ d. false;
  print = λ p d. [];
  strtod = λ s. bits 0;
  stod = λ s. none;
  eq = λ a b. true;
  to_int64 = λ d. pos 0;
  of_int = λ z. bits 0;
}

-- The connection is what has been written to it.
abbrev three_at_once : Write Bytes
three_at_once c [] = (value 0, c)
three_at_once c (b ∷ bs) = (value (length (take 3 (b ∷ bs))), c ++ take 3 (b ∷ bs))

take_again : (bs : Bytes) → take (length (take 2 bs)) bs ≡ take 2 bs
take_again [] = refl
take_again (x ∷ []) = refl
take_again (x ∷ y ∷ bs) = refl

three_at_once-IsReliable : IsReliable three_at_once (λ c. c)
three_at_once-IsReliable = record {
  takes = λ c b bs.
      (length (take 2 bs), c ++ b ∷ take 2 bs, refl, ap (λ t. c ++ b ∷ t) (sym (take_again bs)));
}

-- A counter of pings that publishes its state before it; nothing else is handled.
abbrev counted : Handler ℕ
counted n params = record {
  published = record { event_type = snapshot_created; payload = int (pos n) } ∷ [];
  result = value (int (pos (suc n)));
  daemon = suc n;
}

abbrev handlers : Method → Option (Handler ℕ)
handlers ping = some counted
handlers _ = none

abbrev service : Service Bytes ℕ
service = record {
  double_text = no_doubles;
  write = three_at_once;
  limit = 256;
  handlers = handlers;
}

abbrev fresh : Session Bytes ℕ
fresh = record { connection = []; subscribed = false; active = true; daemon = 0 }

abbrev requests : List Request
requests =
    record { id = 1; method = ping; params = null }
    ∷ record { id = 2; method = subscribe; params = null }
    ∷ record { id = 3; method = ping; params = array no_items }
    ∷ []

-- The stream is cut inside the first length, with a timeout, and inside the third request.
abbrev reads : List Read
reads =
    chunk (44 ∷ 0 ∷ [])
    ∷ timed_out
    ∷ chunk (
        0
        ∷ 0
        ∷ (codes "{\"v\":1,\"id\":1,\"method\":\"ping\",\"params\":null}"
            ++ 49
              ∷ 0
              ∷ 0
              ∷ 0
              ∷ (codes "{\"v\":1,\"id\":2,\"method\":\"subscribe\",\"params\":null}"
                  ++ 42 ∷ 0 ∷ 0 ∷ 0 ∷ codes "{")))
    ∷ chunk (codes "\"v\":1,\"id\":3,\"method\":\"ping\",\"params\":[]}")
    ∷ []

-- The event of the first ping is not written, since the client has not subscribed yet; that of the
-- second one is written before the reply.
abbrev replies : Bytes
replies =
    35
    ∷ 0
    ∷ 0
    ∷ 0
    ∷ (codes "{\"v\":1,\"id\":1,\"ok\":true,\"result\":1}"
        ++ 53
          ∷ 0
          ∷ 0
          ∷ 0
          ∷ (codes "{\"v\":1,\"id\":2,\"ok\":true,\"result\":{\"subscribed\":true}}"
              ++ 46
                ∷ 0
                ∷ 0
                ∷ 0
                ∷ (codes "{\"v\":1,\"event\":\"snapshot_created\",\"payload\":1}"
                    ++ 35 ∷ 0 ∷ 0 ∷ 0 ∷ (codes "{\"v\":1,\"id\":3,\"ok\":true,\"result\":2}"))))

stream-sent : sent (map (request_text no_doubles) requests) 256 ≡ value (flatten (chunks_of reads))
unfolding encode_frame serialize serialize_into request_json int64_of_uint64 method_string
stream-sent = refl

replies-sent : sent (messages_to no_doubles handlers false 0 requests).0 256 ≡ value replies
unfolding encode_frame serialize serialize_into response_json event_json event_string
    int64_of_uint64 messages_to answer_to success acknowledgement
replies-sent = refl

null-IsPayload : IsPayload null
unfolding IsPlain nest
null-IsPayload = record { plain = tt; shallow = omega arith }

empty-IsPayload : IsPayload (array no_items)
unfolding IsPlain nest
empty-IsPayload = record { plain = tt; shallow = omega arith }

requests_valid : All IsSendable requests
requests_valid = (
  record { id_fits = omega arith; known = λ e. cc; payload = null-IsPayload },
  (
    record { id_fits = omega arith; known = λ e. cc; payload = null-IsPayload },
    (record { id_fits = omega arith; known = λ e. cc; payload = empty-IsPayload }, tt),
  ),
)

serve_client-answers_example :
    let end = serve_client service reads (record { buffer = []; max_bytes = 256 }) fresh in
    (end.connection ≡ replies) × (end.daemon ≡ (messages_to no_doubles handlers false 0 requests).1)
serve_client-answers_example =
    serve_client-answers service (λ c. c) three_at_once-IsReliable requests reads fresh replies refl
      (omega arith) requests_valid ((λ e. cc), ((λ e. cc), ((λ e. cc), tt))) stream-sent
      replies-sent

run_lives :
    (run service
      (pump (chunks_of reads) (record { buffer = []; max_bytes = 256 })).frames
      fresh).0.active
    ≡ true
run_lives =
    let (_, lives, _, _) =
      run-IsAllAnswered service (λ c. c) three_at_once-IsReliable requests reads fresh replies refl
        (omega arith) requests_valid ((λ e. cc), ((λ e. cc), ((λ e. cc), tt))) stream-sent
        replies-sent in
    lives

serve_client-run_example :
    serve_client service reads (record { buffer = []; max_bytes = 256 }) fresh
    ≡ close service
        (run service
          (pump (chunks_of reads) (record { buffer = []; max_bytes = 256 })).frames
          fresh).0
serve_client-run_example =
    serve_client-run service reads (record { buffer = []; max_bytes = 256 }) fresh run_lives
