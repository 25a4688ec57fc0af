-- ===== src/Ipc/Message/Wire.antt =====
-- Messages as they travel: printed, parsed and read back (src/ipc/protocol.cpp, src/core/json.cpp).
use contextsnap.Base.{Bytes, arith, codes, refl, ℕ, ◌<◌, ◌^◌, ◌≡◌, ◌≢◌, ◌≤◌}
use contextsnap.Base.Int.{int64_of_uint64, negsuc, uint64-int64}
use contextsnap.Errors.{Error, Result, value, ◌>>=◌}
use contextsnap.Json.{DoubleText, Value, find, null}
use contextsnap.Json.Parser.{max_depth, parse}
use contextsnap.Json.Digits.{IsInt64}
use contextsnap.Json.RoundTrip.Shape.{IsPlain, nest}
use contextsnap.Ipc.Message.{
  EventType, Method, Request, Response, event_from_string, event_string, failure, id_of,
  known_request, method_from_string, method_string, or_default, request_from_json, request_json,
  response_from_json, response_json, snapshot_created, success, unknown,
}
use contextsnap.Errors.Codes.{code_from-code_string}
use contextsnap.Json.Printer.{serialize}
use contextsnap.Json.RoundTrip.{parse-serialize}

-- A value that may stand in a message.
pub record IsPayload (v : Value) : Type 0 where
  pub plain : IsPlain v
  pub shallow : nest v < max_depth

method_from-method_string : (m : Method) → method_from_string (method_string m) ≡ m
unfolding method_from_string
method_from-method_string unknown = refl
method_from-method_string _ = refl

event_from-event_string : (t : EventType) → event_from_string (event_string t) ≡ t
unfolding event_from_string
event_from-event_string snapshot_created = refl
event_from-event_string _ = refl

int64_of_uint64-IsInt64 : (n : ℕ) → IsInt64 (int64_of_uint64 n)
unfolding int64_of_uint64
int64_of_uint64-IsInt64 n = ground arith

module _ (fp : DoubleText) where
  known_request-known :
      (v : Value) (name : Bytes) (m : Method)
      → m ≢ unknown
      → known_request fp v name m
        ≡ value (record {
          id = id_of fp v;
          method = m;
          params = or_default (find v (codes "params")) null λ params. params;
        })
  unfolding known_request
  known_request-known v name unknown h = absurd (h refl)
  known_request-known v name _ h = refl

  request_from_json-request_json :
      (r : Request)
      → r.id < 2 ^ 64
      → r.method ≢ unknown
      → request_from_json fp (request_json r) ≡ value r
  unfolding request_from_json request_json id_of
  request_from_json-request_json r small known =
      rw
        (
          method_from-method_string r.method,
          known_request-known (request_json r) (method_string r.method) r.method known,
          uint64-int64 r.id small,
        )
        refl

  response_from_json-success :
      (id : ℕ) (v : Value)
      → id < 2 ^ 64
      → response_from_json fp (response_json (success id v)) ≡ value (success id v)
  unfolding response_from_json response_json id_of
  response_from_json-success id v small = rw (uint64-int64 id small) refl

  response_from_json-failure :
      (id : ℕ) (e : Error)
      → id < 2 ^ 64
      → response_from_json fp (response_json (failure id e)) ≡ value (failure id e)
  unfolding response_from_json response_json id_of failure
  response_from_json-failure id e small =
      rw (uint64-int64 id small, code_from-code_string e.code) refl

  -- Parsing and reading a message, as both ends do it.
  unfoldable pub read_request : Bytes → Result Request
  read_request text = parse fp text >>= request_from_json fp

  unfoldable pub read_response : Bytes → Result Response
  read_response text = parse fp text >>= response_from_json fp

request_json-IsPayload :
    (r : Request)
    → IsPayload r.params
    → IsPlain (request_json r) × (nest (request_json r) ≤ max_depth)
unfolding request_json IsPlain nest
request_json-IsPayload r h =
    ((omega arith, (int64_of_uint64-IsInt64 r.id, (tt, (h.plain, tt)))), omega (arith, h.shallow))

success-IsPayload :
    (id : ℕ) (v : Value)
    → IsPayload v
    → IsPlain (response_json (success id v)) × (nest (response_json (success id v)) ≤ max_depth)
unfolding response_json success IsPlain nest
success-IsPayload id v h =
    ((omega arith, (int64_of_uint64-IsInt64 id, (tt, (h.plain, tt)))), omega (arith, h.shallow))

failure-IsPayload :
    (id : ℕ) (e : Error)
    → IsPlain (response_json (failure id e)) × (nest (response_json (failure id e)) ≤ max_depth)
unfolding response_json failure IsPlain nest
failure-IsPayload id e =
    ((omega arith, (int64_of_uint64-IsInt64 id, (tt, ((tt, (tt, tt)), tt)))), omega arith)

module _ (fp : DoubleText) where
  pub read_request-request_json :
      (r : Request)
      → r.id < 2 ^ 64
      → r.method ≢ unknown
      → IsPayload r.params
      → read_request fp (serialize fp (negsuc 0) (request_json r)) ≡ value r
  unfolding read_request
  read_request-request_json r small known h =
      let (plain, shallow) = request_json-IsPayload r h in
      rw (parse-serialize fp (negsuc 0) (request_json r) plain shallow)
        (request_from_json-request_json fp r small known)

  pub read_response-success :
      (id : ℕ) (v : Value)
      → id < 2 ^ 64
      → IsPayload v
      → read_response fp (serialize fp (negsuc 0) (response_json (success id v)))
        ≡ value (success id v)
  unfolding read_response
  read_response-success id v small h =
      let (plain, shallow) = success-IsPayload id v h in
      rw (parse-serialize fp (negsuc 0) (response_json (success id v)) plain shallow)
        (response_from_json-success fp id v small)

  pub read_response-failure :
      (id : ℕ) (e : Error)
      → id < 2 ^ 64
      → read_response fp (serialize fp (negsuc 0) (response_json (failure id e)))
        ≡ value (failure id e)
  unfolding read_response
  read_response-failure id e small =
      let (plain, shallow) = failure-IsPayload id e in
      rw (parse-serialize fp (negsuc 0) (response_json (failure id e)) plain shallow)
        (response_from_json-failure fp id e small)
