-- ===== src/Ipc/Session/Reliable.antt =====
-- What one request brings about over a connection that takes what is written to it: the events of
-- its handler and the response (src/ipc/server.cpp, `Server::broadcast`, `Server::dispatch`).
use contextsnap.Base.Int.{negsuc}
use contextsnap.Ipc.Session.Expected.{
  event_text, heard, heard-nil, messages_of, of_handler, response_text, sent-append, sent-one,
}
use contextsnap.Base.{
  Bytes, List, Option, [], all, arith, drop, length, length-drop, refl, suc, take, true, zero, ℕ,
  ◌++◌, ◌∷◌, ◌≡◌, ◌≤◌, Bool, ap, append-nil, append_assoc, map, sym, take-append-drop, ◌∙◌, false,
  none, some, subst,
}
use contextsnap.Errors.{value}
use contextsnap.Json.{Value}
use contextsnap.Json.Printer.{serialize}
use contextsnap.Ipc.Frame.{encode_frame}
use contextsnap.Ipc.Message.{Request, response_json, Event, event_json}
use contextsnap.Ipc.Session.{
  Handler, Service, Session, Write, dispatch, send, write_all, answer, broadcast, broadcast_all,
  not_handled, respond,
}
use contextsnap.Errors.Chain.{value_injective, bind-eq-value}
use contextsnap.Ipc.Pump.Delivery.{sent}

-- A connection whose peer reads on: a write takes one byte or more, in order. `out` is what has
-- been written.
pub record IsReliable {C : Type 0} (write : Write C) (out : C → Bytes) : Type 0 where
  pub takes :
      (c : C) (b : ℕ) (bs : Bytes)
      → (n : ℕ) × (c' : C) × (write c (b ∷ bs) ≡ (value (suc n), c'))
        × (out c' ≡ out c ++ take (suc n) (b ∷ bs))

module _ {C : Type 0} (write : Write C) (out : C → Bytes) (reliable : IsReliable write out) where
  write_all-reliable :
      (fuel : ℕ) (c : C) (bytes : Bytes)
      → length bytes ≤ fuel
      → ((write_all write fuel c bytes).1 ≡ true)
        × (out (write_all write fuel c bytes).0 ≡ out c ++ bytes)
  unfolding write_all
  write_all-reliable fuel c [] h = (refl, sym (append-nil (out c)))
  write_all-reliable zero c (b ∷ bs) h = absurd (omega arith)
  write_all-reliable (suc fuel) c (b ∷ bs) h =
      let (n, c', taken, written) = reliable.takes c b bs in
      let (all, more) = write_all-reliable fuel c' (drop n bs) (omega (arith, length-drop n bs)) in
      rw taken (
        all,
        more
            ∙ ap (λ o. o ++ drop n bs) written
            ∙ append_assoc (out c) (take (suc n) (b ∷ bs)) (drop n bs)
            ∙ ap (λ t. out c ++ t) (take-append-drop (suc n) (b ∷ bs)),
      )

module _ {C S : Type 0} (service : Service C S) (out : C → Bytes)
    (reliable : IsReliable service.write out) where
  abbrev pub said : Session C S → Bytes
  said s = out s.connection

  -- The session after some bytes have been written to it.
  pub record IsAfter (s : Session C S) (bytes : Bytes) (b : Bool) (d : S) (t : Session C S)
      : Type 0 where
    pub lives : t.active ≡ true
    pub hears : t.subscribed ≡ b
    pub wrote : said t ≡ said s ++ bytes
    pub holds : t.daemon ≡ d

  pub IsAfter-trans :
      (s t u : Session C S) (f g : Bytes) (b c : Bool) (d e : S)
      → IsAfter s f b d t
      → IsAfter t g c e u
      → IsAfter s (f ++ g) c e u
  IsAfter-trans s t u f g b c d e h k = record {
    lives = k.lives;
    hears = k.hears;
    wrote = k.wrote ∙ ap (λ o. o ++ g) h.wrote ∙ append_assoc (said s) f g;
    holds = k.holds;
  }

  pub send-reliable :
      (s : Session C S) (v : Value) (frame : Bytes)
      → s.active ≡ true
      → encode_frame (serialize service.double_text (negsuc 0) v) service.limit ≡ value frame
      → ((send service s v).1 ≡ true) × IsAfter s frame s.subscribed s.daemon (send service s v).0
  unfolding send
  send-reliable s v frame live h =
      let (all, more) =
        write_all-reliable service.write out reliable (length frame) s.connection frame
          (omega arith) in
      rw h (all, record { lives = live; hears = refl; wrote = more; holds = refl })

  broadcast-off : (s : Session C S) (e : Event) → s.subscribed ≡ false → broadcast service s e ≡ s
  unfolding broadcast
  broadcast-off s e h = ground arith

  broadcast-on :
      (s : Session C S) (e : Event)
      → s.subscribed ≡ true
      → s.active ≡ true
      → (send service s (event_json e)).1 ≡ true
      → broadcast service s e ≡ (send service s (event_json e)).0
  unfolding broadcast
  broadcast-on s e h k l = ground arith

  broadcast_all-off :
      (es : List Event) (s : Session C S) → s.subscribed ≡ false → broadcast_all service s es ≡ s
  unfolding broadcast_all
  broadcast_all-off [] s h = refl
  broadcast_all-off (e ∷ es) s h =
      ap (λ t. broadcast_all service t es) (broadcast-off s e h) ∙ broadcast_all-off es s h

  broadcast_all-on :
      (es : List Event) (s : Session C S) (bytes : Bytes)
      → s.active ≡ true
      → s.subscribed ≡ true
      → sent (map (event_text service.double_text) es) service.limit ≡ value bytes
      → IsAfter s bytes true s.daemon (broadcast_all service s es)
  unfolding broadcast_all
  broadcast_all-on [] s bytes live h k = record {
    lives = live;
    hears = h;
    wrote = sym (append-nil (said s)) ∙ ap (λ b. said s ++ b) (value_injective k);
    holds = refl;
  }
  broadcast_all-on (e ∷ es) s bytes live h k =
      let (f, framed, k') =
        bind-eq-value (encode_frame (event_text service.double_text e) service.limit) _ k in
      let (rest, others, same) = bind-eq-value (sent _ service.limit) _ k' in
      let (all, first) = send-reliable s (event_json e) f live framed in
      let t = (send service s (event_json e)).0 in
      let later = broadcast_all-on es t rest first.lives (first.hears ∙ h) others in
      subst (λ b. IsAfter s b true s.daemon (broadcast_all service (broadcast service s e) es))
        (value_injective same)
        (subst (λ u. IsAfter s (f ++ rest) true s.daemon (broadcast_all service u es))
          (sym (broadcast-on s e h live all))
          (subst (λ d. IsAfter s (f ++ rest) true d (broadcast_all service t es)) first.holds
            (IsAfter-trans s t (broadcast_all service t es) f rest s.subscribed true s.daemon
              t.daemon first later)))

  broadcast_all-reliable :
      (es : List Event) (s : Session C S) (bytes : Bytes)
      → s.active ≡ true
      → sent (map (event_text service.double_text) (heard s.subscribed es)) service.limit
        ≡ value bytes
      → IsAfter s bytes s.subscribed s.daemon (broadcast_all service s es)
  broadcast_all-reliable es s bytes live k = go s.subscribed refl k
    where
      go :
          (b : Bool)
          → s.subscribed ≡ b
          → sent (map (event_text service.double_text) (heard b es)) service.limit ≡ value bytes
          → IsAfter s bytes s.subscribed s.daemon (broadcast_all service s es)
      go true on k =
          subst (λ b. IsAfter s bytes b s.daemon (broadcast_all service s es)) (sym on)
            (broadcast_all-on es s bytes live on k)
      go false off k =
          subst (λ t. IsAfter s bytes s.subscribed s.daemon t) (sym (broadcast_all-off es s off))
            (record {
              lives = live;
              hears = refl;
              wrote = sym (append-nil (said s)) ∙ ap (λ b. said s ++ b) (value_injective k);
              holds = refl;
            })

  -- What one request comes to.
  abbrev pub IsAnswered : Session C S → Bytes → Bool → S → Session C S × Bool → Type 0
  IsAnswered s bytes b d handled = (handled.1 ≡ true) × IsAfter s bytes b d handled.0

  pub respond-answers :
      (o : Option (Handler S)) (s : Session C S) (r : Request) (bytes : Bytes)
      → s.active ≡ true
      → sent (messages_of service.double_text s.subscribed (of_handler o s.daemon r)) service.limit
        ≡ value bytes
      → IsAnswered s bytes s.subscribed
          (of_handler o s.daemon r).daemon
          (respond service (dispatch service o s r))
  unfolding dispatch
  respond-answers o s r bytes live h =
      let a = of_handler o s.daemon r in
      let (f, g, events, last, joined) =
        sent-append (map (event_text service.double_text) (heard s.subscribed a.published))
          (response_text service.double_text a.response ∷ []) service.limit bytes h in
      subst (λ b. IsAnswered s b s.subscribed a.daemon (respond service (dispatch service o s r)))
        joined
        (go o f g events
          (sent-one (response_text service.double_text a.response) service.limit g last))
    where
      go :
          (o : Option (Handler S)) (f g : Bytes)
          → sent
              (map
                (event_text service.double_text)
                (heard s.subscribed (of_handler o s.daemon r).published))
              service.limit
            ≡ value f
          → encode_frame
              (response_text service.double_text (of_handler o s.daemon r).response)
              service.limit
            ≡ value g
          → IsAnswered s
              (f ++ g)
              s.subscribed
              (of_handler o s.daemon r).daemon
              (respond service (dispatch service o s r))
      go none f g events last =
          let nothing : [] ≡ f = value_injective (
            sym (
              ap (λ es. sent (map (event_text service.double_text) es) service.limit)
                (heard-nil s.subscribed))
            ∙ events) in
          subst
            (λ b.
              IsAnswered s (b ++ g) s.subscribed s.daemon
                (respond service (dispatch service none s r)))
            nothing (send-reliable s (response_json (not_handled r)) g live last)
      go (some handler) f g events last =
          let h = handler s.daemon r.params in
          let s' : Session C S = record s { daemon = h.daemon } in
          let t = broadcast_all service s' h.published in
          let told = broadcast_all-reliable h.published s' f live events in
          let (all, replied) =
            send-reliable t (response_json (answer r.id h.result)) g told.lives last in
          let u = (send service t (response_json (answer r.id h.result))).0 in
          let both =
            IsAfter-trans s' t u f g s.subscribed t.subscribed h.daemon t.daemon told replied in
          (
            all,
            record {
              lives = both.lives;
              hears = both.hears ∙ told.hears;
              wrote = both.wrote;
              holds = both.holds ∙ told.holds;
            },
          )
