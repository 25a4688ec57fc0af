-- ===== src/Privacy/Url/Parts.antt =====
-- Each part of a printed URL is found again where it was written.
use contextsnap.Base.{
  All, Bool, Bytes, [], and_parts, codes, false, is_empty, not, refl, some, sym, true, ℕ, ◌++◌,
  ◌==◌, ◌||◌, ◌∷◌, ◌≡◌, ap, append-nil, append_assoc, arith, cut_first, Option, if◌then◌else◌,
  length, suc, ◌∙◌, ◌≤◌, length-append, none, zero,
}
use contextsnap.Base.Cuts.{
  none_of, any-none_of, cut_first-append, cut_first-eq-none, cut_last-append, cut_last-eq-none,
  none_of-append,
}
use contextsnap.Privacy.Url.{
  cut_scheme, is_char, after_cut, before_cut, parameter_string, parse_parameter, take_port,
  take_userinfo, unless_empty, Query, parameter_cut, parameters_string, parse_query, port_cut,
  query_cut, userinfo_cut, path_cut, take_path,
}

abbrev pub path_end : ℕ → Bool
path_end c = c == b'?' || c == b'#'

abbrev pub address_mark : ℕ → Bool
address_mark c = c == b'@' || (c == b':' || c == b']')

abbrev pub parameter_end : ℕ → Bool
parameter_end c = c == b'&' || c == b'#'

-- A parameter with a key, and with no character that ends it.
pub record IsParameter (kv : Bytes × Bytes) : Type 0 where
  pub keyed : is_empty kv.0 ≡ false
  pub key_plain : none_of (λ c. c == b'=' || parameter_end c) kv.0 ≡ true
  pub value_plain : none_of parameter_end kv.1 ≡ true

pub weaken :
    (p q : ℕ → Bool)
    → ((c : ℕ) → q c ≡ true → p c ≡ true)
    → (s : Bytes) → none_of p s ≡ true
    → none_of q s ≡ true
weaken p q w [] h = refl
weaken p q w (c ∷ s) h =
    let (plain, rest) = and_parts (not (p c)) (none_of p s) h in
    rw (spared (p c) (q c) (w c) plain) (weaken p q w s rest)
  where
    spared : (a b : Bool) → (b ≡ true → a ≡ true) → not a ≡ true → not b ≡ true
    spared a false k h = refl
    spared true true k h = h
    spared false true k h = k refl

pub cut_scheme-append :
    (s t : Bytes)
    → none_of (is_char b':') s ≡ true
    → cut_scheme (s ++ codes "://" ++ t) ≡ some (s, t)
unfolding cut_scheme
cut_scheme-append [] t h = refl
cut_scheme-append (c ∷ s) t h =
    let (plain, rest) = and_parts (not (is_char b':' c)) (none_of (is_char b':') s) h in
    rw (is_false (c == b':') plain, cut_scheme-append s t rest) refl
  where
    is_false : (b : Bool) → not b ≡ true → b ≡ false
    is_false false h = refl
    is_false true h = sym h

pub at_weak : (c : ℕ) → is_char b'@' c ≡ true → address_mark c ≡ true
at_weak c h = ground arith

colon_weak : (c : ℕ) → is_char b':' c ≡ true → address_mark c ≡ true
colon_weak c h = ground arith

bracket_weak : (c : ℕ) → is_char b']' c ≡ true → address_mark c ≡ true
bracket_weak c h = ground arith

pub take_userinfo-print :
    (userinfo address : Bytes)
    → none_of (is_char b'@') address ≡ true
    → take_userinfo (unless_empty userinfo (userinfo ++ b'@' ∷ []) ++ address) ≡ (userinfo, address)
take_userinfo-print [] address h =
    ap (userinfo_cut address) (cut_last-eq-none (is_char b'@') address h)
take_userinfo-print (c ∷ s) address h =
    ap take_userinfo (append_assoc (c ∷ s) (b'@' ∷ []) address)
    ∙ ap (userinfo_cut ((c ∷ s) ++ b'@' ∷ address))
        (cut_last-append (is_char b'@') (c ∷ s) b'@' address h refl)

abbrev pub port_string : Bytes → Bytes
port_string port = unless_empty port (b':' ∷ port)

pub take_port-print :
    (host port : Bytes)
    → none_of address_mark host ≡ true
    → none_of address_mark port ≡ true
    → take_port (host ++ port_string port) ≡ (host, port)
take_port-print host [] h k =
    ap take_port (append-nil host)
    ∙ ap (port_cut host) (
        cut_last-eq-none (is_char b':') host (weaken address_mark (is_char b':') colon_weak host h))
take_port-print host (c ∷ s) h k =
    ap (port_cut (host ++ b':' ∷ c ∷ s)) (
      cut_last-append (is_char b':') host b':' (c ∷ s)
        (weaken address_mark (is_char b':') colon_weak (c ∷ s) k) refl)
    ∙ ap (λ b. if b then (host ++ b':' ∷ c ∷ s, []) else (host, c ∷ s))
        (any-none_of (is_char b']') (host ++ b':' ∷ c ∷ s) (
          none_of-append (is_char b']') host (b':' ∷ c ∷ s)
            (weaken address_mark (is_char b']') bracket_weak host h)
            (weaken address_mark (is_char b']') bracket_weak (c ∷ s) k)))

pub cut_fragment :
    (body fragment : Bytes)
    → none_of (is_char b'#') body ≡ true
    → let cut = cut_first (is_char b'#') (body ++ unless_empty fragment (b'#' ∷ fragment)) in
      (before_cut (body ++ unless_empty fragment (b'#' ∷ fragment)) cut ≡ body)
      × (after_cut cut ≡ fragment)
cut_fragment body [] h = rw (append-nil body, cut_first-eq-none (is_char b'#') body h) (refl, refl)
cut_fragment body (c ∷ s) h =
    rw (cut_first-append (is_char b'#') body b'#' (c ∷ s) h refl) (refl, refl)

equals_weak : (c : ℕ) → is_char b'=' c ≡ true → (c == b'=' || parameter_end c) ≡ true
equals_weak c h = ground arith

end_weak : (c : ℕ) → parameter_end c ≡ true → (c == b'=' || parameter_end c) ≡ true
end_weak c h = ground arith

key_only :
    (key : Bytes)
    → none_of (λ c. c == b'=' || parameter_end c) key ≡ true
    → none_of (is_char b'=') key ≡ true
key_only key h = weaken (λ c. c == b'=' || parameter_end c) (is_char b'=') equals_weak key h

parse_parameter-print :
    (kv : Bytes × Bytes) → IsParameter kv → parse_parameter (parameter_string kv) ≡ kv
parse_parameter-print (key, []) p =
    ap parse_parameter (append-nil key)
    ∙ ap (parameter_cut key) (cut_first-eq-none (is_char b'=') key (key_only key p.key_plain))
parse_parameter-print (key, c ∷ s) p =
    ap (parameter_cut (key ++ b'=' ∷ c ∷ s))
      (cut_first-append (is_char b'=') key b'=' (c ∷ s) (key_only key p.key_plain) refl)

pub parameter_string-plain :
    (kv : Bytes × Bytes) → IsParameter kv → none_of parameter_end (parameter_string kv) ≡ true
parameter_string-plain (key, []) p =
    none_of-append parameter_end key []
      (weaken (λ c. c == b'=' || parameter_end c) parameter_end end_weak key p.key_plain) refl
parameter_string-plain (key, c ∷ s) p =
    none_of-append parameter_end key (b'=' ∷ c ∷ s)
      (weaken (λ c. c == b'=' || parameter_end c) parameter_end end_weak key p.key_plain)
      p.value_plain

amp_weak : (c : ℕ) → is_char b'&' c ≡ true → parameter_end c ≡ true
amp_weak c h = ground arith

pub hash_weak : (c : ℕ) → is_char b'#' c ≡ true → parameter_end c ≡ true
hash_weak c h = ground arith

-- A text that is not empty is a round of the loop.
parse_query-cut :
    (f : ℕ) (s : Bytes) (cut : Option (Bytes × Bytes))
    → is_empty s ≡ false
    → cut_first (is_char b'&') s ≡ cut
    → parse_query (suc f) s ≡ query_cut (parse_query f) s cut
unfolding parse_query
parse_query-cut f [] cut h e = cc
parse_query-cut f (c ∷ s) cut h e = ap (query_cut (parse_query f) (c ∷ s)) e

parameter_string-amp :
    (kv : Bytes × Bytes) → IsParameter kv → none_of (is_char b'&') (parameter_string kv) ≡ true
parameter_string-amp kv p =
    weaken parameter_end (is_char b'&') amp_weak (parameter_string kv) (parameter_string-plain kv p)

keyed-append :
    (kv : Bytes × Bytes) (t : Bytes) → IsParameter kv → is_empty (parameter_string kv ++ t) ≡ false
keyed-append ([], v) t p = absurd (cc p.keyed)
keyed-append (c ∷ s, v) t p = refl

parse_query-print :
    (f : ℕ) (kv : Bytes × Bytes) (kvs : Query)
    → length (parameter_string kv ++ parameters_string b'&' kvs) ≤ f
    → All IsParameter (kv ∷ kvs)
    → parse_query f (parameter_string kv ++ parameters_string b'&' kvs) ≡ kv ∷ kvs
unfolding parameters_string
parse_query-print zero ([], v) kvs h p = absurd (cc (p.0.keyed))
parse_query-print zero (c ∷ s, v) kvs h p = absurd (omega arith)
parse_query-print (suc f) kv [] h p =
    ap (parse_query (suc f)) (append-nil (parameter_string kv))
    ∙ parse_query-cut f (parameter_string kv) none
        (ap is_empty (sym (append-nil (parameter_string kv))) ∙ keyed-append kv [] p.0)
        (cut_first-eq-none (is_char b'&') (parameter_string kv) (parameter_string-amp kv p.0))
    ∙ ap (λ e. e ∷ []) (parse_parameter-print kv p.0)
parse_query-print (suc f) kv (next ∷ kvs) h p =
    let rest = parameter_string next ++ parameters_string b'&' kvs in
    parse_query-cut f (parameter_string kv ++ b'&' ∷ rest) (some (parameter_string kv, rest))
      (keyed-append kv (b'&' ∷ rest) p.0)
      (cut_first-append (is_char b'&') (parameter_string kv) b'&' rest (parameter_string-amp kv p.0)
        refl)
    ∙ ap (λ e. e ∷ parse_query f rest) (parse_parameter-print kv p.0)
    ∙ ap (λ q. kv ∷ q)
        (parse_query-print f next kvs
          (omega (arith, h, length-append (parameter_string kv) (b'&' ∷ rest))) p.1)

question_weak : (c : ℕ) → is_char b'?' c ≡ true → path_end c ≡ true
question_weak c h = ground arith

pub take_path-print :
    (path : Bytes) (query : Query)
    → none_of path_end path ≡ true
    → All IsParameter query
    → take_path (path ++ parameters_string b'?' query) ≡ (path, query)
unfolding parameters_string
take_path-print path [] h p =
    ap take_path (append-nil path)
    ∙ ap (path_cut path) (
        cut_first-eq-none (is_char b'?') path (weaken path_end (is_char b'?') question_weak path h))
take_path-print path (kv ∷ kvs) h p =
    let query = parameter_string kv ++ parameters_string b'&' kvs in
    ap (path_cut (path ++ b'?' ∷ query)) (
      cut_first-append (is_char b'?') path b'?' query
        (weaken path_end (is_char b'?') question_weak path h) refl)
    ∙ ap (λ q. (path, q)) (parse_query-print (length query) kv kvs (omega arith) p)
