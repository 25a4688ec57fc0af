-- ===== src/Privacy/Url/RoundTrip.antt =====
-- A printed URL is read back.
use contextsnap.Base.{
  All, Bytes, List, [], arith, codes, false, is_empty, lower, refl, true, ℕ, ◌++◌, ◌==◌, ◌∷◌, ◌≡◌,
  ap, append_assoc, cut_first, ◌∙◌,
}
use contextsnap.Base.Cuts.{begins, none_of, none_of-append, break_at-append}
use contextsnap.Errors.{value}
use contextsnap.Privacy.Url.{
  ParsedUrl, Query, ends_authority, is_char, parameter_string, parameters_string,
  parse_hierarchical, parse_url, unless_empty, url_string, after_cut, take_path, take_target,
  take_userinfo, with_authority, with_port, with_scheme, with_userinfo,
}
use contextsnap.Privacy.Url.Parts.{
  IsParameter, address_mark, hash_weak, parameter_end, parameter_string-plain, path_end,
  port_string, weaken, at_weak, cut_fragment, cut_scheme-append, take_path-print, take_port-print,
  take_userinfo-print,
}

-- The URLs that the printer writes without a loss: scheme and host in small letters, no mark in a
-- part that would be read as the start of the next, and no address in brackets.
pub record IsCanonical (u : ParsedUrl) : Type 0 where
  pub has_scheme : is_empty u.scheme ≡ false
  pub scheme_plain : none_of (is_char b':') u.scheme ≡ true
  pub scheme_small : lower u.scheme ≡ u.scheme
  pub userinfo_plain : none_of ends_authority u.userinfo ≡ true
  pub host_plain : none_of ends_authority u.host ≡ true
  pub host_unmarked : none_of address_mark u.host ≡ true
  pub host_small : lower u.host ≡ u.host
  pub port_plain : none_of ends_authority u.port ≡ true
  pub port_unmarked : none_of address_mark u.port ≡ true
  pub path_starts : begins (is_char b'/') u.path ≡ true
  pub path_plain : none_of path_end u.path ≡ true
  pub parameters : All IsParameter u.query

abbrev user_string : Bytes → Bytes
user_string userinfo = unless_empty userinfo (userinfo ++ b'@' ∷ [])

abbrev fragment_string : Bytes → Bytes
fragment_string fragment = unless_empty fragment (b'#' ∷ fragment)

hash_ends : (c : ℕ) → is_char b'#' c ≡ true → path_end c ≡ true
hash_ends c h = ground arith

user_string-plain :
    (s : Bytes) → none_of ends_authority s ≡ true → none_of ends_authority (user_string s) ≡ true
user_string-plain [] h = refl
user_string-plain (c ∷ s) h = none_of-append ends_authority (c ∷ s) (b'@' ∷ []) h refl

port_string-plain :
    (s : Bytes) → none_of ends_authority s ≡ true → none_of ends_authority (port_string s) ≡ true
port_string-plain [] h = refl
port_string-plain (c ∷ s) h = h

port_string-at :
    (s : Bytes) → none_of (is_char b'@') s ≡ true → none_of (is_char b'@') (port_string s) ≡ true
port_string-at [] h = refl
port_string-at (c ∷ s) h = h

parameters_string-hash :
    (mark : ℕ) (q : Query)
    → (mark == b'#') ≡ false
    → All IsParameter q
    → none_of (is_char b'#') (parameters_string mark q) ≡ true
unfolding parameters_string
parameters_string-hash mark [] h p = refl
parameters_string-hash mark (kv ∷ kvs) h p = rw h (
    none_of-append (is_char b'#') (parameter_string kv) (parameters_string b'&' kvs)
      (weaken parameter_end (is_char b'#') hash_weak (parameter_string kv)
        (parameter_string-plain kv p.0))
      (parameters_string-hash b'&' kvs refl p.1))

-- What follows the authority is empty or begins with one of its ends.
tail-begins :
    (path : Bytes) (q : Query) (fragment : Bytes)
    → begins (is_char b'/') path ≡ true
    → begins ends_authority ((path ++ parameters_string b'?' q) ++ fragment_string fragment) ≡ true
unfolding parameters_string
tail-begins [] [] [] h = refl
tail-begins [] [] (c ∷ s) h = refl
tail-begins [] (kv ∷ kvs) fragment h = refl
tail-begins (c ∷ path) q fragment h = rw h refl

grouped {ℓ} :
    {A : Type ℓ} (p b c d e f g : List A)
    → p ++ b ++ c ++ d ++ e ++ f ++ g ≡ p ++ (b ++ (c ++ d) ++ (e ++ f ++ g))
grouped p b c d e f g =
    ap (λ x. x ++ g) (append_assoc (p ++ b ++ c ++ d) e f)
    ∙ append_assoc (p ++ b ++ c ++ d) (e ++ f) g
    ∙ ap (λ x. x ++ d ++ (e ++ f ++ g)) (append_assoc p b c)
    ∙ ap (λ x. x ++ (e ++ f ++ g)) (append_assoc p (b ++ c) d)
    ∙ ap (λ x. p ++ x ++ (e ++ f ++ g)) (append_assoc b c d)
    ∙ append_assoc p (b ++ (c ++ d)) (e ++ f ++ g)

scheme_string :
    (scheme : Bytes)
    → is_empty scheme ≡ false
    → unless_empty scheme (scheme ++ codes "://") ≡ scheme ++ codes "://"
scheme_string [] h = cc
scheme_string (c ∷ s) h = refl

take_target-print :
    (path : Bytes) (q : Query) (fragment : Bytes)
    → none_of path_end path ≡ true
    → All IsParameter q
    → take_target ((path ++ parameters_string b'?' q) ++ fragment_string fragment)
      ≡ ((path, q), fragment)
unfolding take_target
take_target-print path q fragment h p =
    let body = path ++ parameters_string b'?' q in
    let (front, back) = cut_fragment body fragment (
      none_of-append (is_char b'#') path (parameters_string b'?' q)
        (weaken path_end (is_char b'#') hash_ends path h) (parameters_string-hash b'?' q refl p)) in
    ap (λ b. (take_path b, after_cut (cut_first (is_char b'#') (body ++ fragment_string fragment))))
      front
    ∙ ap (λ f. (take_path body, f)) back
    ∙ ap (λ b. (b, fragment)) (take_path-print path q h p)

module _ (u : ParsedUrl) (h : IsCanonical u) where
  abbrev address : Bytes
  address = u.host ++ port_string u.port

  abbrev target : Bytes
  target = (u.path ++ parameters_string b'?' u.query) ++ fragment_string u.fragment

  -- The URL without its scheme.
  abbrev rest_string : Bytes
  rest_string = (user_string u.userinfo ++ address) ++ target

  parse_hierarchical-print : parse_hierarchical u.scheme rest_string ≡ u
  unfolding parse_hierarchical with_port with_userinfo with_authority
  parse_hierarchical-print =
      ap (with_authority u.scheme) (
        break_at-append ends_authority (user_string u.userinfo ++ address) target
          (none_of-append ends_authority (user_string u.userinfo) address
            (user_string-plain u.userinfo h.userinfo_plain)
            (none_of-append ends_authority u.host (port_string u.port) h.host_plain
              (port_string-plain u.port h.port_plain)))
          (tail-begins u.path u.query u.fragment h.path_starts))
      ∙ ap (λ t. with_userinfo u.scheme (take_userinfo (user_string u.userinfo ++ address)) t)
          (take_target-print u.path u.query u.fragment h.path_plain h.parameters)
      ∙ ap (λ a. with_userinfo u.scheme a ((u.path, u.query), u.fragment))
          (take_userinfo-print u.userinfo address (
            none_of-append (is_char b'@') u.host (port_string u.port)
              (weaken address_mark (is_char b'@') at_weak u.host h.host_unmarked)
              (port_string-at u.port
                (weaken address_mark (is_char b'@') at_weak u.port h.port_unmarked))))
      ∙ ap (λ a. with_port u.scheme u.userinfo a ((u.path, u.query), u.fragment))
          (take_port-print u.host u.port h.host_unmarked h.port_unmarked)
      ∙ ap (λ s. record u { scheme = s; host = lower u.host }) h.scheme_small
      ∙ ap (λ s. record u { host = s }) h.host_small

parse_url-scheme :
    (scheme rest : Bytes)
    → is_empty scheme ≡ false
    → none_of (is_char b':') scheme ≡ true
    → parse_url (scheme ++ codes "://" ++ rest) ≡ value (parse_hierarchical scheme rest)
unfolding parse_url with_scheme
parse_url-scheme [] rest h k = cc
parse_url-scheme (c ∷ s) rest h k =
    ap (with_scheme (c ∷ (s ++ codes "://" ++ rest))) (cut_scheme-append (c ∷ s) rest k)

-- A canonical URL that is printed and read again is the same URL, in all its parts.
pub parse_url-url_string : (u : ParsedUrl) → IsCanonical u → parse_url (url_string u) ≡ value u
unfolding url_string
parse_url-url_string u h =
    ap parse_url (
      ap
        (λ s.
          s
          ++ user_string u.userinfo
          ++ u.host
          ++ port_string u.port
          ++ u.path
          ++ parameters_string b'?' u.query
          ++ fragment_string u.fragment)
        (scheme_string u.scheme h.has_scheme)
      ∙ grouped (u.scheme ++ codes "://") (user_string u.userinfo) u.host (port_string u.port)
          u.path (parameters_string b'?' u.query) (fragment_string u.fragment))
    ∙ parse_url-scheme u.scheme (rest_string u h) h.has_scheme h.scheme_plain
    ∙ ap value (parse_hierarchical-print u h)
