-- ===== src/Privacy/Url.antt =====
-- `ParsedUrl` of include/contextsnap/privacy/sanitizer.hpp, with `parse_url` and the printers of
-- src/privacy/sanitizer.cpp. A `string_view` cut at a position is the pair of the parts.
pub mod Parts
pub mod RoundTrip
use contextsnap.Base.{
  Bool, Bytes, List, Option, [], any, break_at, codes, cut_first, cut_last, drop, if◌then◌else◌,
  is_empty, length, lower, none, some, starts_with, suc, zero, ℕ, ◌++◌, ◌==◌, ◌||◌, ◌∷◌,
}
use contextsnap.Errors.{Result, error, invalid, value}

abbrev pub Query : Type 0
Query = List (Bytes × Bytes)

pub record ParsedUrl : Type 0 where
  pub scheme : Bytes
  pub userinfo : Bytes
  pub host : Bytes
  pub port : Bytes
  pub path : Bytes
  pub query : Query
  pub fragment : Bytes

-- A query parameter, and the loop over them: `?` before the first, `&` before the others.
abbrev pub parameter_string : Bytes × Bytes → Bytes
parameter_string (key, val) = key ++ (if is_empty val then [] else b'=' ∷ val)

unfoldable pub parameters_string : ℕ → Query → Bytes
parameters_string mark [] = []
parameters_string mark (kv ∷ kvs) = mark ∷ parameter_string kv ++ parameters_string b'&' kvs

abbrev pub unless_empty : Bytes → Bytes → Bytes
unless_empty s out = if is_empty s then [] else out

-- `ParsedUrl::to_string`.
unfoldable pub url_string : ParsedUrl → Bytes
unfolding parameters_string
url_string u =
    unless_empty u.scheme (u.scheme ++ codes "://")
    ++ unless_empty u.userinfo (u.userinfo ++ b'@' ∷ [])
    ++ u.host
    ++ unless_empty u.port (b':' ∷ u.port)
    ++ u.path
    ++ parameters_string b'?' u.query
    ++ unless_empty u.fragment (b'#' ∷ u.fragment)

-- `ParsedUrl::origin`.
unfoldable pub origin : ParsedUrl → Bytes
origin u =
    unless_empty u.scheme (u.scheme ++ codes "://") ++ u.host ++ unless_empty u.port (b':' ∷ u.port)

-- `rest.find("://")`, cut around it.
unfoldable pub cut_scheme : Bytes → Option (Bytes × Bytes)
cut_scheme [] = none
cut_scheme (c ∷ s) =
    if starts_with (c ∷ s) (codes "://")
    then some ([], drop 2 s)
    else elim (cut_scheme s) [ none ↦ none | some (before, after) ↦ some (c ∷ before, after) ]

abbrev pub is_char : ℕ → ℕ → Bool
is_char a c = c == a

abbrev pub ends_authority : ℕ → Bool
ends_authority c = c == b'/' || (c == b'?' || c == b'#')

-- What stands before a cut, and what behind it.
abbrev pub before_cut : Bytes → Option (Bytes × Bytes) → Bytes
before_cut s none = s
before_cut s (some (before, after)) = before

abbrev pub after_cut : Option (Bytes × Bytes) → Bytes
after_cut none = []
after_cut (some (before, after)) = after

abbrev pub parameter_cut : Bytes → Option (Bytes × Bytes) → Bytes × Bytes
parameter_cut s none = (s, [])
parameter_cut s (some cut) = cut

abbrev pub parse_parameter : Bytes → Bytes × Bytes
parse_parameter s = parameter_cut s (cut_first (is_char b'=') s)

abbrev pub query_cut : (Bytes → Query) → Bytes → Option (Bytes × Bytes) → Query
query_cut more s none = parse_parameter s ∷ []
query_cut more s (some (pair, rest)) = parse_parameter pair ∷ more rest

-- The loop over the query, on fuel: every round but the last takes an `&`.
unfoldable pub parse_query : ℕ → Bytes → Query
parse_query zero s = []
parse_query (suc f) [] = []
parse_query (suc f) (c ∷ s) = query_cut (parse_query f) (c ∷ s) (cut_first (is_char b'&') (c ∷ s))

-- The user information, and the rest of the authority.
abbrev pub userinfo_cut : Bytes → Option (Bytes × Bytes) → Bytes × Bytes
userinfo_cut authority none = ([], authority)
userinfo_cut authority (some cut) = cut

abbrev pub take_userinfo : Bytes → Bytes × Bytes
take_userinfo authority = userinfo_cut authority (cut_last (is_char b'@') authority)

-- Host and port; a `]` is the end of an IPv6 address, whose colons are no mark of a port.
abbrev pub port_cut : Bytes → Option (Bytes × Bytes) → Bytes × Bytes
port_cut authority none = (authority, [])
port_cut authority (some cut) = if any (is_char b']') authority then (authority, []) else cut

abbrev pub take_port : Bytes → Bytes × Bytes
take_port authority = port_cut authority (cut_last (is_char b':') authority)

-- Path and query, before the fragment.
abbrev pub path_cut : Bytes → Option (Bytes × Bytes) → Bytes × Query
path_cut s none = (s, [])
path_cut s (some (path, query)) = (path, parse_query (length query) query)

abbrev pub take_path : Bytes → Bytes × Query
take_path s = path_cut s (cut_first (is_char b'?') s)

-- The part behind the authority: path, query and fragment.
unfoldable pub take_target : Bytes → (Bytes × Query) × Bytes
unfolding cut_first parse_query
take_target s =
    let cut = cut_first (is_char b'#') s in (take_path (before_cut s cut), after_cut cut)

unfoldable pub with_port : Bytes → Bytes → Bytes × Bytes → (Bytes × Query) × Bytes → ParsedUrl
unfolding lower
with_port scheme userinfo (host, port) ((path, query), fragment) = record {
  scheme = lower scheme;
  userinfo = userinfo;
  host = lower host;
  port = port;
  path = path;
  query = query;
  fragment = fragment;
}

unfoldable pub with_userinfo : Bytes → Bytes × Bytes → (Bytes × Query) × Bytes → ParsedUrl
unfolding cut_last
with_userinfo scheme (userinfo, address) target =
    with_port scheme userinfo (take_port address) target

unfoldable pub with_authority : Bytes → Bytes × Bytes → ParsedUrl
unfolding take_target cut_last
with_authority scheme (authority, target) =
    with_userinfo scheme (take_userinfo authority) (take_target target)

unfoldable pub parse_hierarchical : Bytes → Bytes → ParsedUrl
unfolding break_at
parse_hierarchical scheme rest = with_authority scheme (break_at ends_authority rest)

-- A scheme such as `about` or `mailto`, all of the rest its path.
abbrev pub opaque_url : Bytes → Bytes → ParsedUrl
opaque_url scheme path = record {
  scheme = scheme;
  userinfo = [];
  host = [];
  port = [];
  path = path;
  query = [];
  fragment = [];
}

abbrev pub no_scheme : Result ParsedUrl
no_scheme = error (invalid (codes "url has no scheme") (codes "privacy.parse_url"))

unfoldable pub with_colon : Option (Bytes × Bytes) → Result ParsedUrl
unfolding lower
with_colon none = no_scheme
with_colon (some (scheme, rest)) =
    if any (is_char b'/') scheme then no_scheme else value (opaque_url (lower scheme) rest)

unfoldable pub with_scheme : Bytes → Option (Bytes × Bytes) → Result ParsedUrl
unfolding cut_first parse_hierarchical
with_scheme s none = with_colon (cut_first (is_char b':') s)
with_scheme s (some (scheme, rest)) = value (parse_hierarchical scheme rest)

-- `parse_url`.
unfoldable pub parse_url : Bytes → Result ParsedUrl
unfolding cut_scheme
parse_url [] = error (invalid (codes "empty url") (codes "privacy.parse_url"))
parse_url (c ∷ s) = with_scheme (c ∷ s) (cut_scheme (c ∷ s))
