-- ===== src/Json/RoundTrip/Reread.antt =====
-- A value with each of its doubles replaced (src/core/json.cpp): what a printed value is read as.
use contextsnap.Base.{ap, refl, ◌≡◌}
use contextsnap.Base.Double.{Double}
use contextsnap.Json.{
  DoubleText, Items, Members, Value, array, bool, double, int, item, member, no_items, no_members,
  null, object, string,
}
use contextsnap.Json.RoundTrip.Doubles.{number_value}
use contextsnap.Json.RoundTrip.Shape.{
  AllPlain, AllPrintable, IsPlain, IsPrintable, MembersPlain, MembersPrintable,
}

module _ (f : Double → Value) where
  unfoldable mutual
    pub map_doubles : Value → Value
    map_doubles null = null
    map_doubles (bool b) = bool b
    map_doubles (int z) = int z
    map_doubles (double d) = f d
    map_doubles (string s) = string s
    map_doubles (array xs) = array (map_items xs)
    map_doubles (object ms) = object (map_members ms)

    pub map_items : Items → Items
    map_items no_items = no_items
    map_items (item v xs) = item (map_doubles v) (map_items xs)

    pub map_members : Members → Members
    map_members no_members = no_members
    map_members (member k v ms) = member k (map_doubles v) (map_members ms)

  -- Nothing changes where there is no double.
  mutual
    unfolding map_doubles IsPlain

    pub map_doubles-plain : (v : Value) → IsPlain v → map_doubles v ≡ v
    map_doubles-plain null h = refl
    map_doubles-plain (bool b) h = refl
    map_doubles-plain (int z) h = refl
    map_doubles-plain (double d) h = absurd h
    map_doubles-plain (string s) h = refl
    map_doubles-plain (array xs) h = ap (λ l. array l) (map_items-plain xs h)
    map_doubles-plain (object ms) h = ap (λ l. object l) (map_members-plain ms h)

    pub map_items-plain : (xs : Items) → AllPlain xs → map_items xs ≡ xs
    map_items-plain no_items h = refl
    map_items-plain (item v xs) h = rw (map_doubles-plain v h.0, map_items-plain xs h.1) refl

    pub map_members-plain : (ms : Members) → MembersPlain ms → map_members ms ≡ ms
    map_members-plain no_members h = refl
    map_members-plain (member k v ms) h =
        rw (map_doubles-plain v h.0, map_members-plain ms h.1) refl

-- What a printed value is read as.
abbrev pub reread : DoubleText → Value → Value
reread fp v = map_doubles (number_value fp) v

abbrev pub reread_items : DoubleText → Items → Items
reread_items fp xs = map_items (number_value fp) xs

abbrev pub reread_members : DoubleText → Members → Members
reread_members fp ms = map_members (number_value fp) ms

module _ (fp : DoubleText) where
  mutual
    unfolding IsPrintable IsPlain

    pub IsPrintable-of_plain : (v : Value) → IsPlain v → IsPrintable fp v
    IsPrintable-of_plain null h = h
    IsPrintable-of_plain (bool b) h = h
    IsPrintable-of_plain (int z) h = h
    IsPrintable-of_plain (double d) h = absurd h
    IsPrintable-of_plain (string s) h = h
    IsPrintable-of_plain (array xs) h = items_printable xs h
    IsPrintable-of_plain (object ms) h = members_printable ms h

    items_printable : (xs : Items) → AllPlain xs → AllPrintable fp xs
    items_printable no_items h = h
    items_printable (item v xs) h = (IsPrintable-of_plain v h.0, items_printable xs h.1)

    members_printable : (ms : Members) → MembersPlain ms → MembersPrintable fp ms
    members_printable no_members h = h
    members_printable (member k v ms) h = (IsPrintable-of_plain v h.0, members_printable ms h.1)
