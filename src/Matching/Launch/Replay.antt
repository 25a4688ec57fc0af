-- ===== src/Matching/Launch/Replay.antt =====
-- What a launch command holds: the program, no argument that must not be replayed, and a new window
-- for a browser.
use contextsnap.Base.{
  Bool, Bytes, List, [], any, ap, bytes_eq, codes, false, filter, if◌then◌else◌, is_empty, not,
  refl, true, ◌&&◌, ◌++◌, ◌||◌, ◌∙◌, ◌∷◌, ◌≡◌,
}
use contextsnap.Types.{PlatformKind, ProcessInfo}
use contextsnap.Matching.Launch.{
  build_launch_command, is_mac, is_one_shot, launcher, new_window, opens_browser, program_of,
  with_window,
}

any-append {ℓ} :
    {A : Type ℓ} (p : A → Bool) (xs ys : List A) → any p (xs ++ ys) ≡ (any p xs || any p ys)
any-append p [] ys = refl
any-append p (x ∷ xs) ys = rw (any-append p xs ys) (assoc (p x) (any p xs) (any p ys))
  where
    assoc : (a b c : Bool) → (a || (b || c)) ≡ (a || b || c)
    assoc true b c = refl
    assoc false b c = refl

or_false-false : (a b : Bool) → a ≡ false → b ≡ false → (a || b) ≡ false
or_false-false a b h k = ap (λ x. x || b) h ∙ k

filter-none {ℓ} :
    {A : Type ℓ} (p : A → Bool) (xs : List A) → any p (filter (λ x. not (p x)) xs) ≡ false
filter-none p [] = refl
filter-none p (x ∷ xs) = go (p x) refl (filter-none p xs)
  where
    go :
        (b : Bool)
        → p x ≡ b
        → any p (filter (λ x. not (p x)) xs) ≡ false
        → any p (if not b then x ∷ filter (λ x. not (p x)) xs else filter (λ x. not (p x)) xs)
          ≡ false
    go true e k = k
    go false e k = rw e k

-- The command before a browser's new window.
abbrev replayed : ProcessInfo → PlatformKind → List Bytes
replayed p platform = launcher p platform ++ filter (λ a. not (is_one_shot a)) p.command_line

launcher-plain :
    (p : ProcessInfo) (platform : PlatformKind)
    → is_one_shot (program_of p) ≡ false
    → any is_one_shot (launcher p platform) ≡ false
unfolding launcher
launcher-plain p platform h =
    go (is_mac platform) (not (is_empty p.command_line) || opens_browser p)
  where
    go :
        (mac arguments : Bool)
        → any is_one_shot (
            if mac
            then codes "open"
              ∷ codes "-na"
              ∷ program_of p
              ∷ (if arguments then codes "--args" ∷ [] else [])
            else program_of p ∷ [])
          ≡ false
    go true true = rw h refl
    go true false = rw h refl
    go false arguments = rw h refl

with_window-plain :
    (browser : Bool) (command : List Bytes)
    → any is_one_shot command ≡ false
    → any is_one_shot (with_window browser command) ≡ false
with_window-plain false command h = h
with_window-plain true command h = go (any (bytes_eq new_window) command)
  where
    go : (b : Bool) → any is_one_shot (if b then command else command ++ new_window ∷ []) ≡ false
    go true = h
    go false =
        any-append is_one_shot command (new_window ∷ [])
        ∙ or_false-false (any is_one_shot command) false h refl

with_window-opens :
    (command : List Bytes) → any (bytes_eq new_window) (with_window true command) ≡ true
with_window-opens command = go (any (bytes_eq new_window) command) refl
  where
    or_true : (a : Bool) → (a || true) ≡ true
    or_true true = refl
    or_true false = refl

    go :
        (b : Bool)
        → any (bytes_eq new_window) command ≡ b
        → any (bytes_eq new_window) (if b then command else command ++ new_window ∷ []) ≡ true
    go true e = e
    go false e =
        any-append (bytes_eq new_window) command (new_window ∷ [])
        ∙ or_true (any (bytes_eq new_window) command)

-- The command of a process whose program or application id is known holds no argument that must
-- not be replayed, unless the program itself looks like one, and asks a browser for a new window.
pub build_launch_command-replays :
    (p : ProcessInfo) (platform : PlatformKind)
    → (is_empty p.executable_path && is_empty p.app_id) ≡ false
    → is_one_shot (program_of p) ≡ false
    → (any is_one_shot (build_launch_command p platform) ≡ false)
      × (opens_browser p ≡ true
          → any (bytes_eq new_window) (build_launch_command p platform) ≡ true)
unfolding build_launch_command
build_launch_command-replays p platform h k = go (is_empty p.executable_path && is_empty p.app_id) h
  where
    go :
        (b : Bool)
        → b ≡ false
        → (any is_one_shot (if b then [] else with_window (opens_browser p) (replayed p platform))
            ≡ false)
          × (opens_browser p ≡ true
              → any
                  (bytes_eq new_window)
                  (if b then [] else with_window (opens_browser p) (replayed p platform))
                ≡ true)
    go true e = cc
    go false e = (
      with_window-plain (opens_browser p) (replayed p platform) (
          any-append is_one_shot (launcher p platform)
            (filter (λ a. not (is_one_shot a)) p.command_line)
          ∙ or_false-false (any is_one_shot (launcher p platform))
              (any is_one_shot (filter (λ a. not (is_one_shot a)) p.command_line))
              (launcher-plain p platform k) (filter-none is_one_shot p.command_line)),
      λ o.
          ap (λ b. any (bytes_eq new_window) (with_window b (replayed p platform))) o
          ∙ with_window-opens (replayed p platform),
    )
