-- ===== src/Privacy/Glob/Tests.antt =====
-- The matcher on concrete patterns.
use contextsnap.Base.{codes, false, refl, to_lower, true, ◌≡◌, [], none, some, any, ◌==◌, ◌⊎◌}
use contextsnap.Privacy.Glob.{glob_loop, glob_match, only_stars, glob_fuel}
use contextsnap.Privacy.Glob.Spec.{matches}
use contextsnap.Privacy.Glob.Correct.{glob_match-eq-matches, glob_match_star_text}

glob_match-eq-matches_example :
    (glob_loop (glob_fuel 9 10) (codes "*.zoom.us") (codes "us.Zoom.us") none
      ≡ some (glob_match (codes "*.zoom.us") (codes "us.Zoom.us")))
    × ((any (λ a. a == b'*') (codes "us.Zoom.us") ≡ true)
        ⊎ (glob_match (codes "*.zoom.us") (codes "us.Zoom.us")
            ≡ matches (codes "*.zoom.us") (codes "us.Zoom.us")))
glob_match-eq-matches_example = glob_match-eq-matches (codes "*.zoom.us") (codes "us.Zoom.us")

-- A literal part that fails first and fits at a later place.
matched_later : glob_match (codes "*ab?") (codes "aabx") ≡ true
unfolding glob_match glob_loop to_lower only_stars
matched_later = refl

too_short : glob_match (codes "a?") (codes "a") ≡ false
unfolding glob_match glob_loop to_lower only_stars
too_short = refl

-- A star of the text is met by the test for equal characters, before the one for a star.
star_in_text : glob_match (codes "*") (codes "*a") ≡ false
unfolding glob_match glob_loop to_lower only_stars
star_in_text = refl

glob_match_star_text_example :
    (glob_match (codes "*") (codes "*a") ≡ false) × (matches (codes "*") (codes "*a") ≡ true)
glob_match_star_text_example = glob_match_star_text b'a' []
