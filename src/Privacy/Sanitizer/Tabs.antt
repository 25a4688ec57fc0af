-- ===== src/Privacy/Sanitizer/Tabs.antt =====
-- The tabs of a window after `sanitize_snapshot`: which are left, in which order, and their numbers.
use contextsnap.Base.{
  Bool, Bytes, List, [], ap, arith, filter, get_elem?, length, map, not, refl, some, some_eq, suc,
  sym, zero, ℕ, ◌+◌, ◌<◌, ◌^◌, ◌∙◌, ◌∷◌, ◌≡◌, ◌≤◌, false, if◌then◌else◌, true,
}
use contextsnap.Base.Int.{pos, to_int32}
use contextsnap.Base.Double.{Fpu}
use contextsnap.Types.{TabInfo, WindowInfo}
use contextsnap.Privacy.Rules.{SanitizeResult, Sanitizer}
use contextsnap.Privacy.Sanitizer.{cleaned, kept_tabs, reindex, sanitize_url, sanitize_window}

to_int32-pos : (n : ℕ) → n < 2 ^ 31 → to_int32 (pos n) ≡ pos n
unfolding to_int32
to_int32-pos n h = ground arith

abbrev ids : List TabInfo → List Bytes
ids = map (λ tab. tab.id)

reindex-ids : (i : ℕ) (tabs : List TabInfo) → ids (reindex i tabs) ≡ ids tabs
unfolding reindex
reindex-ids i [] = refl
reindex-ids i (tab ∷ tabs) = ap (λ l. tab.id ∷ l) (reindex-ids (i + 1) tabs)

reindex-index :
    (i k : ℕ) (tabs : List TabInfo) (tab : TabInfo)
    → get_elem? (reindex i tabs) k ≡ some tab
    → tab.index ≡ to_int32 (pos (i + k))
unfolding reindex
reindex-index i k [] tab h = cc
reindex-index i zero (x ∷ tabs) tab h =
    ap TabInfo.index (sym (some_eq h)) ∙ ap (λ n. to_int32 (pos n)) (omega arith)
reindex-index i (suc k) (x ∷ tabs) tab h =
    reindex-index (i + 1) k tabs tab h ∙ ap (λ n. to_int32 (pos n)) (omega arith)

reindex-length :
    (i k : ℕ) (tabs : List TabInfo) (tab : TabInfo)
    → get_elem? (reindex i tabs) k ≡ some tab
    → k < length tabs
unfolding reindex
reindex-length i k [] tab h = cc
reindex-length i zero (x ∷ tabs) tab h = omega arith
reindex-length i (suc k) (x ∷ tabs) tab h = omega (arith, reindex-length (i + 1) k tabs tab h)

zero_plus : (k : ℕ) → 0 + k ≡ k
zero_plus k = omega arith

cleaned-id : (r : SanitizeResult) (tab : TabInfo) → (cleaned r tab).id ≡ tab.id
unfolding cleaned
cleaned-id r tab = ground arith

module _ (fpu : Fpu) (z : Sanitizer) where
  abbrev pub is_kept : TabInfo → Bool
  is_kept tab = not (sanitize_url fpu z tab.url).excluded

  kept_tabs-ids : (tabs : List TabInfo) → ids (kept_tabs fpu z tabs) ≡ ids (filter is_kept tabs)
  unfolding kept_tabs
  kept_tabs-ids [] = refl
  kept_tabs-ids (tab ∷ tabs) = go (sanitize_url fpu z tab.url).excluded (kept_tabs-ids tabs)
    where
      go :
          (b : Bool)
          → ids (kept_tabs fpu z tabs) ≡ ids (filter is_kept tabs)
          → ids (
              if b
              then kept_tabs fpu z tabs
              else cleaned (sanitize_url fpu z tab.url) tab ∷ kept_tabs fpu z tabs)
            ≡ ids (if not b then tab ∷ filter is_kept tabs else filter is_kept tabs)
      go true e = e
      go false e = cc (e, cleaned-id (sanitize_url fpu z tab.url) tab)

  kept_tabs-length : (tabs : List TabInfo) → length (kept_tabs fpu z tabs) ≤ length tabs
  unfolding kept_tabs
  kept_tabs-length [] = omega arith
  kept_tabs-length (tab ∷ tabs) = ground (arith, kept_tabs-length tabs)

  -- In a window of fewer than 2^31 tabs exactly the tabs that `sanitize_url` does not exclude are
  -- left, in the same order, and they are numbered 0, 1, 2 and so on without a gap.
  pub sanitize_window-tabs :
      (w : WindowInfo)
      → length w.tabs < 2 ^ 31
      → (map (λ tab. tab.id) (sanitize_window fpu z w).tabs
          ≡ map (λ tab. tab.id) (filter is_kept w.tabs))
        × ((k : ℕ) (tab : TabInfo)
            → get_elem? (sanitize_window fpu z w).tabs k ≡ some tab
            → tab.index ≡ pos k)
  unfolding sanitize_window
  sanitize_window-tabs w h = (
    reindex-ids 0 (kept_tabs fpu z w.tabs) ∙ kept_tabs-ids w.tabs,
    λ k tab e.
        reindex-index 0 k (kept_tabs fpu z w.tabs) tab e
        ∙ ap (λ n. to_int32 (pos n)) (zero_plus k)
        ∙ to_int32-pos k (
            omega (
              arith,
              h,
              reindex-length 0 k (kept_tabs fpu z w.tabs) tab e,
              kept_tabs-length w.tabs,
            )),
  )
