-- ===== src/Types/Tests.antt =====
-- Names at concrete inputs.
use contextsnap.Base.{◌≡◌, refl, codes}
use contextsnap.Types.{minimized, edge}
use contextsnap.Types.Names.{window_state_from_string, browser_kind_from_string}

iconic : window_state_from_string (codes "Iconic") ≡ minimized
unfolding window_state_from_string
iconic = refl

edge_alias : browser_kind_from_string (codes "MsEdge") ≡ edge
unfolding browser_kind_from_string
edge_alias = refl
