-- ===== src/Types/Lookup.antt =====
-- What `find_window` returns: the first window of that id.
use contextsnap.Base.{Bytes, some, List, [], ◌∷◌, ◌≡◌, eq_of_bytes_eq, arith}
use contextsnap.Types.{WindowInfo, find_window_in}

pub find_window_in-id :
    (ws : List WindowInfo) (i : Bytes) (w : WindowInfo) → find_window_in ws i ≡ some w → w.id ≡ i
unfolding find_window_in
find_window_in-id [] i w h = cc
find_window_in-id (v ∷ ws) i w h = ground (arith, eq_of_bytes_eq v.id i, find_window_in-id ws i w)
