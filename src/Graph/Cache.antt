-- ===== src/Graph/Cache.antt =====
-- The cache of the validated layers: asking again changes nothing.
use puc.Base.{◌≡◌, true, reverse, arith}
use puc.Graph.{Graph, is_ok, forward_layers, reverse_layers, validate_locked}

module _ {N : Type 0} (g : Graph N) where
  -- After a query that succeeded, the reverse layers are the forward layers reversed.
  pub reverse_layers-forward_layers :
      is_ok (forward_layers g).0 ≡ true
      → (reverse_layers (forward_layers g).2).1 ≡ reverse (forward_layers g).1
  unfolding forward_layers reverse_layers validate_locked
  reverse_layers-forward_layers h = ground arith
