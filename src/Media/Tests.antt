-- ===== src/Media/Tests.antt =====
-- Runs on a shelf with one product.
use pingu_coin.Base.Int.{pos, negsuc}
use pingu_coin.Base.Store.Keeps.{Keeps}
use pingu_coin.Media.Server.{create_inventory, update_inventory, remove_inventory, adjust_inventory}
use pingu_coin.Media.Covered.{IsCovered, IsCovered-kept}

IsCovered-kept_example :
    Keeps IsCovered (create_inventory 3 (pos 5) (pos 0))
    × Keeps IsCovered (update_inventory 1 3 (pos 5) (pos 0))
    × Keeps IsCovered (remove_inventory 1)
    × Keeps IsCovered (adjust_inventory 3 (negsuc 1) "sale" "k1")
IsCovered-kept_example = IsCovered-kept 1 3 (pos 5) (pos 0) (negsuc 1) "sale" "k1"
