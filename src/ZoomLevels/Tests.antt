-- ===== src/ZoomLevels/Tests.antt =====
-- A set of zoom levels.
use libgeodesk.Common.{◌≡◌, refl, true}
use libgeodesk.ZoomLevels.{add, is_valid_zoom_level}

-- `ZoomLevels::DEFAULT`, and level 5.
default_five : is_valid_zoom_level (add 0x1555 5) 5 ≡ true
unfolding add is_valid_zoom_level
default_five = refl
