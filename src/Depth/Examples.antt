-- ===== src/Depth/Examples.antt =====
-- Runs of the depth check of fastjson_decode.c.
use fastjson.Prelude.{true, false, ◌≡◌, refl, leb}
use fastjson.Doc.{Val, null, arr, nil, item}
use fastjson.Depth.{val_depth_reaches}
use fastjson.Depth.Height.{height}
use fastjson.Depth.Loop.{val_depth_reaches_lem}

-- [null, [[]], null]
abbrev nested : Val
nested = arr (item null (item (arr (item (arr nil) nil)) (item null nil)))

nested_reaches : val_depth_reaches nested 3 ≡ true
unfolding val_depth_reaches
nested_reaches = refl

nested_stays : val_depth_reaches nested 4 ≡ false
unfolding val_depth_reaches
nested_stays = refl

val_depth_reaches_lem_example : val_depth_reaches nested 3 ≡ leb 3 (height nested)
val_depth_reaches_lem_example = val_depth_reaches_lem nested 3
