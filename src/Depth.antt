-- ===== src/Depth.antt =====
-- fastjson_val_depth_reaches of fastjson_decode.c: whether the containers of a document nest
-- `limit` deep, counted with an explicit stack of iterators.
pub mod Height
pub mod Loop
mod Examples
use fastjson.Prelude.{
  ℕ, zero, suc, ◌+◌, ◌-◌, Bool, true, false, Option, none, some, List, [], ◌∷◌, leb, if◌then◌else◌,
  ◌==◌, ◌||◌, not,
}
use fastjson.Doc.{
  Val, Items, Members, null, bool, num, str, raw, arr, obj, nil, item, end, member, is_ctn,
}

-- fj_depth_frame: the iterator of a container.
pub data Frame : Type 0 where
  arr_iter : Items → Frame
  obj_iter : Members → Frame

-- yyjson_arr_iter_init and yyjson_obj_iter_init
unfoldable pub frame_of : Val → Frame
frame_of (arr xs) = arr_iter xs
frame_of (obj ms) = obj_iter ms
frame_of _ = arr_iter nil

-- What an iterator gives: a child, and the iterator after it.
pub record Next : Type 0 where
  pub child : Val
  pub after : Frame

-- yyjson_arr_iter_next and yyjson_obj_iter_next
unfoldable pub next : Frame → Option Next
next (arr_iter nil) = none
next (arr_iter (item v xs)) = some (record { child = v; after = arr_iter xs })
next (obj_iter end) = none
next (obj_iter (member k v ms)) = some (record { child = v; after = obj_iter ms })

-- The while loop: `f` is the top of the stack, `stack` what lies under it.
unfoldable pub depth_loop : ℕ → (limit depth : ℕ) → Frame → List Frame → Bool
depth_loop zero limit depth f stack = false
depth_loop (suc n) limit depth f stack = elim (next f) [
  | none ↦ elim stack [ [] ↦ false | g ∷ rest ↦ depth_loop n limit (depth - 1) g rest ]
  | some x ↦ elim (is_ctn x.child) [
    | false ↦ depth_loop n limit depth x.after stack
    | true ↦ elim (leb limit (suc depth)) [
      | true ↦ true
      | false ↦ depth_loop n limit (suc depth) (frame_of x.child) (x.after ∷ stack)
    ]
  ]
]

-- The rounds that the values under a container take: one for each, and one for each end.
unfoldable mutual
  pub rounds : Val → ℕ
  rounds (arr xs) = item_rounds xs
  rounds (obj ms) = member_rounds ms
  rounds _ = 0

  pub item_rounds : Items → ℕ
  item_rounds nil = 1
  item_rounds (item v xs) = suc (rounds v + item_rounds xs)

  pub member_rounds : Members → ℕ
  member_rounds end = 1
  member_rounds (member k v ms) = suc (rounds v + member_rounds ms)

unfoldable pub val_depth_reaches : Val → ℕ → Bool
unfolding depth_loop rounds item_rounds member_rounds frame_of next
val_depth_reaches root limit =
    if limit == 0
    then true
    else if not (is_ctn root)
    then false
    else if limit == 1
    then true
    else depth_loop (rounds root) limit 1 (frame_of root) []
