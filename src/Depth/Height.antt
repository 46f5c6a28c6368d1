-- ===== src/Depth/Height.antt =====
-- How deep the containers of a value nest, for fastjson_val_depth_reaches of fastjson_decode.c, and
-- how deep what is left of an iterator and of its stack nests.
use fastjson.Prelude.{
  ℕ, suc, ◌+◌, ◌-◌, ◌≤◌, max, Bool, true, false, ◌||◌, none, some, List, [], ◌∷◌, ◌≡◌, refl, leb,
  arith,
}
use fastjson.Doc.{
  Val, Items, Members, null, bool, num, str, raw, arr, obj, nil, item, end, member, is_ctn,
}
use fastjson.Depth.{
  Frame, arr_iter, obj_iter, frame_of, Next, next, rounds, item_rounds, member_rounds,
}

-- How deep the containers of a value nest: a scalar 0, a container one more than its children.
unfoldable mutual
  pub height : Val → ℕ
  height (arr xs) = suc (item_height xs)
  height (obj ms) = suc (member_height ms)
  height _ = 0

  pub item_height : Items → ℕ
  item_height nil = 0
  item_height (item v xs) = max (height v) (item_height xs)

  pub member_height : Members → ℕ
  member_height end = 0
  member_height (member k v ms) = max (height v) (member_height ms)

unfoldable pub frame_height : Frame → ℕ
frame_height (arr_iter xs) = item_height xs
frame_height (obj_iter ms) = member_height ms

unfoldable pub frame_rounds : Frame → ℕ
frame_rounds (arr_iter xs) = item_rounds xs
frame_rounds (obj_iter ms) = member_rounds ms

unfoldable pub stack_rounds : List Frame → ℕ
stack_rounds [] = 0
stack_rounds (f ∷ fs) = frame_rounds f + stack_rounds fs

-- A frame under the top one is one container less deep.
unfoldable pub stack_reaches : (limit depth : ℕ) → List Frame → Bool
stack_reaches limit depth [] = false
stack_reaches limit depth (f ∷ fs) =
    leb limit (depth - 1 + frame_height f) || stack_reaches limit (depth - 1) fs

unfoldable pub Ready : ℕ → ℕ → ℕ → Frame → List Frame → Type 0
Ready n limit depth f stack = frame_rounds f + stack_rounds stack ≤ n

pub scalar_height : (v : Val) → is_ctn v ≡ false → height v ≡ 0
unfolding height
scalar_height null h = refl
scalar_height (bool b) h = refl
scalar_height (num x) h = refl
scalar_height (str s) h = refl
scalar_height (raw s) h = refl
scalar_height (arr xs) h = absurd (ground arith)
scalar_height (obj ms) h = absurd (ground arith)

pub ctn_height : (v : Val) → is_ctn v ≡ true → height v ≡ suc (frame_height (frame_of v))
unfolding height frame_height frame_of
ctn_height (arr xs) h = refl
ctn_height (obj ms) h = refl
ctn_height null h = absurd (ground arith)
ctn_height (bool b) h = absurd (ground arith)
ctn_height (num x) h = absurd (ground arith)
ctn_height (str s) h = absurd (ground arith)
ctn_height (raw s) h = absurd (ground arith)

pub ctn_rounds : (v : Val) → is_ctn v ≡ true → rounds v ≡ frame_rounds (frame_of v)
unfolding rounds frame_rounds frame_of
ctn_rounds (arr xs) h = refl
ctn_rounds (obj ms) h = refl
ctn_rounds null h = absurd (ground arith)
ctn_rounds (bool b) h = absurd (ground arith)
ctn_rounds (num x) h = absurd (ground arith)
ctn_rounds (str s) h = absurd (ground arith)
ctn_rounds (raw s) h = absurd (ground arith)

pub next-rounds :
    (f : Frame) (x : Next)
    → next f ≡ some x
    → frame_rounds f ≡ suc (rounds x.child + frame_rounds x.after)
unfolding next frame_rounds item_rounds member_rounds
next-rounds (arr_iter (item v xs)) x h = ground arith
next-rounds (obj_iter (member k v ms)) x h = ground arith
next-rounds (arr_iter nil) x h = absurd (ground arith)
next-rounds (obj_iter end) x h = absurd (ground arith)

pub next-height :
    (f : Frame) (x : Next)
    → next f ≡ some x
    → frame_height f ≡ max (height x.child) (frame_height x.after)
unfolding next frame_height item_height member_height
next-height (arr_iter (item v xs)) x h = ground arith
next-height (obj_iter (member k v ms)) x h = ground arith
next-height (arr_iter nil) x h = absurd (ground arith)
next-height (obj_iter end) x h = absurd (ground arith)

pub done_height : (f : Frame) → next f ≡ none → frame_height f ≡ 0
unfolding next frame_height item_height member_height
done_height (arr_iter nil) h = refl
done_height (obj_iter end) h = refl
done_height (arr_iter (item v xs)) h = absurd (ground arith)
done_height (obj_iter (member k v ms)) h = absurd (ground arith)

pub frame_rounds_pos : (f : Frame) → 1 ≤ frame_rounds f
unfolding frame_rounds item_rounds member_rounds
frame_rounds_pos (arr_iter nil) = omega arith
frame_rounds_pos (arr_iter (item v xs)) = omega arith
frame_rounds_pos (obj_iter end) = omega arith
frame_rounds_pos (obj_iter (member k v ms)) = omega arith
