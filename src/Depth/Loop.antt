-- ===== src/Depth/Loop.antt =====
-- The loop of fastjson_val_depth_reaches in fastjson_decode.c, from any state of its stack.
use native.Mathlib.Numerals.{unary_clauses}
use fastjson.Prelude.{
  ℕ, zero, suc, ◌+◌, ◌-◌, true, false, ◌||◌, none, some, List, [], ◌∷◌, ◌≡◌, refl, ap, ◌∙◌, leb,
  arith, Bool-cases, Option-cases, inl, inr,
}
use fastjson.Doc.{Val, is_ctn}
use fastjson.Depth.{Frame, frame_of, Next, next, depth_loop, rounds, val_depth_reaches}
use fastjson.Depth.Height.{
  height, frame_height, stack_rounds, stack_reaches, Ready, scalar_height, ctn_height, ctn_rounds,
  next-rounds, next-height, done_height, frame_rounds_pos,
}

-- One round of the loop, by cases.
round_scalar :
    (n limit depth : ℕ) (f : Frame) (stack : List Frame) (x : Next)
    → next f ≡ some x
    → is_ctn x.child ≡ false
    → depth_loop (suc n) limit depth f stack ≡ depth_loop n limit depth x.after stack
unfolding depth_loop
round_scalar n limit depth f stack x e h = rw (depth_loop, e, h)

round_deep :
    (n limit depth : ℕ) (f : Frame) (stack : List Frame) (x : Next)
    → next f ≡ some x
    → is_ctn x.child ≡ true
    → leb limit (suc depth) ≡ true
    → depth_loop (suc n) limit depth f stack ≡ true
unfolding depth_loop
round_deep n limit depth f stack x e h l = rw (depth_loop, e, h, l)

round_push :
    (n limit depth : ℕ) (f : Frame) (stack : List Frame) (x : Next)
    → next f ≡ some x
    → is_ctn x.child ≡ true
    → leb limit (suc depth) ≡ false
    → depth_loop (suc n) limit depth f stack
      ≡ depth_loop n limit (suc depth) (frame_of x.child) (x.after ∷ stack)
unfolding depth_loop
round_push n limit depth f stack x e h l = rw (depth_loop, e, h, l)

round_pop :
    (n limit depth : ℕ) (f g : Frame) (stack : List Frame)
    → next f ≡ none
    → depth_loop (suc n) limit depth f (g ∷ stack) ≡ depth_loop n limit (depth - 1) g stack
unfolding depth_loop
round_pop n limit depth f g stack e = rw (depth_loop, e)

round_end :
    (n limit depth : ℕ) (f : Frame) → next f ≡ none → depth_loop (suc n) limit depth f [] ≡ false
unfolding depth_loop
round_end n limit depth f e = rw (depth_loop, e)

stack_reaches_push :
    (limit depth : ℕ) (f : Frame) (fs : List Frame)
    → stack_reaches limit (suc depth) (f ∷ fs)
      ≡ leb limit (depth + frame_height f) || stack_reaches limit depth fs
unfolding stack_reaches
stack_reaches_push limit depth f fs = simp unary_clauses refl

-- The loop reports what is left of the stack, from any state that is not too deep yet.
depth_loop_lem :
    (n limit depth : ℕ) (f : Frame) (stack : List Frame)
    → Ready n limit depth f stack
    → leb limit depth ≡ false
    → depth_loop n limit depth f stack
      ≡ leb limit (depth + frame_height f) || stack_reaches limit depth stack
unfolding stack_rounds stack_reaches Ready
depth_loop_lem zero limit depth f stack r l = let p = frame_rounds_pos f in absurd (ground arith)
depth_loop_lem (suc n) limit depth f stack r l = elim (Option-cases (next f)) [
  | inl e ↦ popped stack r e (λ g gs q. depth_loop_lem n limit (depth - 1) g gs q (ground arith))
  | inr (x, e) ↦ elim (Bool-cases (is_ctn x.child)) [
    | inl c ↦ elim (Bool-cases (leb limit (suc depth))) [
      | inl d ↦ round_deep n limit depth f stack x e c d ∙ deep_value x e c d
      | inr d ↦
          round_push n limit depth f stack x e c d
          ∙ depth_loop_lem n limit (suc depth) (frame_of x.child) (x.after ∷ stack) (pushed x e c) d
          ∙ push_value x e c
    ]
    | inr c ↦
        round_scalar n limit depth f stack x e c
        ∙ depth_loop_lem n limit depth x.after stack (passed x e) l
        ∙ ap (λ h. leb limit (depth + h) || stack_reaches limit depth stack) (pass_value x e c)
  ]
]
  where
    pushed :
        (x : Next)
        → next f ≡ some x
        → is_ctn x.child ≡ true
        → Ready n limit (suc depth) (frame_of x.child) (x.after ∷ stack)
    pushed x e c = let a = next-rounds f x e in let b = ctn_rounds x.child c in omega arith

    passed : (x : Next) → next f ≡ some x → Ready n limit depth x.after stack
    passed x e = let a = next-rounds f x e in omega arith

    pass_value :
        (x : Next)
        → next f ≡ some x
        → is_ctn x.child ≡ false
        → frame_height x.after ≡ frame_height f
    pass_value x e c = let a = next-height f x e in let b = scalar_height x.child c in omega arith

    deep_value :
        (x : Next)
        → next f ≡ some x
        → is_ctn x.child ≡ true
        → leb limit (suc depth) ≡ true
        → true ≡ leb limit (depth + frame_height f) || stack_reaches limit depth stack
    deep_value x e c d = let a = next-height f x e in let b = ctn_height x.child c in ground arith

    push_value :
        (x : Next)
        → next f ≡ some x
        → is_ctn x.child ≡ true
        → leb limit (suc depth + frame_height (frame_of x.child))
            || stack_reaches limit (suc depth) (x.after ∷ stack)
          ≡ leb limit (depth + frame_height f) || stack_reaches limit depth stack
    push_value x e c =
        let a = next-height f x e in
        let b = ctn_height x.child c in
        let s = stack_reaches_push limit depth x.after stack in ground arith

    popped :
        (gs : List Frame)
        → Ready (suc n) limit depth f gs
        → next f ≡ none
        → ((g : Frame) (gs : List Frame)
            → Ready n limit (depth - 1) g gs
            → depth_loop n limit (depth - 1) g gs
              ≡ leb limit (depth - 1 + frame_height g) || stack_reaches limit (depth - 1) gs)
        → depth_loop (suc n) limit depth f gs
          ≡ leb limit (depth + frame_height f) || stack_reaches limit depth gs
    popped [] q e ih =
        let a = done_height f e in let b = round_end n limit depth f e in ground arith
    popped (g ∷ gs) q e ih =
        let a = done_height f e in
        let p = frame_rounds_pos f in
        let b = round_pop n limit depth f g gs e in let i = ih g gs (omega arith) in ground arith

-- The iterative depth check decides how deep a document nests: it reports true exactly where the
-- containers of the value nest `limit` deep or deeper. The loop comes to its end for every value.
pub val_depth_reaches_lem :
    (root : Val) (limit : ℕ) → val_depth_reaches root limit ≡ leb limit (height root)
unfolding val_depth_reaches stack_reaches stack_rounds Ready
val_depth_reaches_lem root limit = elim (Bool-cases (is_ctn root)) [
  | inl c ↦
      let h = ctn_height root c in
      let r = ctn_rounds root c in
      elim (Bool-cases (leb limit 1)) [
        | inl d ↦ ground arith
        | inr d ↦
            let i = depth_loop_lem (rounds root) limit 1 (frame_of root) [] (omega arith) d in
            ground arith
      ]
  | inr c ↦ let h = scalar_height root c in ground arith
]
