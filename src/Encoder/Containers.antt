-- ===== src/Encoder/Containers.antt =====
-- Containers and properties as dw_emit_array, dw_emit_jsonserializable and dw_emit_object_props of
-- fastjson_directwrite.c write them: what they leave as it was.
use fastjson.Prelude.{ℕ, ◌-◌, Bool, true, false, not, ◌&&◌, ◌||◌, Bytes, codes, if◌then◌else◌, ◌≡◌}
use fastjson.Zval.{Zval, null, reference, Slots, Key}
use fastjson.Encoder.{
  Setting, Ctx, Step, ◌>>◌, done, text, newline_indent, counted, in_slot, stack_test, json_guard,
  is_recursive, error_recursion, protect, unprotect,
}
use fastjson.Encoder.Strings.{emit_object_key}
use fastjson.Encoder.Discard.{discard_slots}
use fastjson.Encoder.Emit.{
  deeper, shallower, or_discard, or_else_discard, separator, bracketed, called, property,
  close_body,
}
use fastjson.Encoder.Balance.{
  Good, Keeps, and_then-Good, then-Keeps, done-Keeps, if-Keeps, if-Good, counted-Keeps,
  stack_test-Keeps, partial_or_fail-Keeps, text-Keeps, newline-Keeps, protected-Good,
}
use fastjson.Encoder.Leaves.{key-Keeps, separator-Keeps}
use fastjson.Encoder.Restores.{discard_slots-Keeps}
use fastjson.Encoder.Bodies.{left, or_discard-Good, bracket-Good, opened-Good}

module _ (q : Bool) (s : Setting) (partial : q ≡ true → s.flags.partial_output ≡ true) where
  pub count : (m : Step) → Keeps q m → Keeps q (counted s m)
  count m h = counted-Keeps q s partial m h

  pub stack : (m : Step) → Keeps q m → Keeps q (stack_test s m)
  stack m h = stack_test-Keeps q s partial m h

  pub in_slot-Keeps : (z : Zval) (m : Step) → Keeps q m → Keeps q (in_slot s z m)
  unfolding in_slot
  in_slot-Keeps (reference z) m h = h
  in_slot-Keeps null m h = count m h
  in_slot-Keeps _ m h = count m h

  pub write : (t : Bytes) → Keeps q (text s t)
  write t = text-Keeps q s partial t

  pub bracketed-Keeps :
      (list inner : Bool) (m : Step) → Keeps q m → Keeps q (bracketed s list inner m)
  unfolding bracketed
  bracketed-Keeps list inner m h =
      then-Keeps q first (body >> line >> last) (write (if list then codes "[" else codes "{")) (
        then-Keeps q body (line >> last)
          (λ c. bracket-Good q inner c (m (deeper inner c)) (h (deeper inner c)))
          (then-Keeps q line last
            (if-Keeps q inner (newline_indent s) done (newline-Keeps q s partial) (done-Keeps q))
            (write (if list then codes "]" else codes "}"))))
    where
      first : Step
      first = text s (if list then codes "[" else codes "{")

      body : Step
      body c = shallower inner (m (deeper inner c))

      line : Step
      line = if inner then newline_indent s else done

      last : Step
      last = text s (if list then codes "]" else codes "}")

  pub called-Keeps : (g : ℕ) (m k : Step) → Keeps q m → Keeps q k → Keeps q (called s g m k)
  unfolding called
  called-Keeps g m k hm hk c =
      if-Good q (is_recursive (json_guard g) c.guards) c _ _
        (partial_or_fail-Keeps q s partial error_recursion (codes "Recursion detected") false c)
        (and_then-Good q c (unprotect (json_guard g) (m (protect (json_guard g) c))) k
          (protected-Good q (json_guard g) m c hm) hk)

  pub element-Keeps : (d m : Step) → Keeps false d → Keeps q m → Keeps q (or_else_discard d m)
  element-Keeps d m hd hm c = or_discard-Good q d c (m c) hd (hm c)

  property-Keeps :
      (k : Key) (rest : Slots) (first : Bool) (r : ℕ) (emit : Step)
      → Keeps q emit
      → Keeps q (
          or_else_discard
            (discard_slots s rest r)
            (separator s first >> emit_object_key s k >> emit))
  property-Keeps k rest first r emit h =
      element-Keeps (discard_slots s rest r) (separator s first >> emit_object_key s k >> emit)
        (discard_slots-Keeps s rest r)
        (then-Keeps q (separator s first) (emit_object_key s k >> emit)
          (separator-Keeps q s partial first)
          (then-Keeps q (emit_object_key s k) emit (key-Keeps q s partial k) h))

  pub property-Good :
      (k : Key) (rest : Slots) (first o : Bool) (r : ℕ) (emit next : Step) (c : Ctx)
      → Keeps q emit
      → ((d : Ctx) → Good q (left (s.flags.pretty_print || o) d) (next d))
      → Good q (left o c) ((property s k rest first o r emit >> next) c)
  unfolding property
  property-Good k rest first o r emit next c h =
      opened-Good q s.flags.pretty_print o c
        (or_discard (discard_slots s rest r) (
          (separator s first >> emit_object_key s k >> emit)
            (deeper (s.flags.pretty_print && not o) c)))
        next (property-Keeps k rest first r emit h (deeper (s.flags.pretty_print && not o) c))

  pub close-Good : (o : Bool) (c : Ctx) → Good q (left o c) (close_body s o c)
  unfolding close_body
  close-Good true c = newline-Keeps q s partial (record c { indent_level = c.indent_level - 1 })
  close-Good false c = done-Keeps q c

  pub hidden-Good :
      (b o : Bool) (c : Ctx) (x y : Step)
      → Good q (left o c) (x c)
      → Good q (left o c) (y c)
      → Good q (left o c) (elim b as (λ _. Step) [ true ↦ x | false ↦ y ] c)
  hidden-Good true o c x y hx hy = hx
  hidden-Good false o c x y hx hy = hy
