-- ===== src/Encoder/Clean.antt =====
-- The steps that the functions of fastjson_directwrite.c are made of, and the recorded error where
-- partial output is not asked for.
use fastjson.Prelude.{
  ℕ, ◌+◌, ◌-◌, Bool, true, false, not, ◌&&◌, ◌||◌, Option, none, some, Bytes, codes, leb, ◌==◌, ◌≡◌,
  refl, ◌∙◌, inr, ap, sym, if◌then◌else◌,
}
use fastjson.Errors.{error_depth}
use fastjson.Zval.{Zval, null, reference}
use fastjson.Encoder.{
  Setting, Ctx, Step, and_then, ◌>>◌, done, set_error, text, newline_indent, partial_or_fail,
  counted, in_slot, guarded, stack_test, depth_test, Guard, json_guard, is_recursive, protect,
  unprotect, leave_call, too_deep, error_recursion,
}
use fastjson.Encoder.Marks.{Marked, Marks}
use fastjson.Encoder.Emit.{
  deeper, shallower, shallower_on_stop, or_discard, or_else_discard, discarded, bracketed, called,
  opened, close_body,
}

-- Where the step went on, the recorded error and the hard error are as before; where it stopped, an
-- exception is pending or an error is recorded.
abbrev pub Clean : Ctx → Bool × Ctx → Type 0
Clean c (b, d) =
    ((b ≡ true) → (d.error ≡ c.error) × (d.hard_error ≡ c.hard_error)) × ((b ≡ false) → Marked d)

abbrev pub Cleans : Step → Type 0
Cleans m = (c : Ctx) → Clean c (m c)

pub stopped-Clean : (c d : Ctx) → Marked d → Clean c (false, d)
stopped-Clean c d h = (λ e. absurd (cc e), λ e. h)

pub done-Cleans : Cleans done
done-Cleans c = (λ e. (refl, refl), λ e. absurd (cc e))

pub Clean-trans :
    (c d : Ctx) (r : Bool × Ctx)
    → (d.error ≡ c.error) × (d.hard_error ≡ c.hard_error)
    → Clean d r
    → Clean c r
Clean-trans c d (b, e) (p, q) (h, k) = (λ z. ((h z).0 ∙ p, (h z).1 ∙ q), k)

pub and_then-Clean :
    (c : Ctx) (r : Bool × Ctx) (k : Step) → Clean c r → Cleans k → Clean c (and_then r k)
and_then-Clean c (true, d) k h hk = Clean-trans c d (k d) (h.0 refl) (hk d)
and_then-Clean c (false, d) k h hk = h

pub then-Cleans : (m k : Step) → Cleans m → Cleans k → Cleans (m >> k)
then-Cleans m k hm hk c = and_then-Clean c (m c) k (hm c) hk

pub if-Cleans : (b : Bool) (m k : Step) → Cleans m → Cleans k → Cleans (if b then m else k)
if-Cleans true m k hm hk = hm
if-Cleans false m k hm hk = hk

pub if-Clean :
    (b : Bool) (c : Ctx) (x y : Bool × Ctx) → Clean c x → Clean c y → Clean c (if b then x else y)
if-Clean true c x y hx hy = hx
if-Clean false c x y hx hy = hy

or_discard-Clean :
    (m : Step) (c : Ctx) (r : Bool × Ctx) → Marks m → Clean c r → Clean c (or_discard m r)
or_discard-Clean m c (true, d) hm h = h
or_discard-Clean m c (false, d) hm h =
    choose (d.hard_error && not d.discard_aborted) (m d) (hm d (h.1 refl))
  where
    choose :
        (b : Bool) (r : Bool × Ctx) → Marked r.1 → Clean c (if b then discarded r else (false, d))
    choose true (true, e) k = stopped-Clean c e k
    choose true (false, e) k = stopped-Clean c (record e { discard_aborted = true }) k
    choose false r k = h

pub or_else_discard-Cleans : (d m : Step) → Marks d → Cleans m → Cleans (or_else_discard d m)
or_else_discard-Cleans d m hd h c = or_discard-Clean d c (m c) hd (h c)

unprotect-Clean :
    (g : Guard) (c : Ctx) (r : Bool × Ctx) → Clean (protect g c) r → Clean c (unprotect g r)
unprotect-Clean g c (b, d) h = h

leave-Clean :
    (c : Ctx) (r : Bool × Ctx)
    → Clean (record c { call_depth = c.call_depth + 1 }) r
    → Clean c (leave_call r)
leave-Clean c (b, d) h = h

-- One level further in, and out again.
shallower-Clean :
    (o : Bool) (m : Step) (c : Ctx) → Cleans m → Clean c (shallower o (m (deeper o c)))
shallower-Clean true m c h = h (record c { indent_level = c.indent_level + 1 })
shallower-Clean false m c h = h c

pub on_stop-Clean :
    (o : Bool) (c : Ctx) (r : Bool × Ctx) → Clean c r → Clean c (shallower_on_stop o r)
on_stop-Clean o c (true, d) h = h
on_stop-Clean true c (false, d) h =
    stopped-Clean c (record d { indent_level = d.indent_level - 1 }) (h.1 refl)
on_stop-Clean false c (false, d) h = h

pub opened-Cleans : (s : Setting) (o : Bool) (m : Step) → Cleans m → Cleans (opened s o m)
opened-Cleans s o m h c =
    on_stop-Clean (s.flags.pretty_print || o) c (m (deeper inner c)) (under inner)
  where
    inner : Bool
    inner = s.flags.pretty_print && not o

    under : (b : Bool) → Clean c (m (deeper b c))
    under true = h (record c { indent_level = c.indent_level + 1 })
    under false = h c

module _ (s : Setting) (strict : s.flags.partial_output ≡ false) where
  -- An error is recorded where the step stops.
  pub erring-Cleans :
      (code : ℕ) (msg : Bytes) (m : Step) (last : Ctx → Ctx)
      → ¬ (code ≡ 0)
      → ((d : Ctx) → (last d).error ≡ d.error)
      → Cleans
          (set_error code msg >> (if s.flags.partial_output then m else (λ d. (false, last d))))
  unfolding set_error
  erring-Cleans code msg m last h k c =
      choose s.flags.partial_output strict ((set_error code msg c).1) refl
    where
      choose :
          (p : Bool)
          → p ≡ false
          → (d : Ctx) → d.error.code ≡ code
          → Clean c ((if p then m else (λ d. (false, last d))) d)
      choose true e d x = absurd (cc e)
      choose false e d x =
          stopped-Clean c (last d) (inr (λ z. h (sym x ∙ sym (ap (λ y. y.code) (k d)) ∙ z)))

  pub partial_or_fail-Cleans :
      (code : ℕ) (msg : Bytes) (zero : Bool)
      → ¬ (code ≡ 0)
      → Cleans (partial_or_fail s code msg zero)
  unfolding partial_or_fail
  partial_or_fail-Cleans code msg zero h =
      erring-Cleans code msg (text s (if zero then codes "0" else codes "null")) (λ d. d) h
        (λ d. refl)

  pub text-Cleans : (t : Bytes) → Cleans (text s t)
  unfolding text
  text-Cleans t c = (λ e. (refl, refl), λ e. absurd (cc e))

  pub line-Cleans : Cleans (newline_indent s)
  unfolding newline_indent
  line-Cleans c = (λ e. (refl, refl), λ e. absurd (cc e))

  depth-Cleans : Cleans (partial_or_fail s error_depth too_deep false)
  depth-Cleans = partial_or_fail-Cleans error_depth too_deep false (λ e. cc e)

  pub counted-Cleans : (m : Step) → Cleans m → Cleans (counted s m)
  unfolding counted
  counted-Cleans m h c =
      if-Clean (not s.has_native_stack_limit && leb 1024 c.call_depth) c _ _ (depth-Cleans c) (
        leave-Clean c (m (record c { call_depth = c.call_depth + 1 }))
          (h (record c { call_depth = c.call_depth + 1 })))

  pub stacked-Cleans : (m : Step) → Cleans m → Cleans (stack_test s m)
  unfolding stack_test
  stacked-Cleans m h c = if-Clean (s.overflowed c.call_depth) c _ _ (depth-Cleans c) (h c)

  pub in_slot-Cleans : (z : Zval) (m : Step) → Cleans m → Cleans (in_slot s z m)
  unfolding in_slot
  in_slot-Cleans (reference z) m h = h
  in_slot-Cleans null m h = counted-Cleans m h
  in_slot-Cleans _ m h = counted-Cleans m h

  pub depth_test-Cleans : (r : ℕ) (m : Step) → Cleans m → Cleans (depth_test s r m)
  unfolding depth_test
  depth_test-Cleans r m h c = if-Clean (r == 0) c _ _ (depth-Cleans c) (h c)

  pub guarded-Cleans : (g : Option Guard) (m : Step) → Cleans m → Cleans (guarded s g m)
  unfolding guarded
  guarded-Cleans none m h c = h c
  guarded-Cleans (some g) m h c =
      if-Clean (is_recursive g c.guards) c _ _
        (partial_or_fail-Cleans error_recursion (codes "Recursion detected") false (λ e. cc e) c)
        (unprotect-Clean g c (m (protect g c)) (h (protect g c)))

  pub called-Cleans : (g : ℕ) (m k : Step) → Cleans m → Cleans k → Cleans (called s g m k)
  unfolding called
  called-Cleans g m k hm hk c =
      if-Clean (is_recursive (json_guard g) c.guards) c _ _
        (partial_or_fail-Cleans error_recursion (codes "Recursion detected") false (λ e. cc e) c)
        (and_then-Clean c (unprotect (json_guard g) (m (protect (json_guard g) c))) k
          (unprotect-Clean (json_guard g) c (m (protect (json_guard g) c))
            (hm (protect (json_guard g) c)))
          hk)

  pub bracketed-Cleans :
      (list inner : Bool) (m : Step) → Cleans m → Cleans (bracketed s list inner m)
  unfolding bracketed
  bracketed-Cleans list inner m h =
      then-Cleans (text s (if list then codes "[" else codes "{")) (body >> line >> last)
        (text-Cleans (if list then codes "[" else codes "{"))
        (then-Cleans body (line >> last) (λ c. shallower-Clean inner m c h)
          (then-Cleans line last (if-Cleans inner (newline_indent s) done line-Cleans done-Cleans)
            (text-Cleans (if list then codes "]" else codes "}"))))
    where
      body : Step
      body c = shallower inner (m (deeper inner c))

      line : Step
      line = if inner then newline_indent s else done

      last : Step
      last = text s (if list then codes "]" else codes "}")

  pub close-Cleans : (o : Bool) → Cleans (close_body s o)
  unfolding close_body
  close-Cleans true c = line-Cleans (record c { indent_level = c.indent_level - 1 })
  close-Cleans false c = done-Cleans c
