-- ===== src/Encoder/Balance.antt =====
-- What a step of the encoder of fastjson_directwrite.c leaves as it was, and why it may stop when
-- partial output is asked for.
use fastjson.Prelude.{
  ℕ, ◌+◌, Bool, true, false, not, ◌&&◌, Option, none, some, List, ◌∷◌, Bytes, codes, ◌==◌, ◌≡◌, ◌⊎◌,
  inl, inr, refl, ap, ◌∙◌, arith, leb, if◌then◌else◌, ==_iff,
}
use fastjson.StringWriter.{Buf, append}
use fastjson.Errors.{error_state_set, error_unsupported_type, error_depth}
use fastjson.Zval.{Effect}
use fastjson.Encoder.{
  Setting, Ctx, Step, and_then, ◌>>◌, done, stop, modify, set_error, fail_too_large, text,
  newline_indent, partial_or_fail, counted, guarded, stack_test, depth_test, userland, threw, Guard,
  table_guard, json_guard, guard_eq, is_recursive, removed, protect, unprotect, leave_call,
  too_deep, error_recursion,
}

-- The counts and the recursion marks are as before.
abbrev pub Same : Ctx → Ctx → Type 0
Same c d = (d.call_depth ≡ c.call_depth) × (d.indent_level ≡ c.indent_level) × (d.guards ≡ c.guards)

-- An exception is pending, or the last error is that the output is too large.
abbrev pub Excused : Ctx → Type 0
Excused c =
    (c.exception ≡ true)
    ⊎ (c.error
        ≡ error_state_set error_unsupported_type (some (codes "Encoded JSON string is too large")))

-- With `q`, the step makes no hard error, and an excuse where it stops.
abbrev pub Good : Bool → Ctx → Bool × Ctx → Type 0
Good q c (b, d) =
    Same c d
    × ((q ≡ true) → c.hard_error ≡ false → (d.hard_error ≡ false) × ((b ≡ false) → Excused d))

abbrev pub Keeps : Bool → Step → Type 0
Keeps q m = (c : Ctx) → Good q c (m c)

guard_eq_self : (g : Guard) → guard_eq g g ≡ true
guard_eq_self (table_guard a) = (==_iff a a).1 refl
guard_eq_self (json_guard a) = (==_iff a a).1 refl

pub removed_head : (g : Guard) (gs : List Guard) → removed g (g ∷ gs) ≡ gs
unfolding removed
removed_head g gs = rw (guard_eq_self g) refl

module _ (q : Bool) where
  pub Good-trans : (c d : Ctx) (r : Bool × Ctx) → Good q c (true, d) → Good q d r → Good q c r
  Good-trans c d (b, e) ((a1, a2, a3), h) ((b1, b2, b3), k) =
      ((b1 ∙ a1, b2 ∙ a2, b3 ∙ a3), λ p z. k p (h p z).0)

  pub and_then-Good :
      (c : Ctx) (r : Bool × Ctx) (k : Step) → Good q c r → Keeps q k → Good q c (and_then r k)
  and_then-Good c (true, d) k h hk = Good-trans c d (k d) h (hk d)
  and_then-Good c (false, d) k h hk = h

  pub then-Keeps : (m k : Step) → Keeps q m → Keeps q k → Keeps q (m >> k)
  then-Keeps m k hm hk c = and_then-Good c (m c) k (hm c) hk

  pub done-Keeps : Keeps q done
  done-Keeps c = ((refl, refl, refl), λ p z. (z, λ e. absurd (cc e)))

  pub modify-Keeps : (f : Buf → Buf) → Keeps q (modify f)
  modify-Keeps f c = ((refl, refl, refl), λ p z. (z, λ e. absurd (cc e)))

  pub set_error-Keeps : (code : ℕ) (msg : Bytes) → Keeps q (set_error code msg)
  unfolding set_error
  set_error-Keeps code msg c = ((refl, refl, refl), λ p z. (z, λ e. absurd (cc e)))

  pub userland-Keeps : (e : Effect) → Keeps q (userland e)
  userland-Keeps e c = ((refl, refl, refl), λ p z. (z, λ b. absurd (cc b)))

  pub threw-Keeps : Keeps q threw
  threw-Keeps c = ((refl, refl, refl), λ p z. (z, λ b. inl refl))

  pub too_large-Keeps : Keeps q fail_too_large
  unfolding fail_too_large set_error
  too_large-Keeps c = ((refl, refl, refl), λ p z. (z, λ b. inr refl))

  pub if-Keeps : (b : Bool) (m k : Step) → Keeps q m → Keeps q k → Keeps q (if b then m else k)
  if-Keeps true m k hm hk = hm
  if-Keeps false m k hm hk = hk

  pub if-Good :
      (b : Bool) (c : Ctx) (x y : Bool × Ctx)
      → Good q c x
      → Good q c y
      → Good q c (if b then x else y)
  if-Good true c x y hx hy = hx
  if-Good false c x y hx hy = hy

  unprotect-Good :
      (g : Guard) (c : Ctx) (r : Bool × Ctx) → Good q (protect g c) r → Good q c (unprotect g r)
  unprotect-Good g c (b, d) ((h1, h2, h3), h) =
      ((h1, h2, ap (removed g) h3 ∙ removed_head g c.guards), h)

  pub protected-Good :
      (g : Guard) (m : Step) (c : Ctx) → Keeps q m → Good q c (unprotect g (m (protect g c)))
  protected-Good g m c h = unprotect-Good g c (m (protect g c)) (h (protect g c))

  leave-Good :
      (c : Ctx) (r : Bool × Ctx)
      → Good q (record c { call_depth = c.call_depth + 1 }) r
      → Good q c (leave_call r)
  leave-Good c (b, d) ((h1, h2, h3), h) = ((omega (arith, h1), h2, h3), h)

  module _ (s : Setting) (partial : q ≡ true → s.flags.partial_output ≡ true) where
    -- A step that goes on where partial output is asked for may stop elsewhere.
    pub partial-Keeps :
        (p : Bool) (m k : Step)
        → ((q ≡ true) → p ≡ true)
        → Keeps q m
        → ((c : Ctx) → Same c (k c).1)
        → Keeps q (if p then m else k)
    partial-Keeps true m k hp hm hk = hm
    partial-Keeps false m k hp hm hk = λ c. (hk c, λ e z. absurd (cc (hp e)))

    pub text-Keeps : (t : Bytes) → Keeps q (text s t)
    unfolding text
    text-Keeps t = modify-Keeps (append s.env t)

    pub newline-Keeps : Keeps q (newline_indent s)
    unfolding newline_indent
    newline-Keeps c = ((refl, refl, refl), λ p z. (z, λ e. absurd (cc e)))

    pub partial_or_fail-Keeps :
        (code : ℕ) (msg : Bytes) (zero : Bool) → Keeps q (partial_or_fail s code msg zero)
    unfolding partial_or_fail
    partial_or_fail-Keeps code msg zero =
        then-Keeps (set_error code msg)
          (if s.flags.partial_output
            then text s (if zero then codes "0" else codes "null")
            else stop)
          (set_error-Keeps code msg)
          (partial-Keeps s.flags.partial_output (text s (if zero then codes "0" else codes "null"))
            stop partial (text-Keeps (if zero then codes "0" else codes "null"))
            (λ c. (refl, refl, refl)))

    depth-Keeps : Keeps q (partial_or_fail s error_depth too_deep false)
    depth-Keeps = partial_or_fail-Keeps error_depth too_deep false

    pub counted-Keeps : (m : Step) → Keeps q m → Keeps q (counted s m)
    unfolding counted
    counted-Keeps m h c =
        if-Good (not s.has_native_stack_limit && leb 1024 c.call_depth) c _ _ (depth-Keeps c) (
          leave-Good c (m (record c { call_depth = c.call_depth + 1 }))
            (h (record c { call_depth = c.call_depth + 1 })))

    pub stack_test-Keeps : (m : Step) → Keeps q m → Keeps q (stack_test s m)
    unfolding stack_test
    stack_test-Keeps m h c = if-Good (s.overflowed c.call_depth) c _ _ (depth-Keeps c) (h c)

    pub depth_test-Keeps : (r : ℕ) (m : Step) → Keeps q m → Keeps q (depth_test s r m)
    unfolding depth_test
    depth_test-Keeps r m h c = if-Good (r == 0) c _ _ (depth-Keeps c) (h c)

    pub guarded-Keeps : (g : Option Guard) (m : Step) → Keeps q m → Keeps q (guarded s g m)
    unfolding guarded
    guarded-Keeps none m h c = h c
    guarded-Keeps (some g) m h c =
        if-Good (is_recursive g c.guards) c _ _
          (partial_or_fail-Keeps error_recursion (codes "Recursion detected") false c)
          (protected-Good g m c h)
