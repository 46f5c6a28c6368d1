-- ===== src/Encoder/Bodies.antt =====
-- The bodies of containers in fastjson_directwrite.c: the indentation, the discard of what follows an
-- element that stopped, and the properties of an object. What they leave as it was.
use fastjson.Prelude.{
  ◌-◌, Bool, true, false, not, ◌&&◌, ◌||◌, if◌then◌else◌, ◌≡◌, refl, ◌∙◌, arith, inl,
}
use fastjson.Zval.{Effect}
use fastjson.Encoder.{Setting, Ctx, Step, and_then, ◌>>◌, userland}
use fastjson.Encoder.Emit.{deeper, shallower, shallower_on_stop, discarded, or_discard, hook_failed}
use fastjson.Encoder.Balance.{Good, Keeps}

-- The context outside an object's body.
abbrev pub left : Bool → Ctx → Ctx
left true c = record c { indent_level = c.indent_level - 1 }
left false c = c

module _ (q : Bool) where
  discarded-Good :
      (c d : Ctx) (r : Bool × Ctx)
      → Good q c (false, d)
      → (q ≡ true → c.hard_error ≡ false → d.hard_error ≡ true)
      → Good false d r
      → Good q c (discarded r)
  discarded-Good c d (true, e) ((a1, a2, a3), h) x ((b1, b2, b3), k) =
      ((b1 ∙ a1, b2 ∙ a2, b3 ∙ a3), λ p z. absurd (cc (x p z, (h p z).0)))
  discarded-Good c d (false, e) ((a1, a2, a3), h) x ((b1, b2, b3), k) =
      ((b1 ∙ a1, b2 ∙ a2, b3 ∙ a3), λ p z. absurd (cc (x p z, (h p z).0)))

  pub or_discard-Good :
      (d : Step) (c : Ctx) (r : Bool × Ctx) → Keeps false d → Good q c r → Good q c (or_discard d r)
  or_discard-Good d c (true, e) hd h = h
  or_discard-Good d c (false, e) hd h = choose (e.hard_error && not e.discard_aborted) refl
    where
      choose :
          (b : Bool)
          → e.hard_error && not e.discard_aborted ≡ b
          → Good q c (if b then discarded (d e) else (false, e))
      choose true p = discarded-Good c e (d e) h (λ _ _. ground arith) (hd e)
      choose false p = h

  pub bracket-Good :
      (b : Bool) (c : Ctx) (r : Bool × Ctx) → Good q (deeper b c) r → Good q c (shallower b r)
  bracket-Good true c (b, d) ((a1, a2, a3), h) = ((a1, omega (arith, a2), a3), h)
  bracket-Good false c (b, d) h = h

  after_stop :
      (p o : Bool) (c d : Ctx)
      → Good q (deeper (p && not o) c) (false, d)
      → Good q (left o c) (shallower (p || o) (false, d))
  after_stop true true c d ((a1, a2, a3), h) = ((a1, omega (arith, a2), a3), h)
  after_stop true false c d ((a1, a2, a3), h) = ((a1, omega (arith, a2), a3), h)
  after_stop false true c d ((a1, a2, a3), h) = ((a1, omega (arith, a2), a3), h)
  after_stop false false c d h = h

  after_go :
      (p o : Bool) (c d : Ctx) (r : Bool × Ctx)
      → Good q (deeper (p && not o) c) (true, d)
      → Good q (left (p || o) d) r
      → Good q (left o c) r
  after_go true true c d (b, e) ((a1, a2, a3), h) ((b1, b2, b3), k) =
      ((b1 ∙ a1, omega (arith, a2, b2), b3 ∙ a3), λ x z. k x (h x z).0)
  after_go true false c d (b, e) ((a1, a2, a3), h) ((b1, b2, b3), k) =
      ((b1 ∙ a1, omega (arith, a2, b2), b3 ∙ a3), λ x z. k x (h x z).0)
  after_go false true c d (b, e) ((a1, a2, a3), h) ((b1, b2, b3), k) =
      ((b1 ∙ a1, omega (arith, a2, b2), b3 ∙ a3), λ x z. k x (h x z).0)
  after_go false false c d (b, e) ((a1, a2, a3), h) ((b1, b2, b3), k) =
      ((b1 ∙ a1, b2 ∙ a2, b3 ∙ a3), λ x z. k x (h x z).0)

  pub opened-Good :
      (p o : Bool) (c : Ctx) (r : Bool × Ctx) (k : Step)
      → Good q (deeper (p && not o) c) r
      → ((d : Ctx) → Good q (left (p || o) d) (k d))
      → Good q (left o c) (and_then (shallower_on_stop (p || o) r) k)
  opened-Good p o c (true, d) k h hk = after_go p o c d (k d) h (hk d)
  opened-Good p o c (false, d) k h hk = stopped p o h
    where
      stopped :
          (p o : Bool)
          → Good q (deeper (p && not o) c) (false, d)
          → Good q (left o c) (and_then (shallower_on_stop (p || o) (false, d)) k)
      stopped true true h = after_stop true true c d h
      stopped true false h = after_stop true false c d h
      stopped false true h = after_stop false true c d h
      stopped false false h = after_stop false false c d h

  -- Userland code runs in front of a step.
  pub ran-Good :
      (o : Bool) (e : Effect) (c : Ctx) (k : Step)
      → ((d : Ctx) → Good q (left o d) (k d))
      → Good q (left o c) ((userland e >> k) c)
  ran-Good true e c k h = h (record c { globals = e c.globals })
  ran-Good false e c k h = h (record c { globals = e c.globals })

  pub failed-Good :
      (s : Setting) (o : Bool) (e : Effect) (c : Ctx) → Good q (left o c) (hook_failed s o e c)
  failed-Good s true e c = ((refl, refl, refl), λ p z. (z, λ b. inl refl))
  failed-Good s false e c = ((refl, refl, refl), λ p z. (z, λ b. inl refl))
