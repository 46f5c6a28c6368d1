-- ===== src/Reading/Literals.antt =====
-- fastjson_input_has_inf_nan_literal of fastjson.c, where comments are not allowed, against the
-- strings of a JSON text.
use fastjson.Prelude.{
  ℕ, zero, suc, ◌≤◌, Bool, true, false, ◌&&◌, ◌||◌, [], ◌∷◌, Bytes, length, get_or, leb, ◌==◌,
  if◌then◌else◌, ◌≡◌, ◌↔◌, refl, sym, ap, ◌∙◌, subst, arith,
}
use fastjson.Reading.Tokens.{
  quote, backslash, Mode, outside, in_string, after_backslash, Reach, here, other, opens, char,
  escape, escaped, closes, Literal, is_literal, Literal-sound, Literal-complete,
}
use fastjson.Reading.{
  lower, Scan, literal, next, scan_round, inf_nan_loop, input_has_inf_nan_literal,
}

abbrev run : ℕ → Mode → Bytes → Bool
run n outside s = inf_nan_loop n false false false s
run n in_string s = inf_nan_loop n false true false s
run n after_backslash s = inf_nan_loop n false true true s

-- The rounds outside a string and inside it, by their tests.
abbrev at_top : (q l : Bool) → Bytes → Scan
at_top q l t = if q then next true false t else if l then literal else next false false t

abbrev in_body : (b q : Bool) → Bytes → Scan
in_body b q t = if b then next true true t else if q then next false false t else next true false t

after : ℕ → Scan → Bool
after n r = elim r [ literal ↦ true | next s e rest ↦ inf_nan_loop n false s e rest ]

run_top :
    (n c : ℕ) (t : Bytes) (q l : Bool)
    → (c == quote) ≡ q
    → is_literal (c ∷ t) ≡ l
    → run (suc n) outside (c ∷ t) ≡ after n (at_top q l t)
unfolding inf_nan_loop scan_round after
run_top n c t q l e h =
    ap (λ x. after n (at_top x (is_literal (c ∷ t)) t)) e ∙ ap (λ x. after n (at_top q x t)) h

run_body :
    (n c : ℕ) (t : Bytes) (b q : Bool)
    → (c == backslash) ≡ b
    → (c == quote) ≡ q
    → run (suc n) in_string (c ∷ t) ≡ after n (in_body b q t)
unfolding inf_nan_loop scan_round after
run_body n c t b q e h =
    ap (λ x. after n (in_body x (c == quote) t)) e ∙ ap (λ x. after n (in_body b x t)) h

-- A literal does not start with a quote.
literal_unquoted : (c : ℕ) (t : Bytes) → (c == quote) ≡ true → is_literal (c ∷ t) ≡ false
literal_unquoted c t e =
    subst (λ x. is_literal (x ∷ t) ≡ false) (sym (is_quote c e))
      (choose (leb 3 (length (quote ∷ t))))
  where
    is_quote : (c : ℕ) → (c == quote) ≡ true → c ≡ quote
    is_quote c e = ground arith

    choose :
        (b : Bool)
        → ((b
              && false
              && lower (get_or (quote ∷ t) 1 0) == b'n'
              && lower (get_or (quote ∷ t) 2 0) == b'f')
            || (b
                && false
                && lower (get_or (quote ∷ t) 1 0) == b'a'
                && lower (get_or (quote ∷ t) 2 0) == b'n'))
          ≡ false
    choose true = refl
    choose false = refl

abbrev Witnessed : Mode → Bytes → Type 0
Witnessed m s = (u : Bytes) × Reach m s u × (is_literal u ≡ true)

module _ (n c : ℕ) (t : Bytes) (later : (m : Mode) → run n m t ≡ true → Witnessed m t) where
  sound_top :
      (q l : Bool)
      → (c == quote) ≡ q
      → is_literal (c ∷ t) ≡ l
      → after n (at_top q l t) ≡ true
      → Witnessed outside (c ∷ t)
  unfolding after
  sound_top true l e k h = let (u, r, w) = later in_string h in (u, opens c t u e r, w)
  sound_top false true e k h = (c ∷ t, here (c ∷ t), k)
  sound_top false false e k h = let (u, r, w) = later outside h in (u, other c t u e r, w)

  sound_body :
      (b q : Bool)
      → (c == backslash) ≡ b
      → (c == quote) ≡ q
      → after n (in_body b q t) ≡ true
      → Witnessed in_string (c ∷ t)
  unfolding after
  sound_body true q e k h = let (u, r, w) = later after_backslash h in (u, escape c t u e r, w)
  sound_body false true e k h = let (u, r, w) = later outside h in (u, closes c t u k r, w)
  sound_body false false e k h = let (u, r, w) = later in_string h in (u, char c t u k e r, w)

  sound_escaped : run n in_string t ≡ true → Witnessed after_backslash (c ∷ t)
  sound_escaped h = let (u, r, w) = later in_string h in (u, escaped c t u r, w)

sound : (n : ℕ) (m : Mode) (s : Bytes) → run n m s ≡ true → Witnessed m s
unfolding inf_nan_loop scan_round
sound n outside [] h = absurd (cc h)
sound n in_string [] h = absurd (cc h)
sound n after_backslash [] h = absurd (cc h)
sound zero outside (c ∷ t) h = absurd (cc h)
sound zero in_string (c ∷ t) h = absurd (cc h)
sound zero after_backslash (c ∷ t) h = absurd (cc h)
sound (suc n) outside (c ∷ t) h =
    sound_top n c t (λ m. sound n m t) (c == quote) (is_literal (c ∷ t)) refl refl
      (sym (run_top n c t (c == quote) (is_literal (c ∷ t)) refl refl) ∙ h)
sound (suc n) in_string (c ∷ t) h =
    sound_body n c t (λ m. sound n m t) (c == backslash) (c == quote) refl refl
      (sym (run_body n c t (c == backslash) (c == quote) refl refl) ∙ h)
sound (suc n) after_backslash (c ∷ t) h = sound_escaped n c t (λ m. sound n m t) h

unequal : (c : ℕ) → (c == quote) ≡ true → (c == backslash) ≡ false
unequal c e = ground arith

at_literal : (s : Bytes) (n : ℕ) → is_literal s ≡ true → length s ≤ n → run n outside s ≡ true
unfolding after
at_literal [] n w h = absurd (cc w)
at_literal (c ∷ t) zero w h = absurd (omega arith)
at_literal (c ∷ t) (suc n) w h = run_top n c t false true (unquoted (c == quote) refl) w
  where
    unquoted : (q : Bool) → (c == quote) ≡ q → (c == quote) ≡ false
    unquoted true e = absurd (cc (literal_unquoted c t e, w))
    unquoted false e = e

complete :
    (m : Mode) (s u : Bytes)
    → Reach m s u
    → is_literal u ≡ true
    → (n : ℕ) → length s ≤ n
    → run n m s ≡ true
unfolding inf_nan_loop scan_round after
complete outside _ _ (here s) w n h = at_literal s n w h
complete outside _ _ (other c t u e r) w zero h = absurd (omega arith)
complete outside _ _ (other c t u e r) w (suc n) h =
    choose (complete outside t u r w n (omega arith)) (is_literal (c ∷ t)) refl
  where
    choose :
        run n outside t ≡ true
        → (l : Bool) → is_literal (c ∷ t) ≡ l
        → run (suc n) outside (c ∷ t) ≡ true
    choose p true k = run_top n c t false true e k
    choose p false k = run_top n c t false false e k ∙ p
complete outside _ _ (opens c t u e r) w zero h = absurd (omega arith)
complete outside _ _ (opens c t u e r) w (suc n) h =
    run_top n c t true (is_literal (c ∷ t)) e refl ∙ complete in_string t u r w n (omega arith)
complete in_string _ _ (char c t u e k r) w zero h = absurd (omega arith)
complete in_string _ _ (char c t u e k r) w (suc n) h =
    run_body n c t false false k e ∙ complete in_string t u r w n (omega arith)
complete in_string _ _ (escape c t u e r) w zero h = absurd (omega arith)
complete in_string _ _ (escape c t u e r) w (suc n) h =
    run_body n c t true (c == quote) e refl ∙ complete after_backslash t u r w n (omega arith)
complete in_string _ _ (closes c t u e r) w zero h = absurd (omega arith)
complete in_string _ _ (closes c t u e r) w (suc n) h =
    run_body n c t false true (unequal c e) e ∙ complete outside t u r w n (omega arith)
complete after_backslash _ _ (escaped c t u r) w zero h = absurd (omega arith)
complete after_backslash _ _ (escaped c t u r) w (suc n) h =
    complete in_string t u r w n (omega arith)

-- Where comments are not allowed, the scan finds a literal exactly where Inf or NaN, in any case of
-- its letters, stands outside the strings of the text.
pub input_has_inf_nan_literal_iff :
    (s : Bytes)
    → (input_has_inf_nan_literal s false ≡ true) ↔ ((u : Bytes) × Reach outside s u × Literal u)
unfolding input_has_inf_nan_literal
input_has_inf_nan_literal_iff s = (
  λ h. let (u, r, w) = sound (length s) outside s h in (u, r, Literal-sound u w),
  λ (u, r, w). complete outside s u r (Literal-complete w) (length s) (omega arith),
)
