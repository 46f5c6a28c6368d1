-- ===== src/Encode/Delivers.antt =====
-- What fastjson_file_encode of fastjson_encode.c has put into the file where it returns true.
use fastjson.Prelude.{
  ℕ, zero, suc, ◌≤◌, Bool, true, false, not, ◌&&◌, Option, none, some, [], ◌∷◌, ◌++◌, Bytes, length,
  take, drop, leb, ◌==◌, if◌then◌else◌, ◌≡◌, refl, sym, ap, ◌∙◌, arith, append_assoc, append-nil,
  take-append-drop, leb→le,
}
use fastjson.Entry.{ℤ, pos, negsuc}
use fastjson.Encode.Writes.{
  Stream, after_write, write_loop, flushed, closed, write_and_close, is_zero,
}

-- The bytes that a write has taken, of those that it was given.
abbrev pub taken : ℤ → Bytes → Bytes
taken (pos n) t = take n t
taken (negsuc n) t = []

-- A stream with a log of the bytes that it took: a write takes the first bytes it was given, as
-- many as it answers, and flushing and closing take none.
pub record Logged {ℓ} (S : Type ℓ) (stream : Stream S) : Type ℓ where
  pub log : S → Bytes
  pub log-write :
      (st : S) (t : Bytes) → log (stream.write st t).1 ≡ log st ++ taken (stream.write st t).0 t
  pub log-flush : (st : S) → log (stream.flush st).1 ≡ log st
  pub log-close : (st : S) → log (stream.close st).1 ≡ log st

take_nil : (n : ℕ) → take {A = ℕ} n [] ≡ []
take_nil zero = refl
take_nil (suc n) = refl

take_all : (n : ℕ) (t : Bytes) → length t ≤ n → take n t ≡ t
take_all n [] h = take_nil n
take_all zero (c ∷ t) h = absurd (omega arith)
take_all (suc n) (c ∷ t) h = ap (λ u. c ∷ u) (take_all n t (omega arith))

module _ {ℓ} {S : Type ℓ} (stream : Stream S) (file : Logged S stream) where
  after_write-taken :
      (t : Bytes) (n : ℤ) (rest : Bytes)
      → after_write stream t n ≡ some rest
      → taken n t ++ rest ≡ t
  unfolding after_write
  after_write-taken t (negsuc n) rest h = absurd (cc h)
  after_write-taken t (pos n) rest h = choose (n == 0) (leb (length t) n) refl h
    where
      held : Option Bytes → Bytes
      held none = []
      held (some u) = u

      choose :
          (z l : Bool)
          → leb (length t) n ≡ l
          → (if z then none else some (if l then [] else drop n t)) ≡ some rest
          → take n t ++ rest ≡ t
      choose true l e p = absurd (cc p)
      choose false true e p =
          ap (λ o. take n t ++ held o) (sym p)
          ∙ append-nil (take n t)
          ∙ take_all n t (leb→le (length t) n e)
      choose false false e p = ap (λ o. take n t ++ held o) (sym p) ∙ take-append-drop n t

  stopped-taken : (t : Bytes) (n : ℤ) → after_write stream t n ≡ none → taken n t ≡ []
  unfolding after_write
  stopped-taken t (negsuc n) h = refl
  stopped-taken t (pos zero) h = refl
  stopped-taken t (pos (suc n)) h = absurd (ground arith)

  -- What the loop has written and what it has left is the text that it was given.
  write_loop-log :
      (fuel : ℕ) (t : Bytes) (st : S)
      → file.log (write_loop stream fuel t st).1 ++ (write_loop stream fuel t st).0
        ≡ file.log st ++ t
  unfolding write_loop
  write_loop-log zero t st = refl
  write_loop-log (suc fuel) [] st = refl
  write_loop-log (suc fuel) (c ∷ t) st =
      go (stream.write st (c ∷ t)).0 (stream.write st (c ∷ t)).1
        (after_write stream (c ∷ t) (stream.write st (c ∷ t)).0) (file.log-write st (c ∷ t)) refl
        (λ rest. write_loop-log fuel rest (stream.write st (c ∷ t)).1)
    where
      go :
          (n : ℤ) (st' : S) (o : Option Bytes)
          → file.log st' ≡ file.log st ++ taken n (c ∷ t)
          → after_write stream (c ∷ t) n ≡ o
          → ((rest : Bytes)
              → file.log (write_loop stream fuel rest st').1 ++ (write_loop stream fuel rest st').0
                ≡ file.log st' ++ rest)
          → file.log
                (elim o as (λ _. Bytes × S) [
                  | none ↦ (c ∷ t, st')
                  | some rest ↦ write_loop stream fuel rest st'
                ]).1
              ++ (elim o as (λ _. Bytes × S) [
                | none ↦ (c ∷ t, st')
                | some rest ↦ write_loop stream fuel rest st'
              ]).0
            ≡ file.log st ++ c ∷ t
      go n st' none l e h =
          ap (λ u. u ++ c ∷ t) l
          ∙ ap (λ u. (file.log st ++ u) ++ c ∷ t) (stopped-taken (c ∷ t) n e)
          ∙ ap (λ u. u ++ c ∷ t) (append-nil (file.log st))
      go n st' (some rest) l e h =
          h rest
          ∙ ap (λ u. u ++ rest) l
          ∙ append_assoc (file.log st) (taken n (c ∷ t)) rest
          ∙ ap (λ u. file.log st ++ u) (after_write-taken (c ∷ t) n rest e)

  abbrev log_behind : Bool × S → Bytes
  log_behind (fine, st) = file.log st

  flushed-log :
      (x : Bytes × S)
      → (flushed stream x).0 ≡ true
      → (x.0 ≡ []) × (file.log (flushed stream x).1 ≡ file.log x.1)
  unfolding flushed
  flushed-log (c ∷ rest, st) h = absurd (cc h)
  flushed-log ([], st) h = (refl, choose (stream.can_flush && not (stream.threw st)))
    where
      choose :
          (b : Bool)
          → log_behind
              (if b then (is_zero stream (stream.flush st).0, (stream.flush st).1) else (true, st))
            ≡ file.log st
      choose true = file.log-flush st
      choose false = refl

  -- With a stream that takes the first bytes of what a write is given, as many as it answers, and
  -- whose flush and close take none: where every byte was written, the flush did not fail and the
  -- close succeeded, the stream has taken exactly the bytes of the text, in their order, however
  -- the writes were cut.
  pub write_and_close-log :
      (t : Bytes) (st : S)
      → (write_and_close stream t st).0 ≡ true
      → file.log (write_and_close stream t st).1 ≡ file.log st ++ t
  unfolding write_and_close closed
  write_and_close-log t st h =
      file.log-close (flushed stream x).1
      ∙ f.1
      ∙ sym (append-nil (file.log x.1))
      ∙ ap (λ u. file.log x.1 ++ u) (sym f.0)
      ∙ write_loop-log (length t) t st
    where
      x : Bytes × S
      x = write_loop stream (length t) t st

      first : (a b : Bool) → a && b ≡ true → a ≡ true
      first true b h = refl
      first false b h = absurd (cc h)

      f : (x.0 ≡ []) × (file.log (flushed stream x).1 ≡ file.log x.1)
      f =
          flushed-log x
            (first (flushed stream x).0 (is_zero stream (stream.close (flushed stream x).1).0) h)
