-- ===== src/Splice/Steps.antt =====
-- Runs of the splice writer of fastjson_pointer_splice.c that succeed: two writers are equal in
-- effect where they succeed on the same contexts with the same result.
use fastjson.Prelude.{Option, none, some, ◌≡◌, refl, sym, ap, ◌∙◌}
use fastjson.Splice.{Ctx, Written, ok, stop, Writer, and_then, ◌>>◌, done}

abbrev pub success : Written → Option Ctx
success (ok c) = some c
success (stop c) = none

infix 4 ◌≈◌
abbrev pub ◌≈◌ : Writer → Writer → Type 0
m ≈ k = (c : Ctx) → success (m c) ≡ success (k c)

pub same : (m : Writer) → m ≈ m
same m c = refl

pub back : (m k : Writer) → m ≈ k → k ≈ m
back m k h c = sym (h c)

pub chain : (m k l : Writer) → m ≈ k → k ≈ l → m ≈ l
chain m k l h g c = h c ∙ g c

abbrev run_on : Option Ctx → Writer → Option Ctx
run_on none k = none
run_on (some c) k = success (k c)

success-and_then : (x : Written) (k : Writer) → success (and_then x k) ≡ run_on (success x) k
success-and_then (ok c) k = refl
success-and_then (stop c) k = refl

-- Equal steps before and after a step.
pub then_eq : (m k l : Writer) → k ≈ l → (m >> k) ≈ (m >> l)
then_eq m k l h c = go (m c)
  where
    go : (x : Written) → success (and_then x k) ≡ success (and_then x l)
    go (ok c') = h c'
    go (stop c') = refl

pub eq_then : (m n k : Writer) → m ≈ n → (m >> k) ≈ (n >> k)
eq_then m n k h c =
    success-and_then (m c) k ∙ ap (λ o. run_on o k) (h c) ∙ sym (success-and_then (n c) k)

pub then_done : (m : Writer) → (m >> done) ≈ m
then_done m c = go (m c)
  where
    go : (x : Written) → success (and_then x done) ≡ success x
    go (ok c') = refl
    go (stop c') = refl

pub regroup : (m k l : Writer) → ((m >> k) >> l) ≈ (m >> k >> l)
regroup m k l c = go (m c)
  where
    go :
        (x : Written)
        → success (and_then (and_then x k) l) ≡ success (and_then x (λ c'. and_then (k c') l))
    go (ok c') = refl
    go (stop c') = refl

-- Writing what may not be there: no success where it is not.
abbrev pub given {ℓ} : {A : Type ℓ} → Option A → (A → Writer) → Writer
given none f = λ c. stop c
given (some a) f = f a

pub then_given {ℓ} :
    {A : Type ℓ} (m : Writer) (o : Option A) (f : A → Writer)
    → (m >> given o f) ≈ given o (λ a. m >> f a)
then_given m none f c = go (m c)
  where
    go : (x : Written) → success (and_then x (λ c'. stop c')) ≡ none
    go (ok c') = refl
    go (stop c') = refl
then_given m (some a) f c = refl

pub given_then {ℓ} :
    {A : Type ℓ} (o : Option A) (f : A → Writer) (k : Writer)
    → (given o f >> k) ≈ given o (λ a. f a >> k)
given_then none f k c = refl
given_then (some a) f k c = refl

pub given_step {ℓ} :
    {A : Type ℓ} (m k : Writer) (o : Option A) (f : A → Writer)
    → k ≈ given o f
    → (m >> k) ≈ given o (λ a. m >> f a)
given_step m k o f h =
    chain (m >> k) (m >> given o f) (given o (λ a. m >> f a)) (then_eq m k (given o f) h)
      (then_given m o f)

pub given_cong {ℓ} :
    {A : Type ℓ} (o : Option A) (f g : A → Writer)
    → ((a : A) → o ≡ some a → f a ≈ g a)
    → given o f ≈ given o g
given_cong none f g h c = refl
given_cong (some a) f g h c = h a refl c

pub given_path {ℓ} : {A : Type ℓ} {o p : Option A} (f : A → Writer) → o ≡ p → given o f ≈ given p f
given_path f e c = ap (λ x. success (given x f c)) e
