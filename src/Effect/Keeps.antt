-- ===== src/Effect/Keeps.antt =====
-- Rules for what operations ensure: from `P` before, `Q` after, in every environment. One rule for
-- each way to build an operation, so that `search` walks through a handler.
pub mod OnDone
pub mod OnDb
pub mod OnSettled
pub mod OnStill
pub mod OnQuery
use emailservice_worker.Prelude.{◌≡◌, refl, Bool, true, false, Option, none, some}
use emailservice_worker.Effect.{
  M, Env, World, pure, ◌>>=◌, ◌>>◌, case_result, try, case_option, branch, when,
}
use emailservice_worker.Effect.Errors.{Error, Result, ok, err}

pub record Ensures {A : Type 0} (e : Env) (P : World → Type 0) (m : M A) (Q : World → Type 0)
    : Type 0 where
  pub at : (w : World) → P w → Q (m e w).1

-- The operation goes from `P` to `P`.
abbrev pub Keeps : {A : Type 0} → Env → (World → Type 0) → M A → Type 0
Keeps e P m = Ensures e P m P

-- From `P`, an operation that may fail ends in `E` if it does and in `S` if it does not.
pub record Answers {A : Type 0} (e : Env) (P : World → Type 0) (m : M (Result A))
    (E S : World → Type 0) : Type 0 where
  pub failed : (w : World) (x : Error) → P w → (m e w).0 ≡ err x → E (m e w).1
  pub done : (w : World) (a : A) → P w → (m e w).0 ≡ ok a → S (m e w).1

module _ {A B : Type 0} {e : Env} {P Q : World → Type 0} where
  pub Ensures-bind :
      (m : M A) (f : A → M B)
      → Keeps e P m
      → ((a : A) → Ensures e P (f a) Q)
      → Ensures e P (m >>= f) Q
  unfolding ◌>>=◌
  Ensures-bind m f km kf = record { at = λ w p. (kf (m e w).0).at (m e w).1 (km.at w p) }

  -- Where the first part changes what holds, and its answer matters.
  pub Ensures-bind_on :
      {P' : World → Type 0} (m : M A) (f : A → M B)
      → Ensures e P m P'
      → ((a : A) → Ensures e P' (f a) Q)
      → Ensures e P (m >>= f) Q
  unfolding ◌>>=◌
  Ensures-bind_on m f km kf = record { at = λ w p. (kf (m e w).0).at (m e w).1 (km.at w p) }

  pub Ensures-then : (m : M A) (k : M B) → Keeps e P m → Ensures e P k Q → Ensures e P (m >> k) Q
  unfolding ◌>>◌
  Ensures-then m k km kk = record { at = λ w p. kk.at (m e w).1 (km.at w p) }

  -- Where the first part changes what holds.
  pub Ensures-seq :
      {P' : World → Type 0} (m : M A) (k : M B)
      → Ensures e P m P'
      → Ensures e P' k Q
      → Ensures e P (m >> k) Q
  unfolding ◌>>◌
  Ensures-seq m k km kk = record { at = λ w p. kk.at (m e w).1 (km.at w p) }

  pub Ensures-case_result :
      (r : Result A) (f : Error → M B) (g : A → M B)
      → ((x : Error) → Ensures e P (f x) Q)
      → ((a : A) → Ensures e P (g a) Q)
      → Ensures e P (case_result r f g) Q
  unfolding case_result
  Ensures-case_result (ok a) f g kf kg = kg a
  Ensures-case_result (err x) f g kf kg = kf x

  pub Ensures-try :
      (m : M (Result A)) (f : Error → M B) (g : A → M B)
      → Keeps e P m
      → ((x : Error) → Ensures e P (f x) Q)
      → ((a : A) → Ensures e P (g a) Q)
      → Ensures e P (try m f g) Q
  unfolding try
  Ensures-try m f g km kf kg = record {
    at = λ w p. (Ensures-case_result (m e w).0 f g kf kg).at (m e w).1 (km.at w p);
  }

  case_split :
      {E S : World → Type 0} (m : M (Result A)) (f : Error → M B) (g : A → M B)
      → Answers e P m E S
      → ((x : Error) → Ensures e E (f x) Q)
      → ((a : A) → Ensures e S (g a) Q)
      → (w : World) → P w
      → (r : Result A) → (m e w).0 ≡ r
      → Q (case_result r f g e (m e w).1).1
  unfolding case_result
  case_split m f g h kf kg w p (ok a) q = (kg a).at (m e w).1 (h.done w a p q)
  case_split m f g h kf kg w p (err x) q = (kf x).at (m e w).1 (h.failed w x p q)

  pub Ensures-try_split :
      {E S : World → Type 0} (m : M (Result A)) (f : Error → M B) (g : A → M B)
      → Answers e P m E S
      → ((x : Error) → Ensures e E (f x) Q)
      → ((a : A) → Ensures e S (g a) Q)
      → Ensures e P (try m f g) Q
  unfolding try
  Ensures-try_split m f g h kf kg = record {
    at = λ w p. case_split m f g h kf kg w p (m e w).0 refl;
  }

  pub Ensures-case_option :
      (o : Option A) (f : M B) (g : A → M B)
      → Ensures e P f Q
      → ((a : A) → Ensures e P (g a) Q)
      → Ensures e P (case_option o f g) Q
  unfolding case_option
  Ensures-case_option none f g kf kg = kf
  Ensures-case_option (some a) f g kf kg = kg a

module _ {A : Type 0} {e : Env} {P Q : World → Type 0} where
  pub Ensures-branch :
      (b : Bool) (m k : M A) → Ensures e P m Q → Ensures e P k Q → Ensures e P (branch b m k) Q
  unfolding branch
  Ensures-branch true m k km kk = km
  Ensures-branch false m k km kk = kk

-- Where the test decides what holds.
pub Ensures-branch_on :
    {A : Type 0} {e : Env} {P Q : World → Type 0} (b : Bool) (m k : M A)
    → (b ≡ true → Ensures e P m Q)
    → (b ≡ false → Ensures e P k Q)
    → Ensures e P (branch b m k) Q
unfolding branch
Ensures-branch_on true m k km kk = km refl
Ensures-branch_on false m k km kk = kk refl

pub Keeps-when :
    {e : Env} {P : World → Type 0} (b : Bool) (m : M Unit) → Keeps e P m → Keeps e P (when b m)
unfolding when
Keeps-when true m km = km
Keeps-when false m km = record { at = λ w p. p }

module _ {A : Type 0} {e : Env} {P : World → Type 0} where
  pub Keeps-pure : (a : A) → Keeps e P (pure a)
  unfolding pure
  Keeps-pure a = record { at = λ w p. p }

pub weaken :
    {A : Type 0} {e : Env} {P Q Q' : World → Type 0} {m : M A}
    → ((w : World) → Q w → Q' w)
    → Ensures e P m Q
    → Ensures e P m Q'
weaken f h = record { at = λ w p. f _ (h.at w p) }

pub ruleset ensures_rules = (
  Ensures-bind, Ensures-then, Ensures-case_result, Ensures-try, Ensures-case_option, Ensures-branch,
  Keeps-when, Keeps-pure,
)
