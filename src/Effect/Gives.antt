-- ===== src/Effect/Gives.antt =====
-- Rules for what an operation answers, whatever the world.
use emailservice_worker.Prelude.{◌≡◌, refl, Bool, true, false, Option, none, some}
use emailservice_worker.Effect.{
  M, Env, World, pure, ◌>>=◌, ◌>>◌, case_result, try, case_option, branch,
}
use emailservice_worker.Effect.Errors.{Error, Result, ok, err}

pub record Gives {A : Type 0} (e : Env) (m : M A) (T : A → Type 0) : Type 0 where
  pub at : (w : World) → T (m e w).0

module _ {A B : Type 0} {e : Env} {T : B → Type 0} where
  pub Gives-bind : (m : M A) (g : A → M B) → ((a : A) → Gives e (g a) T) → Gives e (m >>= g) T
  unfolding ◌>>=◌
  Gives-bind m g h = record { at = λ w. (h (m e w).0).at (m e w).1 }

  pub Gives-then : (m : M A) (k : M B) → Gives e k T → Gives e (m >> k) T
  unfolding ◌>>◌
  Gives-then m k h = record { at = λ w. h.at (m e w).1 }

  pub Gives-case_result :
      (r : Result A) (f : Error → M B) (g : A → M B)
      → ((x : Error) → Gives e (f x) T)
      → ((a : A) → Gives e (g a) T)
      → Gives e (case_result r f g) T
  unfolding case_result
  Gives-case_result (ok a) f g hf hg = hg a
  Gives-case_result (err x) f g hf hg = hf x

  pub Gives-try :
      (m : M (Result A)) (f : Error → M B) (g : A → M B)
      → ((x : Error) → Gives e (f x) T)
      → ((a : A) → Gives e (g a) T)
      → Gives e (try m f g) T
  unfolding try
  Gives-try m f g hf hg = record { at = λ w. (Gives-case_result (m e w).0 f g hf hg).at (m e w).1 }

  pub Gives-case_option :
      (o : Option A) (k : M B) (g : A → M B)
      → (o ≡ none → Gives e k T)
      → ((a : A) → o ≡ some a → Gives e (g a) T)
      → Gives e (case_option o k g) T
  unfolding case_option
  Gives-case_option none k g hk hg = hk refl
  Gives-case_option (some a) k g hk hg = hg a refl

module _ {A : Type 0} {e : Env} {T : A → Type 0} where
  pub Gives-branch :
      (b : Bool) (m k : M A)
      → (b ≡ true → Gives e m T)
      → (b ≡ false → Gives e k T)
      → Gives e (branch b m k) T
  unfolding branch
  Gives-branch true m k hm hk = hm refl
  Gives-branch false m k hm hk = hk refl

  pub Gives-pure : (a : A) → T a → Gives e (pure a) T
  unfolding pure
  Gives-pure a h = record { at = λ w. h }
