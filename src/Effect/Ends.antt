-- ===== src/Effect/Ends.antt =====
-- Rules for loops on fuel: the answer is not that the fuel has run out, and `P` goes on to hold.
use emailservice_worker.Prelude.{ℕ, ◌≡◌, ◌≢◌, refl, String, Bool, true, false, Option, none, some}
use emailservice_worker.Effect.{
  M, Env, World, Fate, done, lost, unsure, step, Stmt, run_stmt, exec, pure, ◌>>=◌, try,
  case_result, case_option, branch,
}
use emailservice_worker.Effect.Errors.{Error, Result, ok, err, text, wrap, out_of_fuel}
use emailservice_worker.Effect.Keeps.{Keeps}

-- The answer is no lack of fuel, and the tables stay as they are.
pub record Ends {A : Type 0} (e : Env) (P : World → Type 0) (m : M (Result A)) : Type 0 where
  pub at : (w : World) → P w → ((m e w).0 ≢ err out_of_fuel) × P (m e w).1

pub is_answer : {A : Type 0} (a : A) → ok a ≢ err out_of_fuel
is_answer a h = cc

pub is_wrapped :
    {A : Type 0} (s : String) (x : Error) → ◌≢◌ {A = Result A} (err (wrap s x)) (err out_of_fuel)
is_wrapped s x h = cc

pub is_text : {A : Type 0} (s : String) → ◌≢◌ {A = Result A} (err (text s)) (err out_of_fuel)
is_text s h = cc

module _ {A : Type 0} {e : Env} {P : World → Type 0} where
  pub Ends-pure : (r : Result A) → r ≢ err out_of_fuel → Ends e P (pure r)
  unfolding pure
  Ends-pure r h = record { at = λ w p. (h, p) }

  pub Ends-branch :
      (b : Bool) (m k : M (Result A)) → Ends e P m → Ends e P k → Ends e P (branch b m k)
  unfolding branch
  Ends-branch true m k hm hk = hm
  Ends-branch false m k hm hk = hk

module _ {A B : Type 0} {e : Env} {P : World → Type 0} where
  pub Ends-bind :
      (m : M A) (f : A → M (Result B))
      → Keeps e P m
      → ((a : A) → Ends e P (f a))
      → Ends e P (m >>= f)
  unfolding ◌>>=◌
  Ends-bind m f km kf = record { at = λ w p. (kf (m e w).0).at (m e w).1 (km.at w p) }

  pub Ends-case_option :
      (o : Option A) (k : M (Result B)) (f : A → M (Result B))
      → Ends e P k
      → ((a : A) → Ends e P (f a))
      → Ends e P (case_option o k f)
  unfolding case_option
  Ends-case_option none k f hk hf = hk
  Ends-case_option (some a) k f hk hf = hf a

  passed :
      (r : Result A) (g : A → M (Result B)) (w : World)
      → r ≢ err out_of_fuel
      → P w
      → ((a : A) → Ends e P (g a))
      → ((case_result r (λ x. pure (err x)) g e w).0 ≢ err out_of_fuel)
        × P (case_result r (λ x. pure (err x)) g e w).1
  unfolding case_result pure
  passed (ok a) g w h p hg = (hg a).at w p
  passed (err x) g w h p hg = (λ t. h (cc), p)

  -- An error goes on as it is.
  pub Ends-pass :
      (m : M (Result A)) (g : A → M (Result B))
      → Ends e P m
      → ((a : A) → Ends e P (g a))
      → Ends e P (try m (λ x. pure (err x)) g)
  unfolding try
  Ends-pass m g hm hg = record {
    at = λ w p. passed (m e w).0 g (m e w).1 (hm.at w p).0 (hm.at w p).1 hg;
  }

run_stmt-ok :
    {A : Type 0} (q : Stmt A) (fate : Fate) (w : World) (a : A)
    → (run_stmt fate q w).0 ≡ ok a
    → (q w.clock w.db).0 ≡ ok a
unfolding run_stmt
run_stmt-ok q done w a t = t
run_stmt-ok q (lost x) w a t = cc
run_stmt-ok q (unsure x) w a t = cc

-- A query, with what is known of its answer.
module _ {A B : Type 0} {e : Env} {P : World → Type 0} (q : Stmt A) (s : String)
    (g : A → M (Result B)) (keeps : Keeps e P (exec q))
    (found : (w : World) (t : ℕ) (a : A) → P w → (q t w.db).0 ≡ ok a → Ends e P (g a)) where
  answered :
      (r : Result A) (w : World)
      → P w
      → ((a : A) → r ≡ ok a → Ends e P (g a))
      → ((case_result r (λ x. pure (err (wrap s x))) g e w).0 ≢ err out_of_fuel)
        × P (case_result r (λ x. pure (err (wrap s x))) g e w).1
  unfolding case_result pure
  answered (ok a) w p h = (h a refl).at w p
  answered (err x) w p h = (is_wrapped s x, p)

  pub Ends-query : Ends e P (try (exec q) (λ x. pure (err (wrap s x))) g)
  unfolding try exec
  Ends-query = record {
    at = λ w p.
        answered _ _ (keeps.at w p)
          (λ a t. found w (step e w).clock a p (run_stmt-ok q (e.db_fate w.tick) (step e w) a t));
  }
