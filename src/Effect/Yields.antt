-- ===== src/Effect/Yields.antt =====
-- Rules for operations in an environment where the database answers: from `P` before, the operation
-- returns `a` and ends in `Q`.
use emailservice_worker.Prelude.{
  ◌≡◌, refl, sym, subst, ap, Bool, true, false, Option, some, List, ◌∷◌, ℕ, if◌then◌else◌,
}
use emailservice_worker.Schema.{Database}
use emailservice_worker.Effect.{
  M, Env, World, Fate, done, Stmt, Settlement, Metric, pure, step, run_stmt, exec, ◌>>=◌, ◌>>◌,
  case_result, try, case_option, branch, settle, inc, add_metric,
}
use emailservice_worker.Effect.Errors.{Error, Result, ok}

-- Every statement is done.
abbrev pub DbIsUp : Env → Type 0
DbIsUp e = (n : ℕ) → e.db_fate n ≡ done

pub record Yields {A : Type 0} (e : Env) (P : World → Type 0) (m : M A) (a : A) (Q : World → Type 0)
    : Type 0 where
  pub at : (w : World) → P w → ((m e w).0 ≡ a) × Q (m e w).1

-- A fact about the database, and what was said of the message.
pub record On (C : Database → Type 0) (s : List Settlement) (w : World) : Type 0 where
  pub of_db : C w.db
  pub of_settled : w.settled ≡ s

module _ {A B : Type 0} {e : Env} {P R Q : World → Type 0} {b : B} where
  pub Yields-try :
      (m : M (Result A)) (f : Error → M B) (g : A → M B) (a : A)
      → Yields e P m (ok a) R
      → Yields e R (g a) b Q
      → Yields e P (try m f g) b Q
  unfolding try case_result
  Yields-try m f g a hm hg = record {
    at = λ w p.
        let h = hm.at w p in
        subst (λ r. ((case_result r f g e (m e w).1).0 ≡ b) × Q (case_result r f g e (m e w).1).1)
          (sym h.0) (hg.at (m e w).1 h.1);
  }

  pub Yields-bind :
      (m : M A) (g : A → M B) (a : A)
      → Yields e P m a R
      → Yields e R (g a) b Q
      → Yields e P (m >>= g) b Q
  unfolding ◌>>=◌
  Yields-bind m g a hm hg = record {
    at = λ w p.
        let h = hm.at w p in
        subst (λ r. ((g r e (m e w).1).0 ≡ b) × Q (g r e (m e w).1).1) (sym h.0)
          (hg.at (m e w).1 h.1);
  }

  -- Where the answer does not matter.
  pub Yields-bind_any :
      (m : M A) (g : A → M B)
      → ((w : World) → P w → R (m e w).1)
      → ((a : A) → Yields e R (g a) b Q)
      → Yields e P (m >>= g) b Q
  unfolding ◌>>=◌
  Yields-bind_any m g hm hg = record { at = λ w p. (hg (m e w).0).at (m e w).1 (hm w p) }

  pub Yields-then :
      {m : M A} {k : M B} (a : A) → Yields e P m a R → Yields e R k b Q → Yields e P (m >> k) b Q
  unfolding ◌>>◌
  Yields-then a hm hk = record { at = λ w p. hk.at _ (hm.at w p).1 }

module _ {A B : Type 0} {e : Env} {P Q : World → Type 0} {b : B} where
  pub Yields-case_result :
      (r : Result A) (f : Error → M B) (g : A → M B) (a : A)
      → r ≡ ok a
      → Yields e P (g a) b Q
      → Yields e P (case_result r f g) b Q
  unfolding case_result
  Yields-case_result r f g a h k = subst (λ x. Yields e P (case_result x f g) b Q) (sym h) k

  pub Yields-case_option :
      (o : Option A) (f : M B) (g : A → M B) (a : A)
      → o ≡ some a
      → Yields e P (g a) b Q
      → Yields e P (case_option o f g) b Q
  unfolding case_option
  Yields-case_option o f g a h k = subst (λ x. Yields e P (case_option x f g) b Q) (sym h) k

module _ {A : Type 0} {e : Env} {P Q : World → Type 0} {a : A} where
  pub Yields-branch :
      {m k : M A} (b : Bool)
      → (b ≡ true → Yields e P m a Q)
      → (b ≡ false → Yields e P k a Q)
      → Yields e P (branch b m k) a Q
  unfolding branch
  Yields-branch true hm hk = hm refl
  Yields-branch false hm hk = hk refl

  pub Yields-pure : ((w : World) → P w → Q w) → Yields e P (pure a) a Q
  unfolding pure
  Yields-pure h = record { at = λ w p. (refl, h w p) }

-- Two branches with their answers.
pub Yields-branch_if :
    {A : Type 0} {e : Env} {P Q : World → Type 0} {m k : M (Result A)} {a b : A} (t : Bool)
    → Yields e P m (ok a) Q
    → Yields e P k (ok b) Q
    → Yields e P (branch t m k) (ok (if t then a else b)) Q
unfolding branch
Yields-branch_if true hm hk = hm
Yields-branch_if false hm hk = hk

run_stmt-done :
    {A : Type 0} (f : Fate) (q : Stmt A) (w : World)
    → f ≡ done
    → run_stmt f q w ≡ ((q w.clock w.db).0, record w { db = (q w.clock w.db).1 })
unfolding run_stmt
run_stmt-done f q w h = rw h refl

module _ {e : Env} (up : DbIsUp e) {s : List Settlement} where
  -- A statement that takes `C` to `C'` and answers `a`.
  pub Yields-exec :
      {A : Type 0} {C C' : Database → Type 0} {a : A} (q : Stmt A)
      → ((t : ℕ) (d : Database) → C d → ((q t d).0 ≡ ok a) × C' (q t d).1)
      → Yields e (On C s) (exec q) (ok a) (On C' s)
  unfolding exec
  Yields-exec {C' = C'} {a = a} q h = record {
    at = λ w p.
        let w1 = step e w in
        let made = h w1.clock w.db p.of_db in
        let same = run_stmt-done (e.db_fate w.tick) q w1 (up w.tick) in
        subst (λ x. (x.0 ≡ ok a) × On C' s x.1) (sym same)
          (made.0, record { of_db = made.1; of_settled = p.of_settled });
  }

-- A query that only reads what `C` tells.
pub Yields-read :
    {e : Env} {s : List Settlement} {A : Type 0} {C : Database → Type 0} (up : DbIsUp e)
    (q : Stmt A) (a : A)
    → ((t : ℕ) (d : Database) → C d → q t d ≡ (ok a, d))
    → Yields e (On C s) (exec q) (ok a) (On C s)
Yields-read {C} up q a h = Yields-exec up q (λ t d c. rw (h t d c) (refl, c))

module _ {e : Env} {C : Database → Type 0} {s : List Settlement} where
  pub Yields-inc : (m : Metric) → Yields e (On C s) (inc m) tt (On C s)
  unfolding inc
  Yields-inc m = record {
    at = λ w p. (refl, record { of_db = p.of_db; of_settled = p.of_settled });
  }

  pub Yields-add_metric : (m : Metric) (n : ℕ) → Yields e (On C s) (add_metric m n) tt (On C s)
  unfolding add_metric
  Yields-add_metric m n = record {
    at = λ w p. (refl, record { of_db = p.of_db; of_settled = p.of_settled });
  }

  pub Yields-settle : (x : Settlement) → Yields e (On C s) (settle x) tt (On C (x ∷ s))
  unfolding settle
  Yields-settle x = record {
    at = λ w p. (refl, record { of_db = p.of_db; of_settled = ap (λ l. x ∷ l) p.of_settled });
  }
