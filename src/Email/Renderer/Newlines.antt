-- ===== src/Email/Renderer/Newlines.antt =====
-- The newlines in the plain text of internal/worker/email/renderer.go.
use Prim.Native.Char.{Char}
use emailservice_worker.Prelude.{
  ℕ, ◌+◌, ◌≤◌, ◌≡◌, refl, inl, inr, min, Bool, true, false, ◌&&◌, [], ◌∷◌, arith, leb,
  if◌then◌else◌, Bool-cases,
}
use emailservice_worker.Email.Renderer.{
  Text, is_space, trim_left, trim_right, trim_space, strip_tags, replace_entities, collapse_blanks,
  limit_newlines, html_to_text, is_code,
}

-- At most two newlines in a row, with `n` of them before.
unfoldable pub runs_ok : ℕ → Text → Bool
runs_ok n [] = true
runs_ok n (c ∷ s) = if is_code 10 c then leb (n + 1) 2 && runs_ok (n + 1) s else runs_ok 0 s

runs_ok_mono : (n m : ℕ) (s : Text) → m ≤ n → runs_ok n s ≡ true → runs_ok m s ≡ true
unfolding runs_ok
runs_ok_mono n m [] le h = refl
runs_ok_mono n m (c ∷ s) le h =
    ground (arith, h, le, runs_ok_mono (n + 1) (m + 1) s (omega (arith, le)))

runs_ok-tail : (n : ℕ) (c : Char) (s : Text) → runs_ok n (c ∷ s) ≡ true → runs_ok 0 s ≡ true
unfolding runs_ok
runs_ok-tail n c s h = ground (arith, h, runs_ok_mono (n + 1) 0 s (omega arith))

runs_ok-limit_newlines : (n : ℕ) (s : Text) → runs_ok (min n 2) (limit_newlines n s) ≡ true
unfolding runs_ok limit_newlines
runs_ok-limit_newlines n [] = refl
runs_ok-limit_newlines n (c ∷ s) =
    ground (arith, runs_ok-limit_newlines (n + 1) s, runs_ok-limit_newlines 0 s)

runs_ok-trim_left : (s : Text) → runs_ok 0 s ≡ true → runs_ok 0 (trim_left s) ≡ true
unfolding trim_left
runs_ok-trim_left [] h = h
runs_ok-trim_left (c ∷ s) h = elim (Bool-cases (is_space c)) [
  | inl space ↦ rw space (runs_ok-trim_left s (runs_ok-tail 0 c s h))
  | inr other ↦ rw other h
]

runs_ok-trim_right : (n : ℕ) (s : Text) → runs_ok n s ≡ true → runs_ok n (trim_right s) ≡ true
unfolding trim_right runs_ok
runs_ok-trim_right n [] h = refl
runs_ok-trim_right n (c ∷ s) h =
    ground (arith, h, runs_ok-trim_right (n + 1) s, runs_ok-trim_right 0 s)

-- Whatever the HTML, its plain text never has three newlines in a row.
pub runs_ok-html_to_text : (html : Text) → runs_ok 0 (html_to_text html) ≡ true
unfolding html_to_text trim_space
runs_ok-html_to_text html =
    let body = collapse_blanks false (replace_entities 0 (strip_tags false html)) in
    runs_ok-trim_right 0 _ (runs_ok-trim_left _ (runs_ok-limit_newlines 0 body))
