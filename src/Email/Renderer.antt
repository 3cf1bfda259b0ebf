-- ===== src/Email/Renderer.antt =====
-- internal/worker/email/renderer.go. The regular expressions and `strings` functions are written
-- out over the list of the text's characters.
pub mod Newlines
use Prim.Native.Char.{Char, code}
use text.Mathlib.TextBridge.{of_list}
use emailservice_worker.Prelude.{
  ℕ, zero, suc, ◌+◌, ◌-◌, ◌≡◌, refl, length, String, Bool, true, false, Option, none, some, List,
  [], ◌∷◌, ◌&&◌, ◌||◌, ◌==◌, ◌=ₛ◌, leb, if◌then◌else◌, Text, to_chars, strip_prefix,
}
use emailservice_worker.Effect.Errors.{Result, ok, err, Error}

abbrev pub is_code : ℕ → Char → Bool
is_code n c = code c == n

-- What follows the first '>', if there is one.
unfoldable pub after_gt : Text → Option Text
after_gt [] = none
after_gt (c ∷ s) = if is_code b'>' c then some s else after_gt s

-- `tagRE.ReplaceAllString(html, " ")` for `<[^>]*>`: from each '<' that has a '>' after it, up to
-- the first. The flag says that the characters up to a '>' are inside of a tag.
unfoldable pub strip_tags : Bool → Text → Text
unfolding after_gt
strip_tags inside [] = []
strip_tags true (c ∷ s) = strip_tags (if is_code b'>' c then false else true) s
strip_tags false (c ∷ s) =
    let tag = strip_tags true s in
    let rest = strip_tags false s in
    if is_code b'<' c then elim (after_gt s) [ none ↦ c ∷ rest | some _ ↦ " " ∷ tag ] else c ∷ rest

-- `strings.TrimSpace` trims Unicode's white space.
unfoldable pub is_space : Char → Bool
is_space c =
    let n = code c in
    (leb 9 n && leb n 13)
    || n == 32
    || n == 133
    || n == 160
    || n == 5760
    || (leb 8192 n && leb n 8202)
    || n == 8232
    || n == 8233
    || n == 8239
    || n == 8287
    || n == 12288

abbrev pub is_empty : Text → Bool
is_empty [] = true
is_empty (_ ∷ _) = false

unfoldable pub trim_left : Text → Text
unfolding is_space
trim_left [] = []
trim_left (c ∷ s) = if is_space c then trim_left s else c ∷ s

unfoldable pub trim_right : Text → Text
unfolding is_space
trim_right [] = []
trim_right (c ∷ s) = let rest = trim_right s in if is_space c && is_empty rest then [] else c ∷ rest

unfoldable pub trim_space : Text → Text
unfolding trim_left trim_right
trim_space s = trim_right (trim_left s)

abbrev entities : List (Text × Char)
entities =
    (to_chars "&nbsp;", " ")
    ∷ (to_chars "&amp;", "&")
    ∷ (to_chars "&lt;", "<")
    ∷ (to_chars "&gt;", ">")
    ∷ (to_chars "&quot;", "\"")
    ∷ (to_chars "&#39;", "'")
    ∷ []

-- The first entity that stands at the front: its length and what it is replaced by.
entity_at : List (Text × Char) → Text → Option (ℕ × Char)
unfolding strip_prefix
entity_at [] s = none
entity_at ((p, c) ∷ rest) s = elim (strip_prefix p s) [
  | none ↦ entity_at rest s
  | some _ ↦ some (length p, c)
]

-- `strings.NewReplacer(…).Replace(s)`: what has been replaced is not read again. The number counts
-- the characters of an entity that are still to be passed over.
unfoldable pub replace_entities : ℕ → Text → Text
unfolding entity_at
replace_entities skip [] = []
replace_entities (suc skip) (c ∷ s) = replace_entities skip s
replace_entities zero (c ∷ s) = elim (entity_at entities (c ∷ s)) [
  | none ↦ c ∷ replace_entities zero s
  | some (n, x) ↦ x ∷ replace_entities (n - 1) s
]

-- `[ \t\r\f\v]`
abbrev is_blank : Char → Bool
is_blank c = let n = code c in n == 32 || n == 9 || n == 13 || n == 12 || n == 11

-- `wsRE.ReplaceAllString(s, " ")`: each run of blanks becomes a space. The flag says that the
-- character before was a blank.
unfoldable pub collapse_blanks : Bool → Text → Text
collapse_blanks after [] = []
collapse_blanks after (c ∷ s) =
    let rest = collapse_blanks (is_blank c) s in
    if is_blank c then (if after then rest else " " ∷ rest) else c ∷ rest

-- `emptyRE.ReplaceAllString(s, "\n\n")`: of a run of newlines two are kept. The number counts the
-- newlines before.
unfoldable pub limit_newlines : ℕ → Text → Text
limit_newlines n [] = []
limit_newlines n (c ∷ s) =
    let rest = limit_newlines (if is_code 10 c then n + 1 else 0) s in
    if is_code 10 c && leb 2 n then rest else c ∷ rest

unfoldable pub html_to_text : Text → Text
unfolding strip_tags replace_entities collapse_blanks limit_newlines trim_space
html_to_text html =
    trim_space
      (limit_newlines 0 (collapse_blanks false (replace_entities 0 (strip_tags false html))))

pub record Rendered : Type 0 where
  pub subject : String
  pub html : String
  pub text : String

-- `Renderer.Render`, of the three fields that it reads.
unfoldable pub render : String → String → String → Result Rendered
unfolding html_to_text
render subject html text =
    if html =ₛ "" && text =ₛ ""
    then err (Error.text "renderer: payload has no html or text body")
    else ok (record {
      subject = of_list (trim_space (to_chars subject));
      html = html;
      text = if text =ₛ "" then of_list (html_to_text (to_chars html)) else text;
    })

html_to_text_example :
    html_to_text (to_chars "<p>Tom &amp;amp; <b\n>Jerry</b></p> \t 1 < 2")
    ≡ to_chars "Tom &amp; Jerry 1 < 2"
unfolding html_to_text
html_to_text_example = refl
