-- ===== src/Types/Target/Laws.antt =====
-- Printing a target of src/types/mod.rs and parsing it again.
use Prim.Native.Char.{code}
use text.Mathlib.TextLemmas.{nil-append, cons-append}
use s3rm_rs.Base.{
  ℕ, ◌≡◌, ◌≢◌, refl, ap, ◌∙◌, Bool, true, false, Option, none, some, String, ◌<>◌, ok, ◌==◌,
  if◌then◌else◌, arith, Bool-cases, inl, inr,
}
use s3rm_rs.Types.Target.{
  S3Target, strip_prefix, split_slash, push, is_empty, non_empty, split_target, checked, parse_rest,
  parse, display, display_prefix,
}

equal_code : (n : ℕ) → (n == n) ≡ true
equal_code n = ground arith

strip_prefix-append : (p s : String) → strip_prefix p (p <> s) ≡ some s
unfolding strip_prefix
strip_prefix-append String.[] s = rw (nil-append s) refl
strip_prefix-append (String.◌∷◌ c p) s =
    rw (cons-append c p s, equal_code (code c)) (strip_prefix-append p s)

-- Whether a character of the text is a slash.
abbrev pub has_slash : String → Bool
has_slash String.[] = false
has_slash (String.◌∷◌ c s) = if code c == b'/' then true else has_slash s

split_slash-none : (s : String) → has_slash s ≡ false → split_slash s ≡ none
unfolding split_slash
split_slash-none String.[] h = refl
split_slash-none (String.◌∷◌ c s) h = elim (Bool-cases (code c == b'/')) [
  | inl slash ↦ absurd (ground arith)
  | inr other ↦ rw other (ap (push c) (split_slash-none s (rw other at h)))
]

slash_first : (b : String) → "/" <> b ≡ String.◌∷◌ "/" b
slash_first b = cons-append "/" "" b ∙ ap (String.◌∷◌ "/") (nil-append b)

split_slash-append :
    (a b : String) → has_slash a ≡ false → split_slash (a <> ("/" <> b)) ≡ some (a, b)
unfolding split_slash
split_slash-append String.[] b h = rw (nil-append ("/" <> b), slash_first b) refl
split_slash-append (String.◌∷◌ c a) b h = elim (Bool-cases (code c == b'/')) [
  | inl slash ↦ absurd (ground arith)
  | inr other ↦
      rw (cons-append c a ("/" <> b), other) (ap (push c) (split_slash-append a b (rw other at h)))
]

-- A target that a URI can name: its bucket is not empty and has no slash, and a prefix is not empty.
pub record IsPlain (t : S3Target) : Type 0 where
  pub bucket : is_empty t.bucket ≡ false
  pub slashes : has_slash t.bucket ≡ false
  pub prefix : t.prefix ≢ some ""

abbrev rest_of : String → Option String → String
rest_of bucket none = bucket
rest_of bucket (some prefix) = bucket <> ("/" <> prefix)

display_prefix_lem :
    (bucket : String) (o : Option String) → display_prefix bucket o ≡ "s3://" <> rest_of bucket o
display_prefix_lem bucket none = refl
display_prefix_lem bucket (some prefix) = refl

split_target-rest :
    (bucket : String) (o : Option String)
    → has_slash bucket ≡ false
    → o ≢ some ""
    → split_target (rest_of bucket o) ≡ (bucket, o)
unfolding split_target non_empty is_empty
split_target-rest bucket none h n = rw (split_slash-none bucket h, split_target) refl
split_target-rest bucket (some String.[]) h n = absurd (n refl)
split_target-rest bucket (some (String.◌∷◌ c p)) h n =
    rw (split_slash-append bucket (String.◌∷◌ c p) h, split_target) refl

rest_of-nonempty :
    (bucket : String) (o : Option String)
    → is_empty bucket ≡ false
    → is_empty (rest_of bucket o) ≡ false
unfolding is_empty
rest_of-nonempty bucket none h = h
rest_of-nonempty String.[] (some p) h = absurd (ground arith)
rest_of-nonempty (String.◌∷◌ c b) (some p) h = rw (cons-append c b ("/" <> p)) refl

parse_rest_lem :
    (uri bucket : String) (o : Option String)
    → is_empty bucket ≡ false
    → has_slash bucket ≡ false
    → o ≢ some ""
    → parse_rest uri (rest_of bucket o)
      ≡ ok (record { bucket = bucket; prefix = o; endpoint = none; region = none })
unfolding parse_rest checked
parse_rest_lem uri bucket o full h n =
    rw (rest_of-nonempty bucket o full, split_target-rest bucket o h n, full) refl

-- Printing a target that a URI can name and parsing the text gives the target back, without its
-- endpoint and region, which are not printed.
pub parse-display :
    (t : S3Target)
    → IsPlain t
    → parse (display t) ≡ ok (record t { endpoint = none; region = none })
unfolding parse display
parse-display t h =
    rw
      (
        display_prefix_lem t.bucket t.prefix,
        strip_prefix-append "s3://" (rest_of t.bucket t.prefix),
        parse,
      )
      (parse_rest_lem (display t) t.bucket t.prefix h.bucket h.slashes h.prefix)
