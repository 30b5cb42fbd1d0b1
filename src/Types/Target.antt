-- ===== src/Types/Target.antt =====
-- `S3Target` of src/types/mod.rs.
pub mod Laws
use Prim.Native.Char.{Char, code}
use s3rm_rs.Base.{
  Bool, true, false, Option, none, some, String, ◌<>◌, Result, ok, err, ◌==◌, str_eq, if◌then◌else◌,
}
use s3rm_rs.Types.Error.{Error, s3rm, invalid_uri}

pub record S3Target : Type 0 where
  pub bucket : String
  pub prefix : Option String
  pub endpoint : Option String
  pub region : Option String

-- `starts_with` and the slice behind it: the rest of the text after a prefix.
unfoldable pub strip_prefix : String → String → Option String
strip_prefix String.[] s = some s
strip_prefix (String.◌∷◌ c p) String.[] = none
strip_prefix (String.◌∷◌ c p) (String.◌∷◌ d s) =
    let rest = strip_prefix p s in if code c == code d then rest else none

abbrev push : Char → Option (String × String) → Option (String × String)
push c none = none
push c (some (a, b)) = some (String.◌∷◌ c a, b)

-- The slices before and behind `find('/')`.
unfoldable pub split_slash : String → Option (String × String)
split_slash String.[] = none
split_slash (String.◌∷◌ c s) =
    let rest = push c (split_slash s) in if code c == b'/' then some (String.[], s) else rest

-- `ends_with`
unfoldable pub ends_with : String → String → Bool
ends_with String.[] p = str_eq String.[] p
ends_with (String.◌∷◌ c s) p =
    let behind = ends_with s p in if str_eq (String.◌∷◌ c s) p then true else behind

unfoldable pub is_empty : String → Bool
is_empty String.[] = true
is_empty (String.◌∷◌ c s) = false

unfoldable pub non_empty : String → Option String
unfolding is_empty
non_empty s = if is_empty s then none else some s

-- The bucket, and the prefix if there is one that is not empty.
unfoldable pub split_target : String → String × Option String
unfolding split_slash non_empty
split_target s = elim (split_slash s) [
  | some (bucket, prefix) ↦ (bucket, non_empty prefix)
  | none ↦ (s, none)
]

abbrev bad_scheme : String → Error
bad_scheme uri = s3rm (invalid_uri ("Target URI must start with 's3://': " <> uri))

abbrev no_bucket : String → Error
no_bucket uri = s3rm (invalid_uri ("Bucket name cannot be empty: " <> uri))

unfoldable pub checked : String → String × Option String → Result S3Target Error
unfolding is_empty
checked uri (bucket, prefix) =
    if is_empty bucket
    then err (no_bucket uri)
    else ok (record { bucket = bucket; prefix = prefix; endpoint = none; region = none })

-- What follows the scheme.
unfoldable pub parse_rest : String → String → Result S3Target Error
unfolding checked split_target
parse_rest uri rest = if is_empty rest then err (no_bucket uri) else checked uri (split_target rest)

-- `S3Target::parse`
unfoldable pub parse : String → Result S3Target Error
unfolding strip_prefix parse_rest
parse uri = elim (strip_prefix "s3://" uri) [
  | none ↦ err (bad_scheme uri)
  | some rest ↦ parse_rest uri rest
]

abbrev display_prefix : String → Option String → String
display_prefix bucket (some prefix) = "s3://" <> (bucket <> ("/" <> prefix))
display_prefix bucket none = "s3://" <> bucket

-- `Display`
unfoldable pub display : S3Target → String
display t = display_prefix t.bucket t.prefix
