-- ===== src/Types/Error.antt =====
-- `S3rmError` of src/types/error.rs, and the errors that `anyhow` carries.
use s3rm_rs.Base.{
  ℕ, zero, suc, Bool, true, false, Option, none, some, String, ◌<>◌, ◌||◌, ◌==◌, ◌+◌, ◌/◌, ◌%◌, ltb,
  if◌then◌else◌, one_of, [], ◌∷◌,
}

pub data S3rmError : Type 0 where
  aws_sdk invalid_config invalid_uri invalid_regex lua_script io : String → S3rmError
  cancelled : S3rmError
  partial_failure : ℕ → ℕ → S3rmError
  pipeline : String → S3rmError

unfoldable pub exit_code : S3rmError → ℕ
exit_code cancelled = 0
exit_code (invalid_config m) = 2
exit_code (invalid_uri m) = 2
exit_code (invalid_regex m) = 2
exit_code (partial_failure d f) = 3
exit_code _ = 1

unfoldable pub is_retryable : S3rmError → Bool
is_retryable (aws_sdk m) = true
is_retryable _ = false

-- What an S3 service error tells: the code and message of the response, whether it is the
-- operation's `NotFound` variant, the HTTP status, and its own text.
pub record ServiceError : Type 0 where
  pub code : Option String
  pub message : Option String
  pub is_not_found : Bool
  pub status : ℕ
  pub text : String

-- `SdkError`: a service error, or a failure with no S3 response, of which only the text is known.
pub data SdkError : Type 0 where
  service : ServiceError → SdkError
  no_response : String → SdkError

pub data Operation : Type 0 where
  head_object get_object_tagging delete_object delete_objects : Operation
  list_objects_v2 list_object_versions get_bucket_versioning : Operation

-- `anyhow::Error`: the error that was raised, under the contexts that were added to it.
pub data Error : Type 0 where
  s3rm : S3rmError → Error
  sdk : Operation → SdkError → Error
  message : String → Error
  context : String → Error → Error

abbrev digit : ℕ → String
digit zero = "0"
digit (suc zero) = "1"
digit (suc (suc zero)) = "2"
digit (suc (suc (suc zero))) = "3"
digit (suc (suc (suc (suc zero)))) = "4"
digit (suc (suc (suc (suc (suc zero))))) = "5"
digit (suc (suc (suc (suc (suc (suc zero)))))) = "6"
digit (suc (suc (suc (suc (suc (suc (suc zero))))))) = "7"
digit (suc (suc (suc (suc (suc (suc (suc (suc zero)))))))) = "8"
digit _ = "9"

-- A number has at most as many digits as its value plus one.
digits_from : ℕ → ℕ → String
digits_from zero n = ""
digits_from (suc fuel) n =
    let rest = digits_from fuel (n / 10) <> digit (n % 10) in if ltb n 10 then digit n else rest

-- `{}` of a number, in decimal.
unfoldable pub digits : ℕ → String
unfolding digits_from
digits n = digits_from (n + 1) n

-- `Display` of `S3rmError`, which `thiserror` derives.
unfoldable pub display : S3rmError → String
display (aws_sdk m) = "AWS SDK error: " <> m
display (invalid_config m) = "Invalid configuration: " <> m
display (invalid_uri m) = "Invalid S3 URI: " <> m
display (invalid_regex m) = "Invalid regex pattern: " <> m
display (lua_script m) = "Lua script error: " <> m
display (io m) = "I/O error: " <> m
display cancelled = "Operation cancelled by user"
display (partial_failure d f) =
    "Partial failure: " <> (digits d <> (" deleted, " <> (digits f <> " failed")))
display (pipeline m) = "Pipeline error: " <> m

abbrev sdk_text : SdkError → String
sdk_text (service e) = e.text
sdk_text (no_response m) = m

-- `e.to_string()`: the outermost context.
unfoldable pub to_string : Error → String
unfolding display
to_string (s3rm e) = display e
to_string (sdk op e) = sdk_text e
to_string (message m) = m
to_string (context c e) = c

-- `format!("{:#}", e)`: the contexts and the error, joined.
unfoldable pub alternate : Error → String
unfolding display
alternate (s3rm e) = display e
alternate (sdk op e) = sdk_text e
alternate (message m) = m
alternate (context c e) = c <> (": " <> alternate e)

-- `e.downcast_ref::<S3rmError>()`, which looks under contexts.
unfoldable pub downcast_s3rm : Error → Option S3rmError
downcast_s3rm (s3rm e) = some e
downcast_s3rm (sdk op e) = none
downcast_s3rm (message m) = none
downcast_s3rm (context c e) = downcast_s3rm e

abbrev is_cancelled : S3rmError → Bool
is_cancelled cancelled = true
is_cancelled _ = false

unfoldable pub is_cancelled_error : Error → Bool
is_cancelled_error e = elim (downcast_s3rm e) [ none ↦ false | some x ↦ is_cancelled x ]

unfoldable pub exit_code_from_error : Error → ℕ
exit_code_from_error e = elim (downcast_s3rm e) [ none ↦ 1 | some x ↦ exit_code x ]

-- The code in an `SdkError` of DeleteObject.
abbrev service_code : Operation → SdkError → Option String
service_code delete_object (service e) = e.code
service_code _ _ = none

-- `extract_delete_object_error_code` of src/deleter/single.rs: the loop over `err.chain()`.
unfoldable pub extract_delete_object_error_code : Error → String
extract_delete_object_error_code (s3rm e) = "unknown"
extract_delete_object_error_code (message m) = "unknown"
extract_delete_object_error_code (context c e) = extract_delete_object_error_code e
extract_delete_object_error_code (sdk op e) = elim (service_code op e) [
  | none ↦ "unknown"
  | some code ↦ code
]

abbrev pub has_not_found_code : Option String → Bool
has_not_found_code none = false
has_not_found_code (some code) = one_of code ("NoSuchKey" ∷ "NotFound" ∷ [])

abbrev is_not_found : Operation → SdkError → Bool
is_not_found head_object (service e) = e.is_not_found
is_not_found get_object_tagging (service e) = has_not_found_code e.code || (e.status == 404)
is_not_found _ _ = false

-- `is_not_found_error` of src/deleter/mod.rs: the two downcasts.
unfoldable pub is_not_found_error : Error → Bool
is_not_found_error (s3rm e) = false
is_not_found_error (sdk op e) = is_not_found op e
is_not_found_error (message m) = false
is_not_found_error (context c e) = is_not_found_error e
