-- ===== src/Types/Sdk.antt =====
-- What the library takes from other crates: times (`aws_smithy_types`, `chrono`), regular
-- expressions (`fancy_regex`), URL encoding (`urlencoding`), floats and shells (`clap_complete`).
use s3rm_rs.Base.{Bool, Option, String, Result}
use s3rm_rs.Base.Int.{ℤ}

pub record Sdk : Type 1 where
  pub DateTime : Type 0
  -- `chrono::DateTime<Utc>`
  pub Utc : Type 0
  pub Regex : Type 0
  pub F64 : Type 0
  pub Shell : Type 0
  -- `fmt(DateTimeFormat::DateTime)`
  pub fmt : DateTime → Option String
  pub to_millis : DateTime → Option ℤ
  -- `DateTime::from_millis(m).to_chrono_utc()`
  pub to_chrono_utc : ℤ → Option Utc
  pub lt_utc : Utc → Utc → Bool
  pub le_utc : Utc → Utc → Bool
  -- The engine may fail, such as on its backtracking limit; the error is its text.
  pub is_match : Regex → String → Result Bool String
  pub encode : String → String
