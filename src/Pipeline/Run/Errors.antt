-- ===== src/Pipeline/Run/Errors.antt =====
-- The errors of a run of src/pipeline.rs, and the flags that tell of them.
use s3rm_rs.Base.{Bool, true, false, not, ◌&&◌, ◌≡◌, List, [], ◌∷◌}
use s3rm_rs.Types.Error.{Error}
use s3rm_rs.Types.Sdk.{Sdk}
use s3rm_rs.Storage.{Storage}
use s3rm_rs.Pipeline.{Pipeline}

module _ (x : Sdk) (t : Storage) where
  abbrev P : Type 0
  P = Pipeline x t

  abbrev pub is_nil {ℓ} : {A : Type ℓ} → List A → Bool
  is_nil [] = true
  is_nil (a ∷ rest) = false

  -- The error flag is set exactly if an error is recorded, and a panic is an error.
  pub record IsConsistent (p : P) : Type 0 where
    pub flagged : p.has_error ≡ not (is_nil p.errors)
    pub panics : (p.has_panic && not p.has_error) ≡ false
