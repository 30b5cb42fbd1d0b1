-- ===== src/Deleter/Backend/Chunks.antt =====
-- The chunks of a batch delete (src/deleter/batch.rs).
use mathlib.Core.List.{flatten}
use s3rm_rs.Base.{
  ℕ, zero, suc, ◌+◌, ◌-◌, ◌≤◌, ◌<◌, ◌≡◌, refl, List, [], ◌∷◌, ◌++◌, append_assoc, length,
  length-append, All, arith, ap, ◌∙◌,
}
use s3rm_rs.Deleter.Backend.{chunks_from, chunks}

module _ {ℓ} {A : Type ℓ} where
  flatten-chunks_from :
      (n room : ℕ) (chunk objects : List A)
      → flatten (chunks_from n room chunk objects) ≡ chunk ++ objects
  unfolding chunks_from flatten
  flatten-chunks_from n room chunk [] = refl
  flatten-chunks_from n zero chunk (o ∷ objects) =
      ap (◌++◌ chunk) (flatten-chunks_from n (n - 1) (o ∷ []) objects)
  flatten-chunks_from n (suc room) chunk (o ∷ objects) =
      flatten-chunks_from n room (chunk ++ o ∷ []) objects ∙ append_assoc chunk (o ∷ []) objects

  -- The chunks are the objects, in order.
  pub flatten-chunks : (n : ℕ) (objects : List A) → flatten (chunks n objects) ≡ objects
  unfolding chunks flatten
  flatten-chunks n [] = refl
  flatten-chunks n (o ∷ objects) = flatten-chunks_from n (n - 1) (o ∷ []) objects

  abbrev pub Fits : ℕ → List A → Type 0
  Fits n chunk = (0 < length chunk) × (length chunk ≤ n)

  chunks_from-Fits :
      (n room : ℕ) (chunk objects : List A)
      → 0 < length chunk
      → length chunk + room ≡ n
      → All (Fits n) (chunks_from n room chunk objects)
  unfolding chunks_from
  chunks_from-Fits n room chunk [] pos e = ((pos, omega arith), tt)
  chunks_from-Fits n zero chunk (o ∷ objects) pos e =
      ((pos, omega arith), chunks_from-Fits n (n - 1) (o ∷ []) objects (omega arith) (omega arith))
  chunks_from-Fits n (suc room) chunk (o ∷ objects) pos e =
      chunks_from-Fits n room (chunk ++ o ∷ []) objects
        (omega (arith, length-append chunk (o ∷ []))) (omega (arith, length-append chunk (o ∷ [])))

  -- No chunk is empty or larger than asked.
  pub chunks-Fits : (n : ℕ) (objects : List A) → 0 < n → All (Fits n) (chunks n objects)
  unfolding chunks
  chunks-Fits n [] pos = tt
  chunks-Fits n (o ∷ objects) pos =
      chunks_from-Fits n (n - 1) (o ∷ []) objects (omega arith) (omega arith)
