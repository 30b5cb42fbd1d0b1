-- ===== src/Pipeline/Main/Laws.antt =====
-- The exit codes of src/bin/s3rm/main.rs.
use s3rm_rs.Base.{
  ℕ, ◌≤◌, ◌<◌, Bool, true, false, ◌||◌, ◌≡◌, refl, sym, ap, subst, ◌∙◌, ◌↔◌, ◌⊎◌, inl, inr, List,
  [], ◌∷◌, if◌then◌else◌, arith, Bool-cases, All, ltb,
}
use s3rm_rs.Types.Error.{Error, exit_code_from_error, is_cancelled_error}
use s3rm_rs.Types.Sdk.{Sdk}
use s3rm_rs.Storage.{Storage}
use s3rm_rs.Pipeline.{Pipeline, get_errors_and_consume}
use s3rm_rs.Pipeline.Main.{exit_code_warning, worst_code, max, exit_code_of}

abbrev pub any_cancelled : List Error → Bool
any_cancelled [] = false
any_cancelled (e ∷ errors) = is_cancelled_error e || any_cancelled errors

worst_code-cancelled :
    (c : ℕ) (errors : List Error) → any_cancelled errors ≡ true → worst_code c errors ≡ 0
unfolding worst_code
worst_code-cancelled c [] h = ground arith
worst_code-cancelled c (e ∷ errors) h =
    ground (arith, worst_code-cancelled (max c (exit_code_from_error e)) errors)

-- One of the errors has this code.
abbrev pub HasCode : List Error → ℕ → Type 0
HasCode [] n = ⊥
HasCode (e ∷ errors) n = (n ≡ exit_code_from_error e) ⊎ HasCode errors n

-- The largest of the first code and those of the errors: none of them is above n, and n is one.
pub record Bounds (c : ℕ) (errors : List Error) (n : ℕ) : Type 0 where
  pub first : c ≤ n
  pub each : All (λ e. exit_code_from_error e ≤ n) errors
  pub attained : (n ≡ c) ⊎ HasCode errors n

max-cases : (a b : ℕ) → (max a b ≡ a) ⊎ (max a b ≡ b)
max-cases a b = elim (Bool-cases (ltb a b)) [
  | inl less ↦ inr (rw less refl)
  | inr not_less ↦ inl (rw not_less refl)
]

attained_by :
    (c : ℕ) (e : Error) (errors : List Error) (n : ℕ)
    → (n ≡ max c (exit_code_from_error e)) ⊎ HasCode errors n
    → (n ≡ c) ⊎ HasCode (e ∷ errors) n
attained_by c e errors n (inr there) = inr (inr there)
attained_by c e errors n (inl here) = elim (max-cases c (exit_code_from_error e)) [
  | inl old ↦ inl (here ∙ old)
  | inr new ↦ inr (inl (here ∙ new))
]

worst_code-Bounds :
    (c : ℕ) (errors : List Error)
    → any_cancelled errors ≡ false
    → Bounds c errors (worst_code c errors)
unfolding worst_code
worst_code-Bounds c [] h = record { first = omega arith; each = tt; attained = inl refl }
worst_code-Bounds c (e ∷ errors) h = elim (Bool-cases (is_cancelled_error e)) [
  | inl gone ↦ ground arith
  | inr fault ↦
      let rest = worst_code-Bounds (max c (exit_code_from_error e)) errors (ground arith) in
      rw fault (record {
        first = ground (arith, rest.first);
        each = (ground (arith, rest.first), rest.each);
        attained = attained_by c e errors _ rest.attained;
      })
]

worst_code-0 :
    (c : ℕ) (errors : List Error) → 0 < c → worst_code c errors ≡ 0 → any_cancelled errors ≡ true
worst_code-0 c errors positive zero = elim (Bool-cases (any_cancelled errors)) [
  | inl gone ↦ gone
  | inr fault ↦ ground (arith, Bounds.first (worst_code-Bounds c errors fault))
]

module _ (x : Sdk) (t : Storage) where
  -- A run without errors and warnings.
  pub record IsClean (p : Pipeline x t) : Type 0 where
    pub no_error : p.has_error ≡ false
    pub no_warning : p.has_warning ≡ false

  -- A run that failed without a panic, with a cancellation among its errors.
  pub record IsGivenUp (p : Pipeline x t) : Type 0 where
    pub has_error : p.has_error ≡ true
    pub no_panic : p.has_panic ≡ false
    pub given_up : any_cancelled p.errors ≡ true

  failed-IsGivenUp :
      (p : Pipeline x t)
      → p.has_error ≡ true
      → (if p.has_panic then 101 else worst_code 1 p.errors) ≡ 0
      → IsGivenUp p
  failed-IsGivenUp p bad zero = elim (Bool-cases p.has_panic) [
    | inl panics ↦ ground arith
    | inr calm ↦ record {
      has_error = bad;
      no_panic = calm;
      given_up = worst_code-0 1 p.errors (omega arith) (ground arith);
    }
  ]

  quiet : {b : Bool} → (if b then exit_code_warning else 0) ≡ 0 → b ≡ false
  quiet {b} e = ground arith

  failed_code :
      (p : Pipeline x t)
      → p.has_error ≡ true
      → exit_code_of x t false false p ≡ (if p.has_panic then 101 else worst_code 1 p.errors)
  unfolding exit_code_of get_errors_and_consume
  failed_code p bad = rw bad refl

  passed_code :
      (p : Pipeline x t)
      → p.has_error ≡ false
      → exit_code_of x t false false p ≡ (if p.has_warning then 3 else 0)
  unfolding exit_code_of
  passed_code p good = rw good refl

  clean_code : (p : Pipeline x t) → IsClean p → exit_code_of x t false false p ≡ 0
  clean_code p h = passed_code p h.no_error ∙ ap (λ b. if b then 3 else 0) h.no_warning

  given_up_code : (p : Pipeline x t) → IsGivenUp p → exit_code_of x t false false p ≡ 0
  given_up_code p h =
      failed_code p h.has_error
      ∙ ap (λ b. if b then 101 else worst_code 1 p.errors) h.no_panic
      ∙ worst_code-cancelled 1 p.errors h.given_up

  -- The exit code of a run is 0 exactly if the progress indicator did not panic, Ctrl-C was not
  -- pressed, and the run was either clean or failed without a panic and with a cancellation among its
  -- errors.
  pub exit_code_of-0 :
      (indicator_panicked is_ctrl_c_received : Bool) (p : Pipeline x t)
      → exit_code_of x t indicator_panicked is_ctrl_c_received p ≡ 0
        ↔ (indicator_panicked ≡ false) × (is_ctrl_c_received ≡ false) × (IsClean p ⊎ IsGivenUp p)
  unfolding exit_code_of get_errors_and_consume
  exit_code_of-0 true c p = (λ e. ground arith, λ e. ground arith)
  exit_code_of-0 false true p = (λ e. ground arith, λ e. ground arith)
  exit_code_of-0 false false p = (
    λ zero. (
      refl,
      refl,
      elim (Bool-cases p.has_error) [
        | inl bad ↦ inr (failed-IsGivenUp p bad (sym (failed_code p bad) ∙ zero))
        | inr good ↦
            inl (record { no_error = good; no_warning = quiet (sym (passed_code p good) ∙ zero) })
      ],
    ),
    λ h. elim h.2 [ inl clean ↦ clean_code p clean | inr given_up ↦ given_up_code p given_up ],
  )

  -- A run that failed without a panic, with no cancellation among its errors, and was not interrupted
  -- gives as exit code the largest of 1 and the codes of its errors.
  pub exit_code_of-Bounds :
      (p : Pipeline x t)
      → p.has_error ≡ true
      → p.has_panic ≡ false
      → any_cancelled p.errors ≡ false
      → Bounds 1 p.errors (exit_code_of x t false false p)
  exit_code_of-Bounds p bad calm fault =
      subst (Bounds 1 p.errors)
        (sym (failed_code p bad ∙ ap (λ b. if b then 101 else worst_code 1 p.errors) calm))
        (worst_code-Bounds 1 p.errors fault)
