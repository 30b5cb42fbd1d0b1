-- ===== src/Safety/Laws.antt =====
-- `check_before_deletion` of src/safety/mod.rs, on all its branches.
use s3rm_rs.Base.{
  true, false, ◌≡◌, refl, ◌⊎◌, inl, inr, ◌↔◌, Result, ok, err, try, if◌then◌else◌, arith,
  Bool-cases, String, str_eq, eq_iff, ap, sym, ◌∙◌,
}
use s3rm_rs.Types.Error.{Error, s3rm, cancelled}
use s3rm_rs.Safety.{
  SafetyChecker, answer, confirm, prompt_confirmation, is_non_interactive, check_before_deletion,
  non_interactive_error,
}

-- A terminal is there, its output is not JSON, and the user typed exactly "yes".
pub record IsConfirmed (c : SafetyChecker) : Type 0 where
  pub plain : c.json_logging ≡ false
  pub terminal : c.prompt_handler.is_interactive ≡ true
  pub yes : answer c ≡ ok "yes"

confirm-yes : (s : String) → confirm s ≡ ok tt → s ≡ "yes"
confirm-yes s e = elim (Bool-cases (str_eq s "yes")) [
  | inl same ↦ (eq_iff s "yes").0 same
  | inr other ↦ ground arith
]

answered-yes : (r : Result String Error) → try r confirm ≡ ok tt → r ≡ ok "yes"
answered-yes (ok s) e = ap ok (confirm-yes s e)
answered-yes (err x) e = ground arith

prompt_confirmation-yes : (c : SafetyChecker) → answer c ≡ ok "yes" → prompt_confirmation c ≡ ok tt
unfolding prompt_confirmation
prompt_confirmation-yes c e = ap (λ r. try r confirm) e

asked-IsConfirmed :
    (c : SafetyChecker)
    → (if is_non_interactive c then err non_interactive_error else prompt_confirmation c) ≡ ok tt
    → IsConfirmed c
unfolding is_non_interactive prompt_confirmation
asked-IsConfirmed c e = elim (Bool-cases c.json_logging) [
  | inl json ↦ ground arith
  | inr plain ↦ elim (Bool-cases c.prompt_handler.is_interactive) [
    | inl terminal ↦ record {
      plain = plain;
      terminal = terminal;
      yes = answered-yes (answer c) (ground arith);
    }
    | inr closed ↦ ground arith
  ]
]

-- Without `--dry-run` and `--force` the user is asked.
asked :
    (c : SafetyChecker)
    → c.dry_run ≡ false
    → c.force ≡ false
    → (if is_non_interactive c then err non_interactive_error else prompt_confirmation c)
      ≡ check_before_deletion c
unfolding check_before_deletion
asked c real asks = rw (real, asks) refl

confirmed-interactive : (c : SafetyChecker) → IsConfirmed c → is_non_interactive c ≡ false
unfolding is_non_interactive
confirmed-interactive c h = rw (h.plain, h.terminal) refl

asked-Ok :
    (c : SafetyChecker)
    → c.dry_run ≡ false
    → c.force ≡ false
    → (c.dry_run ≡ true) ⊎ (c.force ≡ true) ⊎ IsConfirmed c
    → (if is_non_interactive c then err non_interactive_error else prompt_confirmation c) ≡ ok tt
asked-Ok c real asks (inl dry) = ground arith
asked-Ok c real asks (inr (inl forced)) = ground arith
asked-Ok c real asks (inr (inr h)) =
    rw (confirmed-interactive c h) (prompt_confirmation-yes c h.yes)

-- The checker lets a deletion go on exactly if it is a dry run, or `--force` is set, or there is a
-- terminal, its output is not JSON and the user typed exactly "yes" at the prompt.
pub check_before_deletion-proceeds :
    (c : SafetyChecker)
    → check_before_deletion c ≡ ok tt ↔ (c.dry_run ≡ true) ⊎ (c.force ≡ true) ⊎ IsConfirmed c
unfolding check_before_deletion
check_before_deletion-proceeds c = elim (Bool-cases c.dry_run) [
  | inl dry ↦ (λ e. inl dry, λ reason. rw dry refl)
  | inr real ↦ elim (Bool-cases c.force) [
    | inl forced ↦ (λ e. inr (inl forced), λ reason. rw (real, forced) refl)
    | inr asks ↦ (
      λ e. inr (inr (asked-IsConfirmed c (asked c real asks ∙ e))),
      λ reason. sym (asked c real asks) ∙ asked-Ok c real asks reason,
    )
  ]
]

confirm-Err : (s : String) (e : Error) → confirm s ≡ err e → e ≡ s3rm cancelled
confirm-Err s e h = elim (Bool-cases (str_eq s "yes")) [
  | inl same ↦ ground arith
  | inr other ↦ ground arith
]

answered-Err :
    (r : Result String Error) (e : Error)
    → try r confirm ≡ err e
    → (e ≡ s3rm cancelled) ⊎ (r ≡ err e)
answered-Err (ok s) e h = inl (confirm-Err s e h)
answered-Err (err f) e h = inr (ground arith)

-- What stops a deletion: nobody can be asked, the user did not type "yes", or the prompt failed.
pub Refusal : SafetyChecker → Error → Type 0
Refusal c e =
    ((is_non_interactive c ≡ true) × (e ≡ non_interactive_error))
    ⊎ ((is_non_interactive c ≡ false) × ((e ≡ s3rm cancelled) ⊎ (answer c ≡ err e)))

asked-Refusal :
    (c : SafetyChecker) (e : Error)
    → (if is_non_interactive c then err non_interactive_error else prompt_confirmation c) ≡ err e
    → Refusal c e
unfolding Refusal prompt_confirmation
asked-Refusal c e h = elim (Bool-cases (is_non_interactive c)) [
  | inl closed ↦ inl (closed, ground arith)
  | inr terminal ↦ inr (terminal, answered-Err (answer c) e (ground arith))
]

-- If the checker stops a deletion, it is no dry run, `--force` is not set, and the error is that of a
-- place where nobody can be asked, a cancellation at the prompt, or the error of the prompt itself.
pub check_before_deletion-Refusal :
    (c : SafetyChecker) (e : Error)
    → check_before_deletion c ≡ err e
    → (c.dry_run ≡ false) × (c.force ≡ false) × Refusal c e
check_before_deletion-Refusal c e h = elim (Bool-cases c.dry_run) [
  | inl dry ↦ absurd (ground (arith, (check_before_deletion-proceeds c).1 (inl dry)))
  | inr real ↦ elim (Bool-cases c.force) [
    | inl forced ↦ absurd (ground (arith, (check_before_deletion-proceeds c).1 (inr (inl forced))))
    | inr asks ↦ (real, asks, asked-Refusal c e (asked c real asks ∙ h))
  ]
]
