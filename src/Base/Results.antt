-- ===== src/Base/Results.antt =====
-- Rust's `Result`, and code that changes a state and may fail.
use mathlib.Core.List.{List, [], ◌∷◌}
use mathlib.Core.Path.{◌≡◌, refl}
use mathlib.Core.Logic.{◌⊎◌, inl, inr}
use mathlib.Core.Bool.{Bool, true, false}
use s3rm_rs.Base.Tests.{if◌then◌else◌}

pub data Result {ℓ κ} (A : Type ℓ) (E : Type κ) : Type (ℓ ⊔ κ) where
  ok : A → Result A E
  err : E → Result A E

-- `let x = r?; ..` in code without a state.
abbrev pub try {ℓ κ μ} :
    {A : Type ℓ} {B : Type κ} {E : Type μ} → Result A E → (A → Result B E) → Result B E
try (ok a) f = f a
try (err e) f = err e

-- What a result is: P of its value, or Q of its error.
abbrev pub Settles {ℓ κ μ} :
    {A : Type ℓ} {E : Type κ} → (A → Type μ) → (E → Type μ) → Result A E → Type μ
Settles P Q (ok a) = P a
Settles P Q (err e) = Q e

pub Result-cases {ℓ κ} :
    {A : Type ℓ} {E : Type κ} (r : Result A E) → ((a : A) × (r ≡ ok a)) ⊎ ((e : E) × (r ≡ err e))
Result-cases (ok a) = inl (a, refl)
Result-cases (err e) = inr (e, refl)

pub Settles-cases {ℓ κ μ} :
    {A : Type ℓ} {E : Type κ} (P : A → Type μ) (Q : E → Type μ) (r : Result A E)
    → Settles P Q r
    → ((a : A) × (r ≡ ok a) × P a) ⊎ ((e : E) × (r ≡ err e) × Q e)
Settles-cases P Q (ok a) p = inl (a, refl, p)
Settles-cases P Q (err e) q = inr (e, refl, q)

-- `async fn (&mut self) -> Result<A>`: an error keeps the changes made before it.
abbrev pub M : Type 0 → Type 0 → Type 0 → Type 0
M S E A = S → S × Result A E

abbrev pub and_then : {S E A B : Type 0} → S × Result A E → (A → M S E B) → S × Result B E
and_then (s, ok a) f = f a s
and_then (s, err e) f = (s, err e)

infixl 5 ◌>>=◌ ◌>>◌
abbrev pub ◌>>=◌ : {S E A B : Type 0} → M S E A → (A → M S E B) → M S E B
◌>>=◌ m f s = and_then (m s) f

abbrev pub ◌>>◌ : {S E B : Type 0} → M S E (Unit {0}) → M S E B → M S E B
m >> k = m >>= λ _. k

abbrev pub return : {S E A : Type 0} → A → M S E A
return a s = (s, ok a)

abbrev pub fail : {S E A : Type 0} → E → M S E A
fail e s = (s, err e)

-- A change that cannot fail.
abbrev pub modify : {S E : Type 0} → (S → S) → M S E (Unit {0})
modify f s = (f s, ok tt)

-- `for x in xs { .. }` over a state, with a body that cannot fail.
abbrev pub for_each {ℓ} : {S A : Type ℓ} → (A → S → S) → List A → S → S
for_each f [] s = s
for_each f (x ∷ xs) s = for_each f xs (f x s)

module _ {S E A B : Type 0} where
  -- What holds behind the first part leads to what holds behind both, or the first part fails.
  pub and_then_rule :
      (P Q : S → Type 0) (m : S × Result A E) (f : A → M S E B)
      → P m.0
      → ((a : A) (s : S) → P s → Q (f a s).0)
      → ((s : S) → P s → Q s)
      → Q (and_then m f).0
  and_then_rule P Q (s, ok a) f p next failed = next a s p
  and_then_rule P Q (s, err e) f p next failed = failed s p

module _ {ℓ κ} {S A : Type ℓ} where
  pub for_each_rule :
      (P : S → Type κ) (f : A → S → S)
      → ((a : A) (s : S) → P s → P (f a s))
      → (xs : List A) (s : S) → P s
      → P (for_each f xs s)
  for_each_rule P f keeps [] s p = p
  for_each_rule P f keeps (a ∷ xs) s p = for_each_rule P f keeps xs (f a s) (keeps a s p)

module _ {S E A : Type 0} where
  -- The state behind a part that may fail: P with its answer, or Q.
  abbrev pub Post : (A → S → Type 0) → (S → Type 0) → S × Result A E → Type 0
  Post P Q (s, ok a) = P a s
  Post P Q (s, err e) = Q s

module _ {S E A B : Type 0} where
  pub and_then_post :
      (P : A → S → Type 0) (Q : S → Type 0) (m : S × Result A E) (f : A → M S E B)
      → Post P Q m
      → ((a : A) (s : S) → P a s → Q (f a s).0)
      → Q (and_then m f).0
  and_then_post P Q (s, ok a) f p next = next a s p
  and_then_post P Q (s, err e) f p next = p

module _ {S E A : Type 0} where
  pub Post-weaken :
      (P : A → S → Type 0) (Q R : S → Type 0) (m : S × Result A E)
      → Post P Q m
      → ((s : S) → Q s → R s)
      → Post P R m
  Post-weaken P Q R (s, ok a) p weaker = p
  Post-weaken P Q R (s, err e) p weaker = weaker s p

module _ {S E A : Type 0} where
  pub if-Post :
      (P : A → S → Type 0) (Q : S → Type 0) (b : Bool) (m n : M S E A) (s : S)
      → (b ≡ true → Post P Q (m s))
      → (b ≡ false → Post P Q (n s))
      → Post P Q ((if b then m else n) s)
  if-Post P Q true m n s accept refuse = accept refl
  if-Post P Q false m n s accept refuse = refuse refl

module _ {S E A B : Type 0} where
  pub and_then-Post :
      (P : A → S → Type 0) (R : B → S → Type 0) (Q : S → Type 0) (m : S × Result A E)
      (f : A → M S E B)
      → Post P Q m
      → ((a : A) (s : S) → P a s → Post R Q (f a s))
      → Post R Q (and_then m f)
  and_then-Post P R Q (s, ok a) f p next = next a s p
  and_then-Post P R Q (s, err e) f p next = p

module _ {S E A : Type 0} where
  -- What follows both from the answer's and from the error's condition.
  pub Post-either :
      (P : A → S → Type 0) (Q R : S → Type 0) (m : S × Result A E)
      → Post P Q m
      → ((a : A) (s : S) → P a s → R s)
      → ((s : S) → Q s → R s)
      → R m.0
  Post-either P Q R (s, ok a) p good bad = good a s p
  Post-either P Q R (s, err e) p good bad = bad s p
