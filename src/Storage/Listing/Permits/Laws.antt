-- ===== src/Storage/Listing/Permits/Laws.antt =====
-- The tasks of `list_with_parallel` (src/storage/s3/mod.rs) never wait for each other's permits.
use s3rm_rs.Base.{ℕ, zero, suc, ◌+◌, ◌≤◌, ◌≡◌, refl, ◌⊎◌, inl, inr, Bool, true, false, arith}
use s3rm_rs.Storage.Listing.Permits.{
  Task, Tasks, listing, spawning, joining, ended, nil, cons, held, held_all, AllWell, HasFailed,
  here, there, Step, Steps, found, end, release, acquire, spawned, joined, failed, below_spawning,
  below_joining, cancelled, first, other, Reaches, start, step,
}

abbrev IsNil : Tasks → Type 0
IsNil nil = Unit
IsNil (cons t tasks) = ⊥

-- A task that still holds its permit has started no child.
mutual
  IsThrifty : Task → Type 0
  IsThrifty (listing h) = Unit
  IsThrifty (spawning true n tasks) = IsNil tasks
  IsThrifty (spawning false n tasks) = AreThrifty tasks
  IsThrifty (joining true tasks) = IsNil tasks
  IsThrifty (joining false tasks) = AreThrifty tasks
  IsThrifty (ended error) = Unit

  AreThrifty : Tasks → Type 0
  AreThrifty nil = Unit
  AreThrifty (cons t tasks) = IsThrifty t × AreThrifty tasks

IsNil-AreThrifty : (tasks : Tasks) → IsNil tasks → AreThrifty tasks
unfolding AreThrifty
IsNil-AreThrifty nil h = tt
IsNil-AreThrifty (cons t tasks) h = absurd h

Steps-nil : (c : Bool) (a b : ℕ) (tasks tasks' : Tasks) → Steps c a tasks b tasks' → IsNil tasks → ⊥
Steps-nil c a b tasks tasks' (first c' a' b' t t' rest s) i = i
Steps-nil c a b tasks tasks' (other c' a' b' t rest rest' s) i = i

mutual
  unfolding IsThrifty

  Step-IsThrifty : (c : Bool) (a b : ℕ) (t t' : Task) → Step c a t b t' → IsThrifty t → IsThrifty t'
  Step-IsThrifty c a b t t' (found c' a' n true) i = tt
  Step-IsThrifty c a b t t' (found c' a' n false) i = tt
  Step-IsThrifty c a b t t' (end c' a' h f) i = tt
  Step-IsThrifty c a b t t' (release c' a' n tasks) i = IsNil-AreThrifty tasks i
  Step-IsThrifty c a b t t' (acquire c' a' n tasks) i = (tt, i)
  Step-IsThrifty c a b t t' (spawned c' a' true tasks) i = i
  Step-IsThrifty c a b t t' (spawned c' a' false tasks) i = i
  Step-IsThrifty c a b t t' (cancelled a' n true tasks) i = i
  Step-IsThrifty c a b t t' (cancelled a' n false tasks) i = i
  Step-IsThrifty c a b t t' (joined c' a' h tasks w) i = tt
  Step-IsThrifty c a b t t' (failed c' a' h tasks w) i = tt
  Step-IsThrifty c a b t t' (below_spawning c' a' b' n true tasks tasks' s) i =
      absurd (Steps-nil c' a' b' tasks tasks' s i)
  Step-IsThrifty c a b t t' (below_spawning c' a' b' n false tasks tasks' s) i =
      Steps-AreThrifty c' a' b' tasks tasks' s i
  Step-IsThrifty c a b t t' (below_joining c' a' b' true tasks tasks' s) i =
      absurd (Steps-nil c' a' b' tasks tasks' s i)
  Step-IsThrifty c a b t t' (below_joining c' a' b' false tasks tasks' s) i =
      Steps-AreThrifty c' a' b' tasks tasks' s i

  Steps-AreThrifty :
      (c : Bool) (a b : ℕ) (tasks tasks' : Tasks)
      → Steps c a tasks b tasks'
      → AreThrifty tasks
      → AreThrifty tasks'
  Steps-AreThrifty c a b tasks tasks' (first c' a' b' t t' rest s) i =
      (Step-IsThrifty c' a' b' t t' s i.0, i.1)
  Steps-AreThrifty c a b tasks tasks' (other c' a' b' t rest rest' s) i =
      (i.0, Steps-AreThrifty c' a' b' rest rest' s i.1)

AllWell-held : (tasks : Tasks) → AllWell tasks → held_all tasks ≡ 0
unfolding held
AllWell-held nil w = refl
AllWell-held (cons (ended false) tasks) w = omega (arith, AllWell-held tasks w)
AllWell-held (cons (ended true) tasks) w = absurd w
AllWell-held (cons (listing h) tasks) w = absurd w
AllWell-held (cons (spawning h n below) tasks) w = absurd w
AllWell-held (cons (joining h below) tasks) w = absurd w

IsNil-AllWell : (tasks : Tasks) → IsNil tasks → AllWell tasks
IsNil-AllWell nil i = tt
IsNil-AllWell (cons t tasks) i = absurd i

mutual
  unfolding held

  -- The permits that are free and those that are held stay the same in number.
  Step-held : (c : Bool) (a b : ℕ) (t t' : Task) → Step c a t b t' → a + held t ≡ b + held t'
  Step-held c a b t t' (found c' a' n h) = omega arith
  Step-held c a b t t' (end c' a' h f) = omega arith
  Step-held c a b t t' (release c' a' n tasks) = omega arith
  Step-held c a b t t' (acquire c' a' n tasks) = omega arith
  Step-held c a b t t' (spawned c' a' h tasks) = omega arith
  Step-held c a b t t' (cancelled a' n h tasks) = omega arith
  Step-held c a b t t' (joined c' a' h tasks w) = omega (arith, AllWell-held tasks w)
  Step-held c a b t t' (failed c' a' h tasks w) = omega arith
  Step-held c a b t t' (below_spawning c' a' b' n h tasks tasks' s) =
      omega (arith, Steps-held c' a' b' tasks tasks' s)
  Step-held c a b t t' (below_joining c' a' b' h tasks tasks' s) =
      omega (arith, Steps-held c' a' b' tasks tasks' s)

  Steps-held :
      (c : Bool) (a b : ℕ) (tasks tasks' : Tasks)
      → Steps c a tasks b tasks'
      → a + held_all tasks ≡ b + held_all tasks'
  Steps-held c a b tasks tasks' (first c' a' b' t t' rest s) =
      omega (arith, Step-held c' a' b' t t' s)
  Steps-held c a b tasks tasks' (other c' a' b' t rest rest' s) =
      omega (arith, Steps-held c' a' b' rest rest' s)

zero-cases : (n : ℕ) → (n ≡ 0) ⊎ (1 ≤ n)
zero-cases zero = inl refl
zero-cases (suc n) = inr (omega arith)

module _ (c : Bool) where
  -- A step that a task can do.
  abbrev pub Moves : ℕ → Task → Type 0
  Moves a t = (b : ℕ) × (t' : Task) × Step c a t b t'

  abbrev Move : ℕ → Tasks → Type 0
  Move a tasks = (b : ℕ) × (tasks' : Tasks) × Steps c a tasks b tasks'

  first-Move : (a : ℕ) (t : Task) (tasks : Tasks) → Moves a t → Move a (cons t tasks)
  first-Move a t tasks (b, t', s) = (b, _, first c a b t t' tasks s)

  other-Move : (a : ℕ) (t : Task) (tasks : Tasks) → Move a tasks → Move a (cons t tasks)
  other-Move a t tasks (b, tasks', s) = (b, _, other c a b t tasks tasks' s)

  mutual
    unfolding IsThrifty held

    -- If a task or one below it holds a permit, one of them can move, even if no permit is free.
    held-Moves : (a : ℕ) (t : Task) → IsThrifty t → 1 ≤ held t → Moves a t
    held-Moves a (listing h) i m = (_, _, end c a h false)
    held-Moves a (spawning true zero tasks) i m = (_, _, spawned c a true tasks)
    held-Moves a (spawning true (suc n) tasks) i m = (_, _, release c a n tasks)
    held-Moves a (spawning false n tasks) i m =
        let (b, tasks', s) = held_all-Move a tasks i (omega (arith, m)) in
        (b, _, below_spawning c a b n false tasks tasks' s)
    held-Moves a (joining true tasks) i m = (_, _, joined c a true tasks (IsNil-AllWell tasks i))
    held-Moves a (joining false tasks) i m =
        let (b, tasks', s) = held_all-Move a tasks i (omega (arith, m)) in
        (b, _, below_joining c a b false tasks tasks' s)
    held-Moves a (ended error) i m = absurd (omega (arith, m))

    held_all-Move : (a : ℕ) (tasks : Tasks) → AreThrifty tasks → 1 ≤ held_all tasks → Move a tasks
    held_all-Move a nil i m = absurd (omega (arith, m))
    held_all-Move a (cons t tasks) i m = elim (zero-cases (held t)) [
      | inr some_held ↦ first-Move a t tasks (held-Moves a t i.0 some_held)
      | inl none_held ↦
          other-Move a t tasks (held_all-Move a tasks i.1 (omega (arith, m, none_held)))
    ]

  -- What is left of the tasks that a task joins: all have ended well, one has failed, or one moves.
  abbrev Left : ℕ → Tasks → Type 0
  Left a tasks = AllWell tasks ⊎ (HasFailed tasks ⊎ Move (suc a) tasks)

  abbrev HasEnded : Task → Type 0
  HasEnded t = (error : Bool) × (t ≡ ended error)

  cons-Left :
      (a : ℕ) (t : Task) (tasks : Tasks)
      → HasEnded t ⊎ Moves (suc a) t
      → Left a tasks
      → Left a (cons t tasks)
  cons-Left a t tasks (inr moves) left = inr (inr (first-Move (suc a) t tasks moves))
  cons-Left a t tasks (inl (true, e)) left = rw e (inr (inl (here tasks)))
  cons-Left a t tasks (inl (false, e)) (inl well) = rw e (inl well)
  cons-Left a t tasks (inl (false, e)) (inr (inl bad)) = inr (inl (there t tasks bad))
  cons-Left a t tasks (inl (false, e)) (inr (inr move)) =
      inr (inr (other-Move (suc a) t tasks move))

  joining-Moves :
      (a : ℕ) (h : Bool) (tasks : Tasks) → Left a tasks → Moves (suc a) (joining h tasks)
  joining-Moves a h tasks (inl well) = (_, _, joined c (suc a) h tasks well)
  joining-Moves a h tasks (inr (inl bad)) = (_, _, failed c (suc a) h tasks bad)
  joining-Moves a h tasks (inr (inr (b, tasks', s))) =
      (b, _, below_joining c (suc a) b h tasks tasks' s)

  mutual
    -- With a free permit, a task has ended or it or one below it can move.
    free-Moves : (a : ℕ) (t : Task) → HasEnded t ⊎ Moves (suc a) t
    free-Moves a (listing h) = inr (_, _, end c (suc a) h false)
    free-Moves a (spawning h zero tasks) = inr (_, _, spawned c (suc a) h tasks)
    free-Moves a (spawning true (suc n) tasks) = inr (_, _, release c (suc a) n tasks)
    free-Moves a (spawning false (suc n) tasks) = inr (_, _, acquire c a n tasks)
    free-Moves a (joining h tasks) = inr (joining-Moves a h tasks (free-Left a tasks))
    free-Moves a (ended error) = inl (error, refl)

    free-Left : (a : ℕ) (tasks : Tasks) → Left a tasks
    free-Left a nil = inl tt
    free-Left a (cons t tasks) = cons-Left a t tasks (free-Moves a t) (free-Left a tasks)

Reaches-IsThrifty : (max a : ℕ) (t : Task) → Reaches max a t → IsThrifty t
unfolding IsThrifty
Reaches-IsThrifty max a t (start free) = tt
Reaches-IsThrifty max a t (step c max' a' b t' t'' r s) =
    Step-IsThrifty c a' b t' t'' s (Reaches-IsThrifty max' a' t' r)

-- At every time the permits that are free and those that the tasks hold are as many as
-- `max_parallel_listings`, so that never more tasks hold one.
pub Reaches-held : (max a : ℕ) (t : Task) → Reaches max a t → a + held t ≡ max
unfolding held
Reaches-held max a t (start free) = omega arith
Reaches-held max a t (step c max' a' b t' t'' r s) =
    omega (arith, Reaches-held max' a' t' r, Step-held c a' b t' t'' s)

Reaches-positive : (max a : ℕ) (t : Task) → Reaches max a t → 1 ≤ max
Reaches-positive max a t (start free) = omega arith
Reaches-positive max a t (step c max' a' b t' t'' r s) = Reaches-positive max' a' t' r

-- The parallel listing never blocks itself: in every state that it reaches, with however few
-- permits, the first task has ended or some task can go on, and neither a cancellation nor an error
-- is needed for that.
pub Reaches-Moves :
    (max a : ℕ) (t : Task) (c : Bool)
    → Reaches max a t
    → ((error : Bool) × (t ≡ ended error)) ⊎ Moves c a t
Reaches-Moves max zero t c r = inr (
    held-Moves c 0 t (Reaches-IsThrifty max 0 t r)
      (omega (arith, Reaches-held max 0 t r, Reaches-positive max 0 t r)))
Reaches-Moves max (suc a) t c r = free-Moves c a t
