-- ===== src/Tests/Permits.antt =====
-- Runs of the tasks of the parallel listing.
use s3rm_rs.Base.{◌+◌, ◌≡◌, ◌⊎◌, Bool, true, false}
use s3rm_rs.Storage.Listing.Permits.{
  Task, listing, spawning, joining, ended, nil, cons, held, found, end, release, acquire, spawned,
  joined, below_spawning, below_joining, first, Reaches, start, step,
}
use s3rm_rs.Storage.Listing.Permits.Laws.{Moves, Reaches-held, Reaches-Moves}

-- One permit in all: the first task has found two prefixes and has started a task for the first.
abbrev one_child : Task
one_child = spawning false 1 (cons (listing true) nil)

one_child-Reaches : Reaches 1 0 one_child
one_child-Reaches =
    step false 1 1 0 _ _
      (step false 1 0 1 _ _ (step false 1 0 0 _ _ (start 0) (found false 0 1 true))
        (release false 0 1 nil))
      (acquire false 0 1 nil)

-- The child finds a prefix, starts a task for it, and joins it: it lists on without a permit.
abbrev child_without : Task
child_without = spawning false 1 (cons (listing false) nil)

abbrev grandchild : Task
grandchild = spawning false 1 (cons (joining false (cons (listing true) nil)) nil)

grandchild-Reaches : Reaches 1 0 grandchild
grandchild-Reaches =
    step false 1 0 0 _ _
      (step false 1 1 0 _ _
        (step false 1 0 1 _ _
          (step false 1 0 0 _ _ one_child-Reaches
            (below_spawning false 0 0 1 false _ _ (first false 0 0 _ _ nil (found false 0 0 true))))
          (below_spawning false 0 1 1 false _ _ (first false 0 1 _ _ nil (release false 0 0 nil))))
        (below_spawning false 1 0 1 false _ _ (first false 1 0 _ _ nil (acquire false 0 0 nil))))
      (below_spawning false 0 0 1 false _ _
        (first false 0 0 _ _ nil (spawned false 0 false (cons (listing true) nil))))

child_without-Reaches : Reaches 1 1 child_without
child_without-Reaches =
    step false 1 1 1 _ _
      (step false 1 0 1 _ _ grandchild-Reaches (
        below_spawning false 0 1 1 false _ _ (
          first false 0 1 _ _ nil (
            below_joining false 0 1 false _ _ (first false 0 1 _ _ nil (end false 0 true false))))))
      (below_spawning false 1 1 1 false _ _
        (first false 1 1 _ _ nil (joined false 1 false (cons (ended false) nil) tt)))

-- The first task then starts one more task, and two tasks list at once with one permit in all.
abbrev two_listers : Task
two_listers = spawning false 0 (cons (listing true) (cons (listing false) nil))

two_listers-Reaches : Reaches 1 0 two_listers
two_listers-Reaches = step false 1 1 0 _ _ child_without-Reaches (acquire false 0 0 _)

Reaches-held_example : 0 + held two_listers ≡ 1
Reaches-held_example = Reaches-held 1 0 two_listers two_listers-Reaches

Reaches-Moves_example : ((error : Bool) × (one_child ≡ ended error)) ⊎ Moves false 0 one_child
Reaches-Moves_example = Reaches-Moves 1 0 one_child false one_child-Reaches
