-- ===== src/Tests/Confined.antt =====
-- Runs of delete workers at a target of which only some keys may be deleted.
use s3rm_rs.Base.{
  ℕ, ◌≡◌, refl, Bool, true, false, Option, none, some, String, List, [], ◌∷◌, ◌++◌, map, Result, ok,
  All, one_of,
}
use s3rm_rs.Types.Object
use s3rm_rs.Types.Object.{S3Object}
use s3rm_rs.Types.Error.{Error}
use s3rm_rs.Config.{Config}
use s3rm_rs.Storage.{ObjectIdentifier}
use s3rm_rs.Filters.Chain.{filter_objects}
use s3rm_rs.Deleter.Backend.Confined.{IsConfined, Allowed, Holds}
use s3rm_rs.Deleter.Worker.{receive_and_delete}
use s3rm_rs.Deleter.Worker.Confined.{receive_and_delete-Holds}
use s3rm_rs.Deleter.Selected.{IsChosen, filtered-Holds}
use s3rm_rs.Tests.{sdk, bucket, calm, config, object, world}

-- Every key that is lost is allowed in some version.
module _ (allowed : String → Option String → Type 0) where
  abbrev Lost : List String → Type 0
  Lost s = All (λ k. (v : Option String) × allowed k v) s

  All-Lost :
      (ids : List ObjectIdentifier) (s : List String)
      → All (λ (i : ObjectIdentifier). allowed i.key i.version_id) ids
      → Lost s
      → Lost (map (λ i. i.key) ids ++ s)
  All-Lost [] s a h = h
  All-Lost (i ∷ ids) s a h = ((i.version_id, a.0), All-Lost ids s a.1 h)

  bucket-IsConfined : (limit : ℕ) → IsConfined bucket allowed limit Lost
  bucket-IsConfined limit = record {
    head = λ k v s h. h;
    tagging = λ k v s h. h;
    single = λ k v e s a h. ((v, a), h);
    batch = λ ids s a h. All-Lost ids s a.0 h;
    answers = λ ids s a. tt;
  }

abbrev received : List (S3Object ℕ)
received = object "a" ∷ object "b" ∷ []

abbrev Known : String → Option String → Type 0
Known k v = one_of k ("a" ∷ "b" ∷ []) ≡ true

receive_and_delete-Holds_example :
    Holds sdk bucket
      (Lost Known)
      (All (Allowed Known))
      (receive_and_delete sdk bucket config calm received world).0
unfolding Object.new Object.key
receive_and_delete-Holds_example =
    receive_and_delete-Holds sdk bucket config calm Known (Lost Known) (bucket-IsConfined Known _)
      received world (refl, (refl, tt)) (tt, tt)

abbrev approve_all : ℕ → S3Object ℕ → Result Bool Error
approve_all n o = ok true

abbrev Listed : S3Object ℕ → Type 0
Listed o = Known (Object.key o) none

abbrev selective : Config sdk
selective = record config {
  filter_config = record config.filter_config { include_regex = some "a" };
}

filtered-Holds_example :
    Lost
      (IsChosen sdk selective approve_all Listed)
      (receive_and_delete sdk bucket selective calm
        (filter_objects sdk (λ n. calm) false selective approve_all received)
        world).0.target
unfolding Object.new Object.key
filtered-Holds_example =
    filtered-Holds sdk selective approve_all Listed bucket
      (Lost (IsChosen sdk selective approve_all Listed))
      (bucket-IsConfined (IsChosen sdk selective approve_all Listed) _) (λ n. calm) calm false
      received (refl, (refl, tt)) world (tt, tt)
