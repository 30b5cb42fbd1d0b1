-- ===== src/Deleter/Attributes/Laws.antt =====
-- The attribute filters of src/deleter/mod.rs and the state of a worker.
use s3rm_rs.Base.{◌≡◌, refl, inl, inr, Bool, Option, String, Result, ok, err, arith, Bool-cases}
use s3rm_rs.Types.Object
use s3rm_rs.Types.Object.{S3Object, DeleteMarkerEntry, delete_marker}
use s3rm_rs.Types.Error.{Error}
use s3rm_rs.Types.Sdk.{Sdk}
use s3rm_rs.Config.{Config}
use s3rm_rs.Storage.{Storage, HeadObjectOutput, GetObjectTaggingOutput}
use s3rm_rs.Deleter.World.{World, Action}
use s3rm_rs.Deleter.Attributes.{
  unless_rejected, emit_filter_skip, handle_api_error, filter_by_head, filter_by_tags,
  apply_head_object_filters, apply_tag_filters, head_answered, tagging_answered, needs_head_object,
  needs_tagging,
}

module _ (x : Sdk) (t : Storage) (config : Config x) where
  -- A property of the target that reading from it keeps.
  pub record IsReadable (P : t.State → Type 0) : Type 0 where
    pub head : (k : String) (v : Option String) (s : t.State) → P s → P (t.head_object k v s).0
    pub tagging :
        (k : String) (v : Option String) (s : t.State) → P s → P (t.get_object_tagging k v s).0

  -- An object was looked at and no more: the work of the worker is as before.
  pub record Judges (P : t.State → Type 0) (w w' : World x t) : Type 0 where
    pub target : P w'.target
    pub buffer : w'.buffer ≡ w.buffer
    pub counter : w'.delete_counter ≡ w.delete_counter
    pub report : w'.report ≡ w.report
    pub sent : w'.sent ≡ w.sent

  module _ (P : t.State → Type 0) where
    emit_filter_skip-Judges :
        (o : S3Object x.DateTime) (name : String) (w0 w : World x t)
        → Judges P w0 w
        → Judges P w0 (emit_filter_skip x t config o name w)
    unfolding emit_filter_skip
    emit_filter_skip-Judges o name w0 w h = ground arith

    unless_rejected-Judges :
        (o : S3Object x.DateTime) (regex : Option x.Regex) (value : Option String) (name : String)
        (is_include : Bool) (rest : Action x t Bool) (w0 w : World x t)
        → Judges P w0 w
        → Judges P w0 (rest w).0
        → Judges P w0 (unless_rejected x t config o regex value name is_include rest w).0
    unfolding unless_rejected
    unless_rejected-Judges o regex value name is_include rest w0 w h r =
        ground (arith, emit_filter_skip-Judges o name w0 w h)

    filter_by_head-Judges :
        (o : S3Object x.DateTime) (head : HeadObjectOutput) (w0 w : World x t)
        → Judges P w0 w
        → Judges P w0 (filter_by_head x t config o head w).0
    unfolding filter_by_head
    filter_by_head-Judges o head w0 w h = unless_rejected-Judges o _ _ _ _ _ w0 w h (
        unless_rejected-Judges o _ _ _ _ _ w0 w h
          (unless_rejected-Judges o _ _ _ _ _ w0 w h (unless_rejected-Judges o _ _ _ _ _ w0 w h h)))

    filter_by_tags-Judges :
        (o : S3Object x.DateTime) (tagging : GetObjectTaggingOutput) (w0 w : World x t)
        → Judges P w0 w
        → Judges P w0 (filter_by_tags x t config o tagging w).0
    unfolding filter_by_tags
    filter_by_tags-Judges o tagging w0 w h =
        unless_rejected-Judges o _ _ _ _ _ w0 w h (unless_rejected-Judges o _ _ _ _ _ w0 w h h)

    handle_api_error-Judges :
        (e : Error) (key operation : String) (w0 w : World x t)
        → Judges P w0 w
        → Judges P w0 (handle_api_error x t config e key operation w).0
    unfolding handle_api_error
    handle_api_error-Judges e key operation w0 w h = ground arith

    head_answered-Judges :
        (o : S3Object x.DateTime) (a : Result HeadObjectOutput Error) (w0 w : World x t)
        → Judges P w0 w
        → Judges P w0 (head_answered x t config o a w).0
    head_answered-Judges o (ok head) w0 w h = filter_by_head-Judges o head w0 w h
    head_answered-Judges o (err e) w0 w h = handle_api_error-Judges e _ _ w0 w h

    tagging_answered-Judges :
        (o : S3Object x.DateTime) (a : Result GetObjectTaggingOutput Error) (w0 w : World x t)
        → Judges P w0 w
        → Judges P w0 (tagging_answered x t config o a w).0
    tagging_answered-Judges o (ok tagging) w0 w h = filter_by_tags-Judges o tagging w0 w h
    tagging_answered-Judges o (err e) w0 w h = handle_api_error-Judges e _ _ w0 w h

    abbrev unchanged : (w : World x t) → P w.target → Judges P w w
    unchanged w p = record { target = p; buffer = refl; counter = refl; report = refl; sent = refl }

    module _ (readable : IsReadable P) where
      pub apply_head_object_filters-Judges :
          (o : S3Object x.DateTime) (w : World x t)
          → P w.target
          → Judges P w (apply_head_object_filters x t config o w).0
      unfolding apply_head_object_filters
      apply_head_object_filters-Judges o w p = elim (Bool-cases (needs_head_object x t config)) [
        | inr idle ↦ rw idle (unchanged w p)
        | inl needs ↦ elim (Bool-cases (Object.is_delete_marker o)) [
          | inl marker ↦ rw (needs, marker) (emit_filter_skip-Judges o _ w w (unchanged w p))
          | inr plain ↦
              rw (needs, plain)
                (head_answered-Judges o _ w _ (record {
                  target = readable.head _ _ w.target p;
                  buffer = refl;
                  counter = refl;
                  report = refl;
                  sent = refl;
                }))
        ]
      ]

      pub apply_tag_filters-Judges :
          (o : S3Object x.DateTime) (w : World x t)
          → P w.target
          → Judges P w (apply_tag_filters x t config o w).0
      unfolding apply_tag_filters
      apply_tag_filters-Judges o w p = elim (Bool-cases (needs_tagging x t config)) [
        | inr idle ↦ rw idle (unchanged w p)
        | inl needs ↦ elim (Bool-cases (Object.is_delete_marker o)) [
          | inl marker ↦ rw (needs, marker) (emit_filter_skip-Judges o _ w w (unchanged w p))
          | inr plain ↦
              rw (needs, plain)
                (tagging_answered-Judges o _ w _ (record {
                  target = readable.tagging _ _ w.target p;
                  buffer = refl;
                  counter = refl;
                  report = refl;
                  sent = refl;
                }))
        ]
      ]
