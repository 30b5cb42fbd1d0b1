-- ===== src/Deleter/Format.antt =====
-- `format_metadata` and `format_tags` of src/deleter/mod.rs.
use Prim.Native.Nat.{Ordering}
use Prim.Native.String.{compare}
use s3rm_rs.Base.{Bool, true, false, String, ◌<>◌, List, [], ◌∷◌, map, if◌then◌else◌}
use s3rm_rs.Storage.{Tag}

-- `a <= b` of `str`
abbrev pub str_le : String → String → Bool
str_le a b = elim (compare a b) [ Ordering.gt ↦ false | _ ↦ true ]

-- A stable sort by the key, as `sort_by` is.
abbrev pub insert_by_key : String × String → List (String × String) → List (String × String)
insert_by_key (k, v) [] = (k, v) ∷ []
insert_by_key (k, v) ((j, w) ∷ rest) =
    if str_le k j then (k, v) ∷ ((j, w) ∷ rest) else (j, w) ∷ insert_by_key (k, v) rest

unfoldable pub sort_by_key : List (String × String) → List (String × String)
sort_by_key [] = []
sort_by_key (p ∷ rest) = insert_by_key p (sort_by_key rest)

-- `[..].join(separator)`
unfoldable pub join : String → List String → String
join separator [] = ""
join separator (s ∷ []) = s
join separator (s ∷ t ∷ rest) = s <> (separator <> join separator (t ∷ rest))

module _ (encode : String → String) where
  abbrev metadata_entry : String × String → String
  metadata_entry (key, value) = key <> ("=" <> encode value)

  unfoldable pub format_metadata : List (String × String) → String
  unfolding sort_by_key join
  format_metadata metadata = join "," (map metadata_entry (sort_by_key metadata))

  abbrev tag_entry : String × String → String
  tag_entry (key, value) = encode key <> ("=" <> encode value)

  unfoldable pub format_tags : List Tag → String
  unfolding sort_by_key join
  format_tags tags = join "&" (map tag_entry (sort_by_key (map (λ t. (t.key, t.value)) tags)))
