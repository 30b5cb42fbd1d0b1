-- ===== src/Types/Secret.antt =====
-- `mask_access_key` of src/types/mod.rs, over the bytes of the key. The code slices a `&str`, which
-- panics inside a character; an access key is ASCII.
use s3rm_rs.Base.{
  ℕ, zero, suc, ◌+◌, ◌-◌, List, [], ◌∷◌, ◌++◌, length, take, drop, ltb, if◌then◌else◌,
}

abbrev pub prefix_len : ℕ
prefix_len = 4

abbrev pub suffix_len : ℕ
suffix_len = 4

-- `"*".repeat(n)`
unfoldable pub stars : ℕ → List ℕ
stars zero = []
stars (suc n) = b'*' ∷ stars n

unfoldable pub mask_access_key : List ℕ → List ℕ
unfolding stars
mask_access_key key =
    if ltb (length key) (prefix_len + suffix_len + 1)
    then stars (length key)
    else take prefix_len key
      ++ (stars (length key - prefix_len - suffix_len) ++ drop (length key - suffix_len) key)
