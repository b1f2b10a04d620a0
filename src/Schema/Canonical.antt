-- ===== src/Schema/Canonical.antt =====
-- internal/schema/schema.go, `canonicalBytes` and `CanonicalHash`.
pub mod Injective
pub mod Laws
use bqcubbit.Base.{Text, Bool, true, false, if◌then◌else◌, [], ◌∷◌, ◌++◌}
use bqcubbit.Schema.{Fields, nil, cons}
use bqcubbit.Schema.Sort.{sort_fields_copy}

-- The bytes for a list of nested fields whose own bytes are `body`.
unfoldable pub nested : Fields → Text → Text
nested nil body = []
nested (cons h s r) body = 0 ∷ b'{' ∷ (body ++ b'}' ∷ [])

-- The loop of `canonicalBytes`; `first` is `i == 0`.
unfoldable pub canonical_from : Bool → Fields → Text
unfolding nested
canonical_from first nil = []
canonical_from first (cons h s r) =
    (if first then [] else 0 ∷ [])
    ++ (h.name
        ++ (0
            ∷ (h.type
                ++ (0 ∷ (h.mode ++ (nested s (canonical_from true s) ++ canonical_from false r))))))

unfoldable pub canonical_bytes : Fields → Text
unfolding canonical_from
canonical_bytes = canonical_from true

-- `sha256_hex` is `fmt.Sprintf("%x", sha256.Sum256(b))`; the theorems name what they need of it.
unfoldable pub canonical_hash : (Text → Text) → Fields → Text
unfolding canonical_bytes sort_fields_copy
canonical_hash sha256_hex fields = sha256_hex (canonical_bytes (sort_fields_copy fields))
