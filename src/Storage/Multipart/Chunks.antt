-- ===== src/Storage/Multipart/Chunks.antt =====
-- How a body is cut into parts.
use bqcubbit.Base.{ℕ, ◌<◌, Text, List, [], ◌∷◌, ◌++◌, ◌≡◌, length}

-- The parts of a content: all of the part size, but for a last one that may be shorter, none empty,
-- and together the content.
pub data Chunking (size : ℕ) : Text → List Text → Type 0 where
  no_bytes : Chunking size [] []
  short :
      {content : Text}
      → 0 < length content
      → length content < size
      → Chunking size content (content ∷ [])
  full :
      {content rest chunk : Text} {parts : List Text}
      → content ≡ chunk ++ rest
      → length chunk ≡ size
      → Chunking size rest parts
      → Chunking size content (chunk ∷ parts)

pub joined : List Text → Text
joined [] = []
joined (x ∷ xs) = x ++ joined xs
