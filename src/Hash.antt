-- ===== src/Hash.antt =====
-- internal/hash/reader.go: a reader that hashes what it passes on. SHA-256 and the reader inside
-- are parameters.
pub mod Reads
pub mod Samples
mod Examples
use bqcubbit.Base.{ℕ, zero, ◌+◌, ◌%◌, Text, Option, ltb, length, if◌then◌else◌}
use bqcubbit.Storage.Multipart.{BodyEnd}

-- `hash.Hash` of crypto/sha256, with the hexadecimal text of its sum.
pub record Hasher : Type 1 where
  pub State : Type 0
  pub fresh : State
  pub write : Text → State → State
  pub sum : State → Text

-- An int64 is its 64 bits, as a number below this one.
abbrev pub int64_values : ℕ
int64_values = 18446744073709551616

-- Numbers from here on stand for negative ones.
abbrev pub int64_limit : ℕ
int64_limit = 9223372036854775808

-- `Read` of an io.Reader, on the size of the buffer: the bytes, the error, and the reader after it.
abbrev pub Read : Type 0 → Type 0
Read R = ℕ → R → (Text × Option BodyEnd) × R

-- `Reader`
pub record Reader (h : Hasher) (R : Type 0) : Type 0 where
  pub reader : R
  pub hash : h.State
  pub total : ℕ

module _ (h : Hasher) {R : Type 0} where
  unfoldable pub new_reader : R → Reader h R
  new_reader r = record { reader = r; hash = h.fresh; total = 0 }

  -- What `Read` does with the bytes that it got.
  unfoldable pub absorb :
      (Text × Option BodyEnd) × R → Reader h R → (Text × Option BodyEnd) × Reader h R
  absorb ((p, e), r') r = (
    (p, e),
    if ltb 0 (length p)
        then record {
          reader = r';
          hash = h.write p r.hash;
          total = (r.total + length p) % int64_values;
        }
        else record r { reader = r' },
  )

  unfoldable pub read : Read R → Read (Reader h R)
  read inner size r = absorb (inner size r.reader) r

  unfoldable pub sha256 : Reader h R → Text
  sha256 r = h.sum r.hash

  unfoldable pub total_bytes : Reader h R → ℕ
  total_bytes r = r.total
