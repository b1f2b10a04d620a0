-- ===== src/Hash/Reads.antt =====
-- What the hashing reader has seen after any number of reads.
use bqcubbit.Base.{
  ℕ, suc, ◌+◌, ◌%◌, ◌<◌, Text, Option, List, [], ◌∷◌, ◌++◌, ◌≡◌, refl, sym, ap, ap₂, true, ◌∙◌,
  arith, length, length-append, ltb,
}
use mathlib.Core.List.{append-nil, append_assoc}
use bqcubbit.Storage.Multipart.{BodyEnd}
use bqcubbit.Hash.{
  Hasher, int64_values, int64_limit, Read, Reader, new_reader, absorb, read, sha256, total_bytes,
}

-- What the documentation of hash.Hash says: a write adds its bytes to those of the writes before
-- it, and the sum is a function of all of them.
pub record HasherLaws (h : Hasher) : Type 0 where
  pub absorbed : h.State → Text
  pub digest : Text → Text
  pub absorbed_fresh : absorbed h.fresh ≡ []
  pub absorbed_write : (p : Text) (s : h.State) → absorbed (h.write p s) ≡ absorbed s ++ p
  pub sum_lem : (s : h.State) → h.sum s ≡ digest (absorbed s)

-- Reads with the buffers of a list of sizes: the answers joined, with the reader after them.
unfoldable pub reads : {R : Type 0} → Read R → List ℕ → R → Text × R
reads inner [] r = ([], r)
reads inner (size ∷ sizes) r =
    let ((p, e), r') = inner size r in let (ps, r'') = reads inner sizes r' in (p ++ ps, r'')

module _ (h : Hasher) (laws : HasherLaws h) {R : Type 0} where
  absorb_exact :
      (a : (Text × Option BodyEnd) × R) (r : Reader h R)
      → r.total < int64_values
      → ((absorb h a r).0 ≡ a.0)
        × ((absorb h a r).1.reader ≡ a.1)
        × (laws.absorbed (absorb h a r).1.hash ≡ laws.absorbed r.hash ++ a.0.0)
        × ((absorb h a r).1.total ≡ (r.total + length a.0.0) % int64_values)
  unfolding absorb
  absorb_exact (([], e), r') r lt =
      (refl, refl, sym (append-nil (laws.absorbed r.hash)), omega (arith, lt))
  absorb_exact ((c ∷ cs, e), r') r lt =
      let more : ltb 0 (suc (length cs)) ≡ true = ground arith in
      (refl, rw more refl, rw more (laws.absorbed_write (c ∷ cs) r.hash), rw more refl)

  -- What is left of a sequence of reads, after its first answer.
  after :
      (inner : Read R) (sizes : List ℕ) (size : ℕ) (r : Reader h R)
      → r.total < int64_values
      → ((r1 : Reader h R)
          → r1.total < int64_values
          → ((reads (read h inner) sizes r1).0 ≡ (reads inner sizes r1.reader).0)
            × (laws.absorbed (reads (read h inner) sizes r1).1.hash
                ≡ laws.absorbed r1.hash ++ (reads inner sizes r1.reader).0)
            × ((reads (read h inner) sizes r1).1.total
                ≡ (r1.total + length (reads inner sizes r1.reader).0) % int64_values))
      → ((reads (read h inner) (size ∷ sizes) r).0 ≡ (reads inner (size ∷ sizes) r.reader).0)
        × (laws.absorbed (reads (read h inner) (size ∷ sizes) r).1.hash
            ≡ laws.absorbed r.hash ++ (reads inner (size ∷ sizes) r.reader).0)
        × ((reads (read h inner) (size ∷ sizes) r).1.total
            ≡ (r.total + length (reads inner (size ∷ sizes) r.reader).0) % int64_values)
  unfolding reads read
  after inner sizes size r lt rec =
      let (got, left, seen, sum) = absorb_exact (inner size r.reader) r lt in
      let (x, y, z) = rec (absorb h (inner size r.reader) r).1 (omega (arith, sum)) in
      let more = (reads inner sizes (inner size r.reader).1).0 in
      let same : (reads inner sizes (absorb h (inner size r.reader) r).1.reader).0 ≡ more =
        ap (λ (q : R). (reads inner sizes q).0) left in
      (
        ap₂ (λ (a b : Text). a ++ b) (ap (λ (q : Text × Option BodyEnd). q.0) got) (x ∙ same),
        y
            ∙ ap₂ (λ (a b : Text). a ++ b) seen same
            ∙ append_assoc (laws.absorbed r.hash) (inner size r.reader).0.0 more,
        z
            ∙ omega (
              arith,
              sum,
              ap (λ (q : Text). length q) same,
              length-append (inner size r.reader).0.0 more,
            ),
      )

  reads_from :
      (inner : Read R) (sizes : List ℕ) (r : Reader h R)
      → r.total < int64_values
      → ((reads (read h inner) sizes r).0 ≡ (reads inner sizes r.reader).0)
        × (laws.absorbed (reads (read h inner) sizes r).1.hash
            ≡ laws.absorbed r.hash ++ (reads inner sizes r.reader).0)
        × ((reads (read h inner) sizes r).1.total
            ≡ (r.total + length (reads inner sizes r.reader).0) % int64_values)
  unfolding reads
  reads_from inner [] r lt = (refl, sym (append-nil (laws.absorbed r.hash)), omega (arith, lt))
  reads_from inner (size ∷ sizes) r lt =
      after inner sizes size r lt (λ r1 l. reads_from inner sizes r1 l)

  -- Where the hash is a function of the bytes written to it: after any reads through a new hashing
  -- reader, whatever the sizes of their buffers, the bytes handed on are those of the reader
  -- inside, `SHA256` is the digest of them, and `TotalBytes` is their number modulo 2^64, so their
  -- number itself as long as that fits an int64.
  pub reads_exact :
      (inner : Read R) (sizes : List ℕ) (r : R)
      → ((reads (read h inner) sizes (new_reader h r)).0 ≡ (reads inner sizes r).0)
        × (sha256 h (reads (read h inner) sizes (new_reader h r)).1
            ≡ laws.digest (reads inner sizes r).0)
        × (total_bytes h (reads (read h inner) sizes (new_reader h r)).1
            ≡ length (reads inner sizes r).0 % int64_values)
        × (length (reads inner sizes r).0 < int64_limit
            → total_bytes h (reads (read h inner) sizes (new_reader h r)).1
              ≡ length (reads inner sizes r).0)
  unfolding new_reader sha256 total_bytes
  reads_exact inner sizes r =
      let (x, y, z) = reads_from inner sizes (new_reader h r) (omega arith) in
      (
        x,
        laws.sum_lem (reads (read h inner) sizes (new_reader h r)).1.hash
            ∙ ap laws.digest
                (y ∙ ap (λ (t : Text). t ++ (reads inner sizes r).0) laws.absorbed_fresh),
        z ∙ omega arith,
        λ small. z ∙ omega (arith, small),
      )
