-- ===== src/Storage/Multipart/Upload.antt =====
-- `UploadMultipart` sends the parts of its body in order.
use bqcubbit.Base.{
  ℕ, zero, suc, ◌+◌, ◌≤◌, ◌<◌, Text, Bool-cases, true, false, Option, none, some, List, [], ◌∷◌,
  ◌++◌, ◌≡◌, ◌≢◌, refl, sym, ap, ap₂, subst, ◌∙◌, inl, inr, arith, ltb, ◌==◌, length, length-append,
  take, drop, take-drop, length-take, length-drop,
}
use mathlib.Core.List.{append_assoc, append-nil}
use bqcubbit.Storage.{S3, Client, Result, ok, err, part_failed, full_key, abort_multipart_upload}
use bqcubbit.Storage.Multipart.{
  BodyEnd, eof, unexpected_eof, broken, Body, read_full, is_read_error, upload_round, upload_loop,
}
use bqcubbit.Storage.Multipart.Chunks.{Chunking, no_bytes, short, full}

module _ (s3 : S3) (c : Client) (key upload_id : Text) where
  open s3 use {Service}

  prepend : Text → Option (List Text) × Service → Option (List Text) × Service
  prepend t (none, s) = (none, s)
  prepend t (some ts, s) = (some (t ∷ ts), s)

  -- What follows the answer to one part.
  answered :
      (Service → Option (List Text) × Service)
      → Option Text × Service
      → Option (List Text) × Service
  unfolding prepend
  answered rec (none, s) = (none, s)
  answered rec (some t, s) = prepend t (rec s)

  -- Sends parts under the numbers that follow `n`, up to the first that fails.
  unfoldable pub send : ℕ → List Text → Service → Option (List Text) × Service
  unfolding answered
  send n [] s = (some [], s)
  send n (x ∷ xs) s =
      answered (send (n + 1) xs) (s3.upload_part (full_key c key) upload_id (n + 1) x s)

  -- As many ETags as that, or an error.
  unfoldable pub Counted : ℕ → Option (List Text) × Service → Type 0
  Counted m (none, s) = Unit
  Counted m (some ts, s) = length ts ≡ m

  prepend-Counted :
      (m : ℕ) (t : Text) (r : Option (List Text) × Service)
      → Counted m r
      → Counted (suc m) (prepend t r)
  unfolding Counted prepend
  prepend-Counted m t (none, s) h = tt
  prepend-Counted m t (some ts, s) h = ap suc h

  pub send-Counted :
      (n : ℕ) (parts : List Text) (s : Service) → Counted (length parts) (send n parts s)
  unfolding Counted send answered
  send-Counted n [] s = refl
  send-Counted n (x ∷ xs) s =
      go (λ s'. send-Counted (n + 1) xs s') (s3.upload_part (full_key c key) upload_id (n + 1) x s)
    where
      go :
          ((s' : Service) → Counted (length xs) (send (n + 1) xs s'))
          → (r : Option Text × Service) → Counted (suc (length xs)) (answered (send (n + 1) xs) r)
      go rec (none, s') = tt
      go rec (some t, s') = prepend-Counted (length xs) t (send (n + 1) xs s') (rec s')

  send_refused :
      (n : ℕ) (x : Text) (xs : List Text) (s : Service) {s' : Service}
      → s3.upload_part (full_key c key) upload_id (n + 1) x s ≡ (none, s')
      → send n (x ∷ xs) s ≡ (none, s')
  unfolding send
  send_refused n x xs s e = ap (answered (send (n + 1) xs)) e

  send_taken :
      (n : ℕ) (x : Text) (xs : List Text) (s : Service) {t : Text} {s' : Service}
      → s3.upload_part (full_key c key) upload_id (n + 1) x s ≡ (some t, s')
      → send n (x ∷ xs) s ≡ prepend t (send (n + 1) xs s')
  unfolding send
  send_taken n x xs s e = ap (answered (send (n + 1) xs)) e

  -- The ETags with the last part number, or the error of a part, after which the upload is aborted.
  unfoldable pub outcome :
      ℕ → List Text → Option (List Text) × Service → Result (List Text × ℕ) × Service
  outcome n etags (none, s) = (err part_failed, (abort_multipart_upload s3 c key upload_id s).1)
  outcome n etags (some ts, s) = (ok (etags ++ ts, n + length ts), s)

  outcome-prepend :
      (n : ℕ) (etags : List Text) (t : Text) (r : Option (List Text) × Service)
      → outcome (n + 1) (etags ++ t ∷ []) r ≡ outcome n etags (prepend t r)
  unfolding outcome prepend
  outcome-prepend n etags t (none, s) = refl
  outcome-prepend n etags t (some ts, s) =
      ap₂ (λ (us : List Text) (m : ℕ). (ok (us, m), s)) (append_assoc etags (t ∷ []) ts)
        (omega arith)

  module _ (part_size : ℕ) (positive : 0 < part_size) where
    -- The loop cuts the body into parts, whatever was sent before, and sends them.
    abbrev pub Sends : ℕ → Body → Type 0
    Sends fuel b =
        (parts : List Text) × Chunking part_size b.rest parts
        × ((n : ℕ) (etags : List Text) (s : Service)
            → upload_loop s3 part_size c key upload_id fuel n etags b s
              ≡ some (outcome n etags (send n parts s)))

    readable : (e : BodyEnd) → e ≢ broken → is_read_error (some e) ≡ false
    readable eof ne = refl
    readable unexpected_eof ne = refl
    readable broken ne = absurd (ne refl)

    -- One round that reads a part, and the rounds after it.
    round :
        (fuel : ℕ) (b b' : Body) (chunk : Text) (e : Option BodyEnd) (parts : List Text)
        → read_full part_size b ≡ ((chunk, e), b')
        → is_read_error e ≡ false
        → (length chunk == 0) ≡ false
        → ((n : ℕ) (etags : List Text) (s : Service)
            → upload_loop s3 part_size c key upload_id fuel n etags b' s
              ≡ some (outcome n etags (send n parts s)))
        → (n : ℕ) (etags : List Text) (s : Service)
        → upload_loop s3 part_size c key upload_id (suc fuel) n etags b s
          ≡ some (outcome n etags (send n (chunk ∷ parts) s))
    unfolding upload_loop send outcome
    round fuel b b' chunk e parts re ok_read nonempty rec n etags s =
        ap
          (λ (r : (Text × Option BodyEnd) × Body).
            upload_round s3 part_size c key (upload_loop s3 part_size c key upload_id fuel)
              upload_id n etags r s)
          re
        ∙ rw (ok_read, upload_round, nonempty)
            (next (s3.upload_part (full_key c key) upload_id (n + 1) chunk s) refl)
      where
        next :
            (r : Option Text × Service)
            → s3.upload_part (full_key c key) upload_id (n + 1) chunk s ≡ r
            → (elim r.0 [
              | none ↦ some (err part_failed, (abort_multipart_upload s3 c key upload_id r.1).1)
              | some t ↦
                  upload_loop s3 part_size c key upload_id fuel (n + 1) (etags ++ t ∷ []) b' r.1
            ])
              ≡ some (outcome n etags (send n (chunk ∷ parts) s))
        next (none, s') e' =
            ap (λ (r : Option (List Text) × Service). some (outcome n etags r))
              (sym (send_refused n chunk parts s e'))
        next (some t, s') e' =
            rec (n + 1) (etags ++ t ∷ []) s'
            ∙ ap some (outcome-prepend n etags t (send (n + 1) parts s'))
            ∙ ap (λ (r : Option (List Text) × Service). some (outcome n etags r))
                (sym (send_taken n chunk parts s e'))

    last_round :
        (fuel : ℕ) (b b' : Body) (e : Option BodyEnd)
        → read_full part_size b ≡ (([], e), b')
        → is_read_error e ≡ false
        → (n : ℕ) (etags : List Text) (s : Service)
        → upload_loop s3 part_size c key upload_id (suc fuel) n etags b s
          ≡ some (outcome n etags (send n [] s))
    unfolding upload_loop outcome send
    last_round fuel b b' e re ok_read n etags s =
        ap
          (λ (r : (Text × Option BodyEnd) × Body).
            upload_round s3 part_size c key (upload_loop s3 part_size c key upload_id fuel)
              upload_id n etags r s)
          re
        ∙ rw (ok_read, upload_round)
            (ap₂ (λ (us : List Text) (m : ℕ). some (ok (us, m), s)) (sym (append-nil etags))
              (omega arith))

    read_short :
        (b : Body)
        → ltb (length b.rest) part_size ≡ true
        → read_full part_size b ≡ ((b.rest, some b.ends), record b { rest = [] })
    unfolding read_full
    read_short b less = rw (less, read_full)

    read_long :
        (b : Body)
        → ltb (length b.rest) part_size ≡ false
        → read_full part_size b
          ≡ ((take part_size b.rest, none), record b { rest = drop part_size b.rest })
    unfolding read_full
    read_long b enough = rw (enough, read_full)

    empty_of_length : (x : Text) → (length x == 0) ≡ true → x ≡ []
    empty_of_length [] e = refl
    empty_of_length (a ∷ x) e = absurd (ground arith)

    empty_parts :
        (content : Text) (parts : List Text)
        → content ≡ []
        → Chunking part_size content parts
        → parts ≡ []
    empty_parts content parts e no_bytes = refl
    empty_parts content parts e (short pos lt) =
        absurd (let z : length content ≡ 0 = ap length e in omega (arith, pos, z))
    empty_parts content parts e (full {rest = rest} {chunk = chunk} same size k) = absurd (
        let z : length chunk + length rest ≡ 0 =
          sym (length-append chunk rest) ∙ ap length (sym same ∙ e) in
        omega (arith, size, positive, z))

    pub upload_loop-Sends :
        (fuel : ℕ) (b : Body) → b.ends ≢ broken → length b.rest < fuel → Sends fuel b
    upload_loop-Sends zero b sound h = absurd (omega (arith, h))
    upload_loop-Sends (suc fuel) b sound h = elim (Bool-cases (ltb (length b.rest) part_size)) [
      | inl less ↦ elim (Bool-cases (length b.rest == 0)) [
        | inl drained ↦
            let nothing : b.rest ≡ [] = empty_of_length b.rest drained in
            (
              [],
              subst (λ (x : Text). Chunking part_size x []) (sym nothing) no_bytes,
              last_round fuel b (record b { rest = [] }) (some b.ends)
                  (read_short b less
                    ∙ ap (λ (x : Text). ((x, some b.ends), record b { rest = [] })) nothing)
                  (readable b.ends sound),
            )
        | inr some_left ↦
            let (parts, k, rec) =
              upload_loop-Sends fuel (record b { rest = [] }) sound (ground arith) in
            (
              b.rest ∷ parts,
              subst (λ (ps : List Text). Chunking part_size b.rest (b.rest ∷ ps))
                  (sym (empty_parts [] parts refl k)) (short (ground arith) (ground arith)),
              round fuel b (record b { rest = [] }) b.rest (some b.ends) parts (read_short b less)
                  (readable b.ends sound) some_left rec,
            )
      ]
      | inr enough ↦
          let le : part_size ≤ length b.rest = ground arith in
          let size : length (take part_size b.rest) ≡ part_size = length-take part_size b.rest le in
          let (parts, k, rec) =
            upload_loop-Sends fuel (record b { rest = drop part_size b.rest }) sound
              (omega (arith, h, positive, le, length-drop part_size b.rest le)) in
          (
            take part_size b.rest ∷ parts,
            full (sym (take-drop part_size b.rest)) size k,
            round fuel b (record b { rest = drop part_size b.rest }) (take part_size b.rest) none
                parts (read_long b enough) refl (rw size (ground arith)) rec,
          )
    ]
