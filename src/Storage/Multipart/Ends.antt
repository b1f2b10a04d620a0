-- ===== src/Storage/Multipart/Ends.antt =====
-- `UploadMultipart` comes to an end on every body, with an error where the body breaks off.
use bqcubbit.Base.{
  ℕ, zero, suc, ◌+◌, ◌<◌, Text, Bool, true, false, Bool-cases, Option, none, some, List, [], ◌∷◌,
  ◌++◌, ◌≡◌, ◌⊎◌, refl, arith, inl, inr, Option-cases, ltb, ◌==◌, length, length-drop, length-take,
  take, drop, ◌≤◌,
}
use bqcubbit.Storage.{S3, Client, Result, ok, err, full_key}
use bqcubbit.Storage.Multipart.{
  Body, BodyEnd, read_full, is_read_error, upload_round, upload_loop, finish_upload, start_upload,
  upload_multipart,
}

module _ (s3 : S3) (part_size : ℕ) (c : Client) (key : Text) where
  open s3 use {Service}

  abbrev pub is_err : {A : Type 0} → Result A → Bool
  is_err (err e) = true
  is_err (ok a) = false

  -- It returned, and with an error where the body was bad.
  abbrev pub Ended : {A : Type 0} → Bool → Option (Result A × Service) → Type 0
  Ended {A} bad o = (r : Result A × Service) × (o ≡ some r) × ((bad ≡ false) ⊎ (is_err r.0 ≡ true))

  sent :
      (rec : ℕ → List Text → Body → Service → Option (Result (List Text × ℕ) × Service))
      (bad : Bool) (upload_id chunk : Text) (read_err : Option BodyEnd) (b : Body) (n : ℕ)
      (etags : List Text) (s : Service)
      → ((length chunk == 0) ≡ false
          → (m : ℕ) (ts : List Text) (s' : Service) → Ended bad (rec m ts b s'))
      → (is_read_error read_err ≡ false → (length chunk == 0) ≡ true → bad ≡ false)
      → Ended bad (upload_round s3 part_size c key rec upload_id n etags ((chunk, read_err), b) s)
  unfolding upload_round
  sent rec bad upload_id chunk read_err b n etags s rest sound =
      elim (Bool-cases (is_read_error read_err)) [
        | inl fails ↦ rw (fails, upload_round) (_, refl, inr refl)
        | inr fine ↦
            rw (fine, upload_round)
              (elim (Bool-cases (length chunk == 0)) [
                | inl drained ↦ rw (drained, upload_round) (_, refl, inl (sound fine drained))
                | inr some_left ↦
                    let sending = s3.upload_part (full_key c key) upload_id (n + 1) chunk s in
                    rw (some_left, upload_round)
                      (elim (Option-cases sending.0) [
                        | inl refused ↦ rw (refused, upload_round) (_, refl, inr refl)
                        | inr (t, taken) ↦
                            rw (taken, upload_round)
                              (rest some_left (n + 1) (etags ++ t ∷ []) sending.1)
                      ])
              ])
      ]

  -- The body has fewer bytes after a round that reads some.
  pub upload_loop_ends :
      0 < part_size
      → (upload_id : Text) (fuel n : ℕ) (etags : List Text) (b : Body) (s : Service)
      → length b.rest < fuel
      → Ended
          (is_read_error (some b.ends))
          (upload_loop s3 part_size c key upload_id fuel n etags b s)
  unfolding upload_loop read_full
  upload_loop_ends positive upload_id zero n etags b s h = absurd (omega (arith, h))
  upload_loop_ends positive upload_id (suc fuel) n etags b s h =
      elim (Bool-cases (ltb (length b.rest) part_size)) [
        | inl less ↦ rw less (
            sent (upload_loop s3 part_size c key upload_id fuel) (is_read_error (some b.ends))
              upload_id b.rest (some b.ends) (record b { rest = [] }) n etags s
              (λ some_left m ts s'.
                upload_loop_ends positive upload_id fuel m ts (record b { rest = [] }) s'
                  (ground arith))
              (λ fine drained. fine))
        | inr enough ↦ rw enough (
            sent (upload_loop s3 part_size c key upload_id fuel) (is_read_error (some b.ends))
              upload_id (take part_size b.rest) none (record b { rest = drop part_size b.rest }) n
              etags s
              (λ some_left m ts s'.
                upload_loop_ends positive upload_id fuel m ts
                  (record b { rest = drop part_size b.rest }) s'
                  (let le : part_size ≤ length b.rest = ground arith in
                    omega (arith, h, positive, le, length-drop part_size b.rest le)))
              (λ fine drained.
                let le : part_size ≤ length b.rest = ground arith in
                absurd (ground (arith, length-take part_size b.rest le))))
      ]

  finish_ends :
      (bad : Bool) (upload_id : Text) (o : Option (Result (List Text × ℕ) × Service))
      → Ended bad o
      → Ended bad (finish_upload s3 part_size c key upload_id o)
  unfolding finish_upload
  finish_ends bad upload_id none (r, e, d) = absurd (cc)
  finish_ends bad upload_id (some (err e, s)) done = (_, refl, inr refl)
  finish_ends bad upload_id (some (ok parts, s)) (r, e, d) = (_, refl, inl (ground arith))

  start_ends :
      0 < part_size
      → (body : Body) (r : Option Text × Service)
      → Ended (is_read_error (some body.ends)) (start_upload s3 part_size c key body r)
  unfolding start_upload
  start_ends positive body (none, s) = (_, refl, inr refl)
  start_ends positive body (some upload_id, s) =
      finish_ends (is_read_error (some body.ends)) upload_id
        (upload_loop s3 part_size c key upload_id (suc (length body.rest)) 0 [] body s)
        (upload_loop_ends positive upload_id (suc (length body.rest)) 0 [] body s (omega arith))

  pub upload_multipart_ends :
      0 < part_size
      → (body : Body) (s : Service)
      → Ended (is_read_error (some body.ends)) (upload_multipart s3 part_size c key body s)
  unfolding upload_multipart
  upload_multipart_ends positive body s =
      start_ends positive body (s3.create_multipart_upload (full_key c key) s)
