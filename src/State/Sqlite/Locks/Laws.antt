-- ===== src/State/Sqlite/Locks/Laws.antt =====
-- Job locks exclude one another until they are released.
use bqcubbit.Base.{
  ℕ, Text, str_eq, str_eq_refl, eq_of_str_eq, Bool, Bool-cases, true, false, not, ◌&&◌, ◌||◌, none,
  some, List, [], ◌∷◌, ◌++◌, ◌≡◌, ◌⊎◌, refl, ap, ◌∙◌, inl, inr, arith, keep, any, find_where,
}
use bqcubbit.State.{JobLock, Result, ok}
use bqcubbit.State.Sqlite.{Store}
use bqcubbit.State.Sqlite.Locks.{
  Datetime, is_lock, is_expired, delete_expired, insert_lock, acquire_job_lock, release_job_lock,
}

-- What the driver and SQLite document: without a time format in the name of the database, the driver
-- stores a time as its `String()`, which ends in the name of its zone, and datetime() is NULL on a
-- text that ends so.
abbrev pub AllNull : Datetime → Type 0
AllNull datetime = (t : ℕ) → datetime t ≡ none

-- A lock of that name is there.
abbrev pub has_lock : Text → List JobLock → Bool
has_lock n ls = any (is_lock n) ls

abbrev pub new_lock : ℕ → Text → ℕ → JobLock
new_lock now n ttl = record { lock_name = n; acquired_at = now; ttl_seconds = ttl }

never_expires :
    (datetime : Datetime)
    → AllNull datetime
    → (now : ℕ) (l : JobLock) → is_expired datetime now l ≡ false
unfolding is_expired
never_expires datetime null now l = rw (null l.acquired_at, is_expired)

all_live :
    (datetime : Datetime)
    → AllNull datetime
    → (now : ℕ) (n : Text) (ls : List JobLock)
    → keep (λ l. not (is_lock n l && is_expired datetime now l)) ls ≡ ls
all_live datetime null now n [] = refl
all_live datetime null now n (l ∷ ls) =
    ground (arith, all_live datetime null now n ls, never_expires datetime null now l)

found-has_lock :
    (n : Text) (ls : List JobLock)
    → ((find_where (is_lock n) ls ≡ none) × (has_lock n ls ≡ false))
      ⊎ ((l : JobLock) × (find_where (is_lock n) ls ≡ some l) × (has_lock n ls ≡ true))
found-has_lock n [] = inl (refl, refl)
found-has_lock n (l ∷ ls) = elim (Bool-cases (is_lock n l)) [
  | inl here ↦ inr (l, rw here, rw here)
  | inr other ↦ elim (found-has_lock n ls) [
    | inl (free, absent) ↦ inl (rw other free, rw other absent)
    | inr (k, found, there) ↦ inr (k, rw other found, rw other there)
  ]
]

none_deleted :
    (datetime : Datetime)
    → AllNull datetime
    → (now : ℕ) (n : Text) (s : Store) → delete_expired datetime now n s ≡ s
unfolding delete_expired
none_deleted datetime null now n s =
    ap (λ (ls : List JobLock). record s { locks = ls }) (all_live datetime null now n s.locks)

insert_lock_lem :
    (now : ℕ) (n : Text) (ttl : ℕ) (s : Store)
    → ((has_lock n s.locks ≡ true) × (insert_lock now n ttl s ≡ (ok false, s)))
      ⊎ ((has_lock n s.locks ≡ false)
          × (insert_lock now n ttl s
              ≡ (ok true, record s { locks = s.locks ++ new_lock now n ttl ∷ [] })))
unfolding insert_lock
insert_lock_lem now n ttl s = elim (found-has_lock n s.locks) [
  | inl (free, absent) ↦ inr (absent, rw (free, insert_lock))
  | inr (l, held, there) ↦ inl (there, rw (held, insert_lock))
]

-- `AcquireJobLock` succeeds exactly when no lock of the name is there, and then adds one; otherwise it
-- leaves the locks alone.
pub acquire_job_lock_lem :
    (datetime : Datetime)
    → AllNull datetime
    → (now : ℕ) (n : Text) (ttl : ℕ) (s : Store)
    → ((has_lock n s.locks ≡ true) × (acquire_job_lock datetime now n ttl s ≡ (ok false, s)))
      ⊎ ((has_lock n s.locks ≡ false)
          × (acquire_job_lock datetime now n ttl s
              ≡ (ok true, record s { locks = s.locks ++ new_lock now n ttl ∷ [] })))
unfolding acquire_job_lock
acquire_job_lock_lem datetime null now n ttl s =
    rw (none_deleted datetime null now n s, acquire_job_lock) (insert_lock_lem now n ttl s)

-- A call that others make.
pub data LockCall : Type 0 where
  asks : ℕ → Text → ℕ → LockCall
  releases : Text → LockCall

abbrev pub is_release : Text → LockCall → Bool
is_release n (asks now m ttl) = false
is_release n (releases m) = str_eq m n

-- The store after calls, in their order.
unfoldable pub after_calls : Datetime → List LockCall → Store → Store
after_calls datetime [] s = s
after_calls datetime (asks now m ttl ∷ cs) s =
    after_calls datetime cs (acquire_job_lock datetime now m ttl s).1
after_calls datetime (releases m ∷ cs) s = after_calls datetime cs (release_job_lock m s).1

has_lock-append :
    (n : Text) (ls ks : List JobLock) → has_lock n (ls ++ ks) ≡ (has_lock n ls || has_lock n ks)
has_lock-append n [] ks = refl
has_lock-append n (l ∷ ls) ks = ground (arith, has_lock-append n ls ks)

has_lock-release :
    (n m : Text) (ls : List JobLock)
    → str_eq m n ≡ false
    → has_lock n (keep (λ l. not (is_lock m l)) ls) ≡ has_lock n ls
has_lock-release n m [] h = refl
has_lock-release n m (l ∷ ls) h = ground (
  arith,
  has_lock-release n m ls h,
  eq_of_str_eq l.lock_name m,
  eq_of_str_eq l.lock_name n,
  str_eq_refl n,
)

has_lock-own_release :
    (n : Text) (ls : List JobLock) → has_lock n (keep (λ l. not (is_lock n l)) ls) ≡ false
has_lock-own_release n [] = refl
has_lock-own_release n (l ∷ ls) = ground (arith, has_lock-own_release n ls)

-- After a release the lock is free, whoever held it.
pub release_frees : (n : Text) (s : Store) → has_lock n (release_job_lock n s).1.locks ≡ false
unfolding release_job_lock
release_frees n s = has_lock-own_release n s.locks

acquire_keeps :
    (datetime : Datetime)
    → AllNull datetime
    → (n : Text) (now : ℕ) (m : Text) (ttl : ℕ) (s : Store) → has_lock n s.locks ≡ true
    → has_lock n (acquire_job_lock datetime now m ttl s).1.locks ≡ true
acquire_keeps datetime null n now m ttl s h =
    elim (acquire_job_lock_lem datetime null now m ttl s) [
      | inl (there, same) ↦ rw same h
      | inr (absent, added) ↦
          rw added (has_lock-append n s.locks (new_lock now m ttl ∷ []) ∙ rw h refl)
    ]

release_keeps :
    (n m : Text) (s : Store)
    → str_eq m n ≡ false
    → has_lock n s.locks ≡ true
    → has_lock n (release_job_lock m s).1.locks ≡ true
unfolding release_job_lock
release_keeps n m s other h = has_lock-release n m s.locks other ∙ h

calls_keep :
    (datetime : Datetime)
    → AllNull datetime
    → (n : Text) (cs : List LockCall) (s : Store) → any (is_release n) cs ≡ false
    → has_lock n s.locks ≡ true
    → has_lock n (after_calls datetime cs s).locks ≡ true
unfolding after_calls
calls_keep datetime null n [] s kept h = h
calls_keep datetime null n (asks now m ttl ∷ cs) s kept h =
    calls_keep datetime null n cs (acquire_job_lock datetime now m ttl s).1 kept
      (acquire_keeps datetime null n now m ttl s h)
calls_keep datetime null n (releases m ∷ cs) s kept h = elim (Bool-cases (str_eq m n)) [
  | inl own ↦ absurd (cc (rw own at kept))
  | inr other ↦
      calls_keep datetime null n cs (release_job_lock m s).1 (rw other at kept)
        (release_keeps n m s other h)
]

acquired :
    (datetime : Datetime)
    → AllNull datetime
    → (now : ℕ) (n : Text) (ttl : ℕ) (s : Store)
    → (acquire_job_lock datetime now n ttl s).0 ≡ ok true
    → (has_lock n s.locks ≡ false)
      × (has_lock n (acquire_job_lock datetime now n ttl s).1.locks ≡ true)
acquired datetime null now n ttl s e = elim (acquire_job_lock_lem datetime null now n ttl s) [
  | inl (there, same) ↦
      absurd (let e' : ◌≡◌ {A = Result Bool} (ok false) (ok true) = rw same at e in cc)
  | inr (absent, added) ↦ (
    absent,
    rw added (has_lock-append n s.locks (new_lock now n ttl ∷ []) ∙ rw (absent, str_eq_refl n)),
  )
]

answer_of :
    (datetime : Datetime)
    → AllNull datetime
    → (now : ℕ) (n : Text) (ttl : ℕ) (s : Store)
    → (acquire_job_lock datetime now n ttl s).0 ≡ ok (not (has_lock n s.locks))
answer_of datetime null now n ttl s = elim (acquire_job_lock_lem datetime null now n ttl s) [
  | inl (there, same) ↦ rw (same, there) refl
  | inr (absent, added) ↦ rw (added, absent) refl
]

-- Where datetime() is NULL on every time that the driver stores: a lock is acquired only where none of
-- its name is there. Then, whatever calls that do not release that lock lie between, whoever asks for
-- it is refused, at any time and for any time to live, since a lock never expires; and whoever asks
-- for it right after a release gets it.
pub acquire_exclusive :
    (datetime : Datetime) (now : ℕ) (n : Text) (ttl : ℕ) (s : Store) (cs : List LockCall)
    (later ttl' : ℕ)
    → AllNull datetime
    → (acquire_job_lock datetime now n ttl s).0 ≡ ok true
    → any (is_release n) cs ≡ false
    → (has_lock n s.locks ≡ false)
      × ((acquire_job_lock datetime later n ttl'
            (after_calls datetime cs (acquire_job_lock datetime now n ttl s).1)).0
          ≡ ok false)
      × ((acquire_job_lock datetime later n ttl'
            (release_job_lock n
              (after_calls datetime cs (acquire_job_lock datetime now n ttl s).1)).1).0
          ≡ ok true)
acquire_exclusive datetime now n ttl s cs later ttl' null e kept =
    let (absent, there) = acquired datetime null now n ttl s e in
    let t : Store = after_calls datetime cs (acquire_job_lock datetime now n ttl s).1 in
    (
      absent,
      answer_of datetime null later n ttl' t
          ∙ ap (λ (b : Bool). ok (not b))
              (calls_keep datetime null n cs (acquire_job_lock datetime now n ttl s).1 kept there),
      answer_of datetime null later n ttl' (release_job_lock n t).1
          ∙ ap (λ (b : Bool). ok (not b)) (release_frees n t),
    )
