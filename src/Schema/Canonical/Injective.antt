-- ===== src/Schema/Canonical/Injective.antt =====
-- `canonicalBytes` tells field lists apart, except by descriptions.
use bqcubbit.Base.{
  ℕ, Text, ◌==◌, ◌≡◌, ◌≢◌, refl, ap, sym, ◌∙◌, Bool, true, false, not, ◌||◌, every, arith, [], ◌∷◌,
  ◌++◌, ◌⊎◌, inl, inr, if◌then◌else◌,
}
use mathlib.Core.List.{append_assoc}
use bqcubbit.Schema.{Head, Fields, nil, cons}
use bqcubbit.Schema.Canonical.{nested, canonical_from, canonical_bytes}

-- Bytes that the canonical form does not use for itself.
abbrev pub is_plain : ℕ → Bool
is_plain c = not (c == 0 || c == b'{' || c == b'}')

abbrev pub IsPlain : Text → Type 0
IsPlain t = every is_plain t ≡ true

-- Names, types and modes of plain bytes, at every level.
abbrev pub IsClean : Fields → Type 0
IsClean nil = Unit
IsClean (cons h s r) = (IsPlain h.name × IsPlain h.type × IsPlain h.mode) × IsClean s × IsClean r

-- A field list without its descriptions.
unfoldable pub strip : Fields → Fields
strip nil = nil
strip (cons h s r) = cons (record h { description = [] }) (strip s) (strip r)

-- Begins with no plain byte.
abbrev Stops : Text → Type 0
Stops [] = Unit
Stops (c ∷ t) = is_plain c ≡ false

token :
    (x y u v : Text)
    → IsPlain x
    → IsPlain y
    → Stops u
    → Stops v
    → x ++ u ≡ y ++ v
    → (x ≡ y) × (u ≡ v)
token [] [] u v p q s t e = (refl, e)
token [] (c ∷ y) [] v p q s t e = ground arith
token [] (c ∷ y) (d ∷ u) v p q s t e = ground arith
token (c ∷ x) [] u [] p q s t e = ground arith
token (c ∷ x) [] u (d ∷ v) p q s t e = ground arith
token (c ∷ x) (d ∷ y) u v p q s t e = ground (arith, token x y u v)

tail_eq : (c : ℕ) (u v : Text) → ◌≡◌ {A = Text} (c ∷ u) (c ∷ v) → u ≡ v
tail_eq c u v e = cc

-- What follows a field list: nothing, or the bracket that closes it.
abbrev Ends : Text → Type 0
Ends [] = Unit
Ends (c ∷ t) = c ≡ b'}'

entry : Head → Text → Text
entry h tail = h.name ++ (0 ∷ (h.type ++ (0 ∷ (h.mode ++ tail))))

abbrev IsCleanHead : Head → Type 0
IsCleanHead h = IsPlain h.name × IsPlain h.type × IsPlain h.mode

entry-injective :
    (h k : Head) (u v : Text)
    → IsCleanHead h
    → IsCleanHead k
    → Stops u
    → Stops v
    → entry h u ≡ entry k v
    → (record h { description = [] } ≡ record k { description = [] }) × (u ≡ v)
unfolding entry
entry-injective h k u v p q s t e =
    let (names, e1) =
      token h.name k.name (0 ∷ (h.type ++ (0 ∷ (h.mode ++ u))))
        (0 ∷ (k.type ++ (0 ∷ (k.mode ++ v)))) p.0 q.0 refl refl e in
    let (types, e2) =
      token h.type k.type (0 ∷ (h.mode ++ u)) (0 ∷ (k.mode ++ v)) p.1 q.1 refl refl
        (tail_eq 0 _ _ e1) in
    let (modes, rest) = token h.mode k.mode u v p.2 q.2 s t (tail_eq 0 _ _ e2) in
    (ground arith, rest)

canonical_from-append :
    (first : Bool) (h : Head) (s r : Fields) (u : Text)
    → canonical_from first (cons h s r) ++ u
      ≡ (if first then [] else 0 ∷ [])
        ++ entry h (nested s (canonical_from true s) ++ (canonical_from false r ++ u))
unfolding canonical_from entry
canonical_from-append true h s r u = simp append_assoc
canonical_from-append false h s r u = simp append_assoc

rest-Stops : (r : Fields) (u : Text) → Ends u → Stops (canonical_from false r ++ u)
unfolding canonical_from
rest-Stops nil [] e = tt
rest-Stops nil (c ∷ u) e = ground arith
rest-Stops (cons h s r) u e = refl

nested-Stops : (s : Fields) (b x : Text) → Stops x → Stops (nested s b ++ x)
unfolding nested
nested-Stops nil b x e = e
nested-Stops (cons h s r) b x e = refl

entry_not_open : (h : Head) (t w : Text) → IsCleanHead h → entry h t ≢ b'{' ∷ w
unfolding entry
entry_not_open h t w p = go h.name p.0
  where
    go : (n : Text) → IsPlain n → n ++ (0 ∷ (h.type ++ (0 ∷ (h.mode ++ t)))) ≢ b'{' ∷ w
    go [] q e = ground arith
    go (c ∷ n) q e = ground arith

entry_not_end : (h : Head) (t u : Text) → IsCleanHead h → Ends u → u ≢ entry h t
unfolding entry
entry_not_end h t u p = go h.name u p.0
  where
    go : (n u : Text) → IsPlain n → Ends u → u ≢ n ++ (0 ∷ (h.type ++ (0 ∷ (h.mode ++ t))))
    go [] [] q d e = ground arith
    go [] (c ∷ u) q d e = ground arith
    go (b ∷ n) [] q d e = ground arith
    go (b ∷ n) (c ∷ u) q d e = ground arith

-- A list of fields that begins after a separator is not mistaken for a nested list.
not_open :
    (r : Fields) (u w : Text) → IsClean r → Ends u → canonical_from false r ++ u ≢ 0 ∷ b'{' ∷ w
unfolding canonical_from
not_open nil [] w p d e = ground arith
not_open nil (c ∷ u) w p d e = ground arith
not_open (cons h s r) u w p d e =
    entry_not_open h (nested s (canonical_from true s) ++ (canonical_from false r ++ u)) w p.0
      (tail_eq 0 _ _ (sym (canonical_from-append false h s r u) ∙ e))

-- What follows the mode of a field determines its nested list and what comes after it. `u` and `v`
-- are what follows the lists `r` and `q` in which the fields stand.
unnest :
    (s t r q : Fields) (b c u v : Text)
    → IsClean r
    → IsClean q
    → Ends u
    → Ends v
    → nested s b ++ (canonical_from false r ++ u) ≡ nested t c ++ (canonical_from false q ++ v)
    → ((s ≡ nil) × (t ≡ nil) × (canonical_from false r ++ u ≡ canonical_from false q ++ v))
      ⊎ ((s ≢ nil)
          × (t ≢ nil)
          × (b ++ (b'}' ∷ (canonical_from false r ++ u))
              ≡ c ++ (b'}' ∷ (canonical_from false q ++ v))))
unfolding nested
unnest nil nil r q b c u v p p' d d' e = inl (refl, refl, e)
unnest nil (cons k t t') r q b c u v p p' d d' e = absurd (not_open r u _ p d e)
unnest (cons h s s') nil r q b c u v p p' d d' e = absurd (not_open q v _ p' d' (sym e))
unnest (cons h s s') (cons k t t') r q b c u v p p' d d' e = inr (
  λ x. cc,
  λ x. cc,
  sym (append_assoc b _ _) ∙ tail_eq b'{' _ _ (tail_eq 0 _ _ e) ∙ append_assoc c _ _,
)

first_bytes :
    (first : Bool) (x y : Text)
    → (if first then [] else 0 ∷ []) ++ x ≡ (if first then [] else 0 ∷ []) ++ y
    → x ≡ y
first_bytes true x y e = e
first_bytes false x y e = tail_eq 0 _ _ e

not_end :
    (first : Bool) (h : Head) (t u : Text)
    → IsCleanHead h
    → Ends u
    → u ≢ (if first then [] else 0 ∷ []) ++ entry h t
not_end true h t u p d e = entry_not_end h t u p d e
not_end false h t [] p d e = ground arith
not_end false h t (c ∷ u) p d e = ground arith

canonical_from-nil : (first : Bool) (u : Text) → canonical_from first nil ++ u ≡ u
unfolding canonical_from
canonical_from-nil first u = refl

canonical_from-injective :
    (first : Bool) (a b : Fields) (u v : Text)
    → IsClean a
    → IsClean b
    → Ends u
    → Ends v
    → canonical_from first a ++ u ≡ canonical_from first b ++ v
    → (strip a ≡ strip b) × (u ≡ v)
unfolding strip
canonical_from-injective first nil nil u v p q d d' e =
    (refl, sym (canonical_from-nil first u) ∙ e ∙ canonical_from-nil first v)
canonical_from-injective first nil (cons k t q) u v p p' d d' e = absurd (
    not_end first k _ u p'.0 d
      (sym (canonical_from-nil first u) ∙ e ∙ canonical_from-append first k t q v))
canonical_from-injective first (cons h s r) nil u v p p' d d' e = absurd (
    not_end first h _ v p.0 d'
      (sym (canonical_from-nil first v) ∙ sym e ∙ canonical_from-append first h s r u))
canonical_from-injective first (cons h s r) (cons k t q) u v p p' d d' e =
    let joined =
      first_bytes first _ _
        (sym (canonical_from-append first h s r u) ∙ e ∙ canonical_from-append first k t q v) in
    let (heads, tails) =
      entry-injective h k _ _ p.0 p'.0 (nested-Stops s _ _ (rest-Stops r u d))
        (nested-Stops t _ _ (rest-Stops q v d')) joined in
    elim (unnest s t r q (canonical_from true s) (canonical_from true t) u v p.2 p'.2 d d' tails) [
      | inl (no_s, no_t, rests) ↦
          let (strips, ends) = canonical_from-injective false r q u v p.2 p'.2 d d' rests in
          (ap₃ heads (rw (no_s, no_t)) strips, ends)
      | inr (some_s, some_t, bodies) ↦
          let (subs, after) = canonical_from-injective true s t _ _ p.1 p'.1 refl refl bodies in
          let (strips, ends) =
            canonical_from-injective false r q u v p.2 p'.2 d d' (tail_eq b'}' _ _ after) in
          (ap₃ heads subs strips, ends)
    ]
  where
    ap₃ :
        record h { description = [] } ≡ record k { description = [] }
        → strip s ≡ strip t
        → strip r ≡ strip q
        → ◌≡◌ {A = Fields}
            (cons (record h { description = [] }) (strip s) (strip r))
            (cons (record k { description = [] }) (strip t) (strip q))
    ap₃ x y z = cc

-- Two field lists whose names, types and modes hold no byte 0, `{` or `}` have the same canonical
-- bytes only if they are equal up to descriptions, nested fields included.
pub canonical_bytes-injective :
    (a b : Fields)
    → IsClean a
    → IsClean b
    → canonical_bytes a ≡ canonical_bytes b
    → strip a ≡ strip b
unfolding canonical_bytes
canonical_bytes-injective a b p q e =
    (canonical_from-injective true a b [] [] p q tt tt (ap (λ (t : Text). t ++ []) e)).0
