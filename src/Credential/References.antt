-- ===== src/Credential/References.antt =====
-- pkg/credential/ref.go: how references are written and read.
use xops_cli.Base.{
  Bool, Bool-cases, In, here, there, List, Option-cases, [], any, any-false-In, In-any-false, arith,
  contains_any, false, inl, inr, is_space, negate-true, refl, some, text_beq, text_eq, nat_eq,
  trim_left, trim_right, trim_space, true, ℕ, ◌!=◌, ◌++◌, ◌==◌, ◌∷◌, ◌≡◌, ◌⊎◌, ◌↔◌, ==→eq, ==_refl,
  and_parts, sym, ◌∙◌, ap, subst, In-append_left, In-append_right,
}
use mathlib.Core.List.{reverse, reverse-cons}
use xops_cli.Credential.Refs.{
  Ref, cut_at, empty_ref, is_empty, parse_ref, ref_string, validate_identifier, validate_ref,
}

-- The texts that stand for a reference, which is a valid one
abbrev Written : List ℕ → Ref → Type 0
Written s r =
    (validate_ref r ≡ true)
    × ((ref_string r ≡ s) ⊎ ((r ≡ empty_ref) × ((trim_space s ≡ []) ⊎ (s ≡ b'/' ∷ []))))

cut_at-append :
    (sep : ℕ) (a b : List ℕ)
    → any (λ c. c == sep) a ≡ false
    → cut_at sep (a ++ sep ∷ b) ≡ some (a, b)
unfolding cut_at
cut_at-append sep [] b h = ground (arith, ==_refl sep)
cut_at-append sep (c ∷ a) b h = ground (arith, cut_at-append sep a b, h)

cut_at-some : (sep : ℕ) (s a b : List ℕ) → cut_at sep s ≡ some (a, b) → s ≡ a ++ sep ∷ b
unfolding cut_at
cut_at-some sep [] a b h = absurd (cc h)
cut_at-some sep (c ∷ s) a b h = elim (Bool-cases (c == sep)) [
  | inl e ↦
      let p : [] ≡ a = ground (arith, e, h) in
      let q : s ≡ b = ground (arith, e, h) in
      subst (λ x. c ∷ s ≡ x ++ sep ∷ b) p (ground (arith, q, ==→eq c sep e))
  | inr e ↦ elim (Option-cases (cut_at sep s)) [
    | inl n ↦ absurd (ground (arith, e, n, h))
    | inr ((x, y), k) ↦
        let p : c ∷ x ≡ a = ground (arith, e, k, h) in
        let q : y ≡ b = ground (arith, e, k, h) in
        subst (λ x'. c ∷ s ≡ x' ++ sep ∷ b) p
          (ap (◌∷◌ c) (cut_at-some sep s x y k ∙ ap (λ y'. x ++ sep ∷ y') q))
  ]
]

trim_left-In : (p : ℕ → Bool) (s : List ℕ) (c : ℕ) → In c s → p c ≡ false → In c (trim_left p s)
unfolding trim_left
trim_left-In p [] c m n = elim m [ ]
trim_left-In p (d ∷ s) c here n = rw n here
trim_left-In p (d ∷ s) c (there m) n = elim (Bool-cases (p d)) [
  | inl e ↦ simp (trim_left, e) (trim_left-In p s c m n)
  | inr e ↦ simp (trim_left, e) (there m)
]

In-reverse : (s : List ℕ) (c : ℕ) → In c s → In c (reverse s)
In-reverse [] c m = elim m [ ]
In-reverse (d ∷ s) c here = subst (In d) (sym (reverse-cons d s)) (In-append_right (reverse s) here)
In-reverse (d ∷ s) c (there m) =
    subst (In c) (sym (reverse-cons d s)) (In-append_left (d ∷ []) (In-reverse s c m))

trim_space-In : (s : List ℕ) (c : ℕ) → In c s → is_space c ≡ false → In c (trim_space s)
unfolding trim_space trim_right
trim_space-In s c m n =
    let l = trim_left is_space s in
    In-reverse (trim_left is_space (reverse l)) c
      (trim_left-In is_space (reverse l) c (In-reverse l c (trim_left-In is_space s c m n)) n)

not-blank : (s : List ℕ) → In b'/' s → (trim_space s == []) ≡ false
unfolding is_space
not-blank s m = elim (Bool-cases (trim_space s == [])) [
  | inl e ↦ elim (subst (In b'/') (==→eq (trim_space s) [] e) (trim_space-In s b'/' m refl)) [ ]
  | inr e ↦ e
]

is_empty-eq : (r : Ref) → is_empty r ≡ true → r ≡ empty_ref
unfolding is_empty
is_empty-eq r e =
    let (p, q) = and_parts {a = r.store_id == []} {b = r.item_id == []} e in
    ground (arith, ==→eq r.store_id [] p, ==→eq r.item_id [] q)

identifier-slash :
    (val : List ℕ) → validate_identifier val ≡ true → any (λ c. c == b'/') val ≡ false
unfolding validate_identifier contains_any
identifier-slash val v =
    let (t, n) = and_parts {a = trim_space val != []} v in
    let none_bad = negate-true n in
    In-any-false (λ c. c == b'/') val
      (λ c m. ground (
        arith,
        any-false-In (λ x. any (λ d. x == d) (b'/' ∷ b'\\' ∷ b' ' ∷ b'\t' ∷ b'\r' ∷ b'\n' ∷ 0 ∷ []))
            none_bad m,
      ))

-- A valid reference with both parts is read again from its text.
parse-full :
    (r : Ref)
    → validate_ref r ≡ true
    → is_empty r ≡ false
    → parse_ref (r.store_id ++ b'/' ∷ r.item_id) ≡ some r
unfolding parse_ref validate_ref
parse-full r v e =
    let store_valid : validate_identifier r.store_id ≡ true = ground (arith, v, e) in
    let cuts = cut_at-append b'/' r.store_id r.item_id (identifier-slash r.store_id store_valid) in
    let full = not-blank (r.store_id ++ b'/' ∷ r.item_id) (In-append_right r.store_id here) in
    simp (parse_ref, full, cuts, v) refl

parse-blank : (s : List ℕ) → trim_space s ≡ [] → parse_ref s ≡ some empty_ref
unfolding parse_ref text_beq
parse-blank s b = simp (parse_ref, b) refl

empty-valid : validate_ref empty_ref ≡ true
unfolding validate_ref is_empty text_beq
empty-valid = refl

-- What a text that is not blank is read as
parse-parts :
    (s : List ℕ) (r : Ref)
    → (trim_space s == []) ≡ false
    → parse_ref s ≡ some r
    → (validate_ref r ≡ true) × (s ≡ r.store_id ++ b'/' ∷ r.item_id)
unfolding parse_ref
parse-parts s r b h = elim (Option-cases (cut_at b'/' s)) [
  | inl n ↦ absurd (ground (arith, b, n, h))
  | inr ((x, y), k) ↦
      let read : Ref = record { store_id = x; item_id = y } in
      elim (Bool-cases (validate_ref read)) [
        | inr v ↦ absurd (ground (arith, b, k, v, h))
        | inl v ↦
            let e : read ≡ r = ground (arith, b, k, v, h) in
            subst (λ q. (validate_ref q ≡ true) × (s ≡ q.store_id ++ b'/' ∷ q.item_id)) e
              (v, cut_at-some b'/' s x y k)
      ]
]

string-full : (r : Ref) → is_empty r ≡ false → ref_string r ≡ r.store_id ++ b'/' ∷ r.item_id
unfolding ref_string
string-full r e = simp (ref_string, e) refl

read-Written : (s : List ℕ) (r : Ref) → parse_ref s ≡ some r → Written s r
read-Written s r h = elim (Bool-cases (trim_space s == [])) [
  | inl e ↦
      let b = ==→eq (trim_space s) [] e in
      let same : empty_ref ≡ r = ground (arith, sym (parse-blank s b) ∙ h) in
      subst (Written s) same (empty-valid, inr (refl, inl b))
  | inr e ↦
      let (v, split) = parse-parts s r e h in
      elim (Bool-cases (is_empty r)) [
        | inr full ↦ (v, inl (string-full r full ∙ sym split))
        | inl none_set ↦
            let same = is_empty-eq r none_set in
            (v, inr (same, inr (subst (λ q. s ≡ q.store_id ++ b'/' ∷ q.item_id) same split)))
      ]
]

Written-read : (s : List ℕ) (r : Ref) → Written s r → parse_ref s ≡ some r
unfolding ref_string parse_ref cut_at validate_ref is_empty is_space text_beq trim_space
Written-read s r (v, inl w) = elim (Bool-cases (is_empty r)) [
  | inr full ↦
      subst (λ x. parse_ref x ≡ some r) (sym (string-full r full) ∙ w) (parse-full r v full)
  | inl none_set ↦
      let same = is_empty-eq r none_set in
      let blank : s ≡ [] = sym w ∙ ap ref_string same in
      subst (λ x. parse_ref x ≡ some r) (sym blank) (ap some (sym same))
]
Written-read s r (v, inr (same, inl b)) = parse-blank s b ∙ ap some (sym same)
Written-read s r (v, inr (same, inr slash)) =
    subst (λ x. parse_ref x ≡ some r) (sym slash) (ap some (sym same))

-- Reading gives a reference exactly where it is valid and the text is the one that is written for
-- it, or where it is the empty one and the text is blank or "/".
pub parse_ref_iff :
    (s : List ℕ) (r : Ref)
    → (parse_ref s ≡ some r) ↔ (
        (validate_ref r ≡ true)
        × ((ref_string r ≡ s) ⊎ ((r ≡ empty_ref) × ((trim_space s ≡ []) ⊎ (s ≡ b'/' ∷ [])))))
parse_ref_iff s r = (read-Written s r, Written-read s r)
