-- ===== src/TypeSystem/Equal.antt =====
-- LogicalType.Equal (internal/typesystem/logical_type.go): it decides equality.
use o_rabbit.Prelude.{
  ℕ, ℤ, pos, negsuc, suc, ◌-◌, if◌then◌else◌, ◌≡◌, refl, sym, ◌∙◌, ap, Bool, true, false, ◌&&◌,
  Option, none, some, List, [], ◌∷◌, arith, ◌==◌, ==_iff, ◌↔◌,
}
use o_rabbit.TypeSystem.{Kind, LogicalType, Ref, Fields, logical, nil, ref, no_fields, field}
use o_rabbit.TypeSystem.Bytes.{Text, same_text}

-- The value of a Kind, a uint8.
unfoldable pub kind_number : Kind → ℕ
kind_number Kind.unknown = 0
kind_number Kind.string = 1
kind_number Kind.bool = 2
kind_number Kind.int8 = 3
kind_number Kind.int16 = 4
kind_number Kind.int32 = 5
kind_number Kind.int64 = 6
kind_number Kind.uint8 = 7
kind_number Kind.uint16 = 8
kind_number Kind.uint32 = 9
kind_number Kind.uint64 = 10
kind_number Kind.float32 = 11
kind_number Kind.float64 = 12
kind_number Kind.decimal = 13
kind_number Kind.date = 14
kind_number Kind.time = 15
kind_number Kind.timestamp = 16
kind_number Kind.timestamp_tz = 17
kind_number Kind.uuid = 18
kind_number Kind.binary = 19
kind_number Kind.json = 20
kind_number Kind.array = 21
kind_number Kind.struct = 22
kind_number Kind.map = 23

abbrev pub same_bool : Bool → Bool → Bool
same_bool true b = b
same_bool false true = false
same_bool false false = true

abbrev pub same_int : ℤ → ℤ → Bool
same_int (pos m) (pos n) = m == n
same_int (negsuc m) (negsuc n) = m == n
same_int _ _ = false

-- equalInt32
unfoldable pub equal_int32 : Option ℤ → Option ℤ → Bool
equal_int32 none none = true
equal_int32 (some x) (some y) = same_int x y
equal_int32 _ _ = false

-- len(t.Fields)
unfoldable pub number_of_fields : Fields → ℕ
number_of_fields no_fields = 0
number_of_fields (field name t fs) = suc (number_of_fields fs)

unfoldable mutual
  unfolding kind_number equal_int32 same_text number_of_fields

  pub equal : LogicalType → LogicalType → Bool
  equal (logical kind null p s tz e k v fs) (logical kind' null' p' s' tz' e' k' v' fs') =
      kind_number kind == kind_number kind'
      && same_bool null null'
      && same_text tz tz'
      && equal_int32 p p'
      && equal_int32 s s'
      && equal_ref e e'
      && equal_ref k k'
      && equal_ref v v'
      && number_of_fields fs == number_of_fields fs'
      && equal_fields fs fs'

  -- equalTypePointer
  pub equal_ref : Ref → Ref → Bool
  equal_ref nil nil = true
  equal_ref nil (ref u) = false
  equal_ref (ref t) nil = false
  equal_ref (ref t) (ref u) = equal t u

  -- The loop over the fields, which are as many on both sides.
  pub equal_fields : Fields → Fields → Bool
  equal_fields no_fields _ = true
  equal_fields (field name t fs) no_fields = true
  equal_fields (field name t fs) (field name' t' fs') =
      same_text name name' && equal t t' && equal_fields fs fs'

abbrev kinds : List Kind
kinds =
    Kind.unknown ∷ Kind.string ∷ Kind.bool ∷ Kind.int8 ∷ Kind.int16 ∷ Kind.int32 ∷ Kind.int64
    ∷ Kind.uint8 ∷ Kind.uint16 ∷ Kind.uint32 ∷ Kind.uint64 ∷ Kind.float32 ∷ Kind.float64
    ∷ Kind.decimal ∷ Kind.date ∷ Kind.time ∷ Kind.timestamp ∷ Kind.timestamp_tz ∷ Kind.uuid
    ∷ Kind.binary ∷ Kind.json ∷ Kind.array ∷ Kind.struct ∷ Kind.map ∷ []

abbrev kind_at : List Kind → ℕ → Kind
kind_at [] n = Kind.unknown
kind_at (k ∷ ks) n = let rest = kind_at ks (n - 1) in if n == 0 then k else rest

kind_at-kind_number : (k : Kind) → kind_at kinds (kind_number k) ≡ k
unfolding kind_number
kind_at-kind_number Kind.unknown = refl
kind_at-kind_number _ = refl

kind_number_injective : (a b : Kind) → kind_number a ≡ kind_number b → a ≡ b
kind_number_injective a b e =
    sym (kind_at-kind_number a) ∙ ap (kind_at kinds) e ∙ kind_at-kind_number b

==_refl : (n : ℕ) → (n == n) ≡ true
==_refl n = ground arith

same_text_eq : (xs ys : Text) → same_text xs ys ≡ true → xs ≡ ys
unfolding same_text
same_text_eq [] [] h = refl
same_text_eq [] (y ∷ ys) h = cc
same_text_eq (x ∷ xs) [] h = cc
same_text_eq (x ∷ xs) (y ∷ ys) h = ground (arith, same_text_eq xs ys)

same_text_refl : (xs : Text) → same_text xs xs ≡ true
unfolding same_text
same_text_refl [] = refl
same_text_refl (x ∷ xs) = rw (==_refl x) (same_text_refl xs)

equal_int32_eq : (a b : Option ℤ) → equal_int32 a b ≡ true → a ≡ b
unfolding equal_int32
equal_int32_eq none none h = refl
equal_int32_eq none (some y) h = cc
equal_int32_eq (some x) none h = cc
equal_int32_eq (some (pos m)) (some (pos n)) h = ap (λ k. some (pos k)) ((==_iff m n).0 h)
equal_int32_eq (some (pos m)) (some (negsuc n)) h = cc
equal_int32_eq (some (negsuc m)) (some (pos n)) h = cc
equal_int32_eq (some (negsuc m)) (some (negsuc n)) h = ap (λ k. some (negsuc k)) ((==_iff m n).0 h)

equal_int32_refl : (a : Option ℤ) → equal_int32 a a ≡ true
unfolding equal_int32
equal_int32_refl none = refl
equal_int32_refl (some (pos n)) = ==_refl n
equal_int32_refl (some (negsuc n)) = ==_refl n

same_bool_eq : (a b : Bool) → same_bool a b ≡ true → a ≡ b
same_bool_eq true b h = sym h
same_bool_eq false true h = cc
same_bool_eq false false h = refl

same_bool_refl : (a : Bool) → same_bool a a ≡ true
same_bool_refl true = refl
same_bool_refl false = refl

both_true : (a b c : Bool) → (a && b && c) ≡ true → (a ≡ true) × (b ≡ true) × (c ≡ true)
both_true true true c h = (refl, refl, h)
both_true true false c h = cc
both_true false b c h = cc

all_true :
    (a b c d e f g i j k : Bool)
    → (a && b && c && d && e && f && g && i && j && k) ≡ true
    → (a ≡ true)
      × (b ≡ true)
      × (c ≡ true)
      × (d ≡ true)
      × (e ≡ true)
      × (f ≡ true)
      × (g ≡ true)
      × (i ≡ true)
      × (j ≡ true)
      × (k ≡ true)
all_true true true true true true true true true true k h =
    (refl, refl, refl, refl, refl, refl, refl, refl, refl, h)
all_true _ b c d e f g i j k h = cc

mutual
  unfolding equal number_of_fields

  equal_eq : (t u : LogicalType) → equal t u ≡ true → t ≡ u
  equal_eq (logical kind null p s tz e k v fs) (logical kind' null' p' s' tz' e' k' v' fs') h =
      let (h₁, h₂, h₃, h₄, h₅, h₆, h₇, h₈, h₉, h₁₀) =
        all_true (kind_number kind == kind_number kind') (same_bool null null') (same_text tz tz')
          (equal_int32 p p') (equal_int32 s s') (equal_ref e e') (equal_ref k k') (equal_ref v v')
          (number_of_fields fs == number_of_fields fs') (equal_fields fs fs') h in
      rw
        (
          kind_number_injective kind kind' ((==_iff _ _).0 h₁),
          same_bool_eq null null' h₂,
          same_text_eq tz tz' h₃,
          equal_int32_eq p p' h₄,
          equal_int32_eq s s' h₅,
          equal_ref_eq e e' h₆,
          equal_ref_eq k k' h₇,
          equal_ref_eq v v' h₈,
          equal_fields_eq fs fs' ((==_iff _ _).0 h₉) h₁₀,
        )
        refl

  equal_ref_eq : (a b : Ref) → equal_ref a b ≡ true → a ≡ b
  equal_ref_eq nil nil h = refl
  equal_ref_eq nil (ref u) h = cc
  equal_ref_eq (ref t) nil h = cc
  equal_ref_eq (ref t) (ref u) h = ap ref (equal_eq t u h)

  equal_fields_eq :
      (fs gs : Fields)
      → number_of_fields fs ≡ number_of_fields gs
      → equal_fields fs gs ≡ true
      → fs ≡ gs
  equal_fields_eq no_fields no_fields n h = refl
  equal_fields_eq no_fields (field name t gs) n h = absurd (omega arith)
  equal_fields_eq (field name t fs) no_fields n h = absurd (omega arith)
  equal_fields_eq (field name t fs) (field name' u gs) n h =
      let (h₁, h₂, h₃) = both_true (same_text name name') (equal t u) (equal_fields fs gs) h in
      rw (same_text_eq name name' h₁, equal_eq t u h₂, equal_fields_eq fs gs (omega arith) h₃) refl

mutual
  unfolding equal number_of_fields

  equal_refl : (t : LogicalType) → equal t t ≡ true
  equal_refl (logical kind null p s tz e k v fs) =
      rw
        (
          ==_refl (kind_number kind),
          same_bool_refl null,
          same_text_refl tz,
          equal_int32_refl p,
          equal_int32_refl s,
          equal_ref_refl e,
          equal_ref_refl k,
          equal_ref_refl v,
          ==_refl (number_of_fields fs),
          equal_fields_refl fs,
        )
        refl

  equal_ref_refl : (a : Ref) → equal_ref a a ≡ true
  equal_ref_refl nil = refl
  equal_ref_refl (ref t) = equal_refl t

  equal_fields_refl : (fs : Fields) → equal_fields fs fs ≡ true
  equal_fields_refl no_fields = refl
  equal_fields_refl (field name t fs) =
      rw (same_text_refl name, equal_refl t, equal_fields_refl fs) refl

-- Equal holds of two types exactly where they are the same.
pub equal_iff : (t u : LogicalType) → (equal t u ≡ true) ↔ (t ≡ u)
equal_iff t u = (equal_eq t u, λ e. rw e (equal_refl u))
