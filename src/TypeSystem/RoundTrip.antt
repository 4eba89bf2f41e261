-- ===== src/TypeSystem/RoundTrip.antt =====
-- The printed form of a logical type is parsed back (internal/typesystem, LogicalType.String and
-- ParseType).
use mathlib.Core.List.{append_assoc}
use o_rabbit.Prelude.{
  ℕ, ◌<◌, ◌≤◌, zero, suc, pos, ℤ, ◌≡◌, refl, true, false, Option, none, some, [], ◌∷◌, ◌++◌, arith,
  ◌==◌, length,
}
use o_rabbit.TypeSystem.{
  Kind, LogicalType, logical, plain, decimal_of, timestamp_tz_of, array_of, map_of, nullable,
}
use o_rabbit.TypeSystem.Bytes.{Text, bytes, is_space, skip_space, show_digits}
use o_rabbit.TypeSystem.Print.{kind_name, render_decimal, render_timestamp_tz, print}
use o_rabbit.TypeSystem.Validate.{is_valid}
use o_rabbit.TypeSystem.Numbers.{span-append, int32-show}
use o_rabbit.TypeSystem.Parse.Result.{ok}
use o_rabbit.TypeSystem.Parse.Lexical.{peek}
use o_rabbit.TypeSystem.Parse.Types.{parse_decimal, parse_type}
use o_rabbit.TypeSystem.Printable.{is_simple, is_nullable, is_zone_byte, IsZone, Ends, by_end}

-- With fuel for its bytes the parser reads a printed type and leaves what follows.
abbrev pub Reads : LogicalType → Type 0
Reads t =
    (rest : Text) (f : ℕ)
    → Ends rest
    → length (print t) < f
    → parse_type f (print t ++ rest) ≡ ok (t, rest)

-- Fuel above a bound is one more than fuel that reaches it.
pub one_less {ℓ} :
    {least : ℕ} (P : ℕ → Type ℓ)
    → ((left : ℕ) → least ≤ left → P (suc left))
    → (fuel : ℕ) → least < fuel
    → P fuel
one_less P step zero h = absurd (omega arith)
one_less P step (suc left) h = step left (omega arith)

pub print-plain : (k : Kind) → is_simple k ≡ true → print (plain k) ≡ kind_name k
unfolding print
print-plain Kind.unknown h = cc
print-plain Kind.decimal h = cc
print-plain Kind.array h = cc
print-plain Kind.map h = cc
print-plain Kind.struct h = cc
print-plain k h = refl

pub plain-Reads :
    (k : Kind)
    → is_simple k ≡ true
    → (f : ℕ) (rest : Text) → Ends rest
    → parse_type (suc f) (kind_name k ++ rest) ≡ ok (plain k, rest)
unfolding parse_type kind_name
plain-Reads Kind.unknown h f = cc
plain-Reads Kind.decimal h f = cc
plain-Reads Kind.array h f = cc
plain-Reads Kind.map h f = cc
plain-Reads Kind.struct h f = cc
plain-Reads k h f =
    by_end (λ r. parse_type (suc f) (kind_name k ++ r) ≡ ok (plain k, r)) refl (λ r. refl)
      (λ r. refl)

parse_decimal-show :
    (p s : ℕ) (rest : Text)
    → p ≤ 2147483647
    → s ≤ 2147483647
    → is_valid (decimal_of (pos p) (pos s)) ≡ true
    → parse_decimal (b'(' ∷ (show_digits 10 p ++ b',' ∷ (show_digits 10 s ++ b')' ∷ rest)))
      ≡ ok (decimal_of (pos p) (pos s), rest)
unfolding parse_decimal skip_space
parse_decimal-show p s rest hp hs valid =
    rw (int32-show p b',' (show_digits 10 s ++ b')' ∷ rest) hp refl)
      (rw (int32-show s b')' rest hs refl) (rw valid refl))

pub decimal-Reads :
    (p s : ℕ)
    → p ≤ 2147483647
    → s ≤ 2147483647
    → is_valid (decimal_of (pos p) (pos s)) ≡ true
    → (rest : Text) (f : ℕ)
    → parse_type (suc f) (print (decimal_of (pos p) (pos s)) ++ rest)
      ≡ ok (decimal_of (pos p) (pos s), rest)
unfolding parse_type print
decimal-Reads p s hp hs valid rest f = simp append_assoc (parse_decimal-show p s rest hp hs valid)

pub zone-Reads :
    (tz rest : Text) (f : ℕ)
    → IsZone tz
    → parse_type (suc f) (print (timestamp_tz_of tz) ++ rest) ≡ ok (timestamp_tz_of tz, rest)
unfolding parse_type print
zone-Reads [] rest f z = absurd (z.not_empty refl)
zone-Reads (c ∷ cs) rest f z =
    let first : is_zone_byte c ≡ true = ground arith in
    simp append_assoc
      (rw (first, span-append is_zone_byte cs b']' rest (ground arith) refl, z.trimmed) refl)

-- A printed type starts with a lower-case letter.
record StartsType (s : Text) : Type 0 where
  head : ℕ
  rest : Text
  shape : s ≡ head ∷ rest
  letter : (b'a' ≤ head) × (head ≤ b'z')

starts_with : (c : ℕ) (cs : Text) → b'a' ≤ c → c ≤ b'z' → StartsType (c ∷ cs)
starts_with c cs h k = record { head = c; rest = cs; shape = refl; letter = (h, k) }

decimal-StartsType : (p s : Option ℤ) → StartsType (render_decimal p s)
unfolding render_decimal
decimal-StartsType none none = starts_with _ _ (omega arith) (omega arith)
decimal-StartsType none (some s) = starts_with _ _ (omega arith) (omega arith)
decimal-StartsType (some p) s = starts_with _ _ (omega arith) (omega arith)

zone-StartsType : (tz : Text) → StartsType (render_timestamp_tz tz)
unfolding render_timestamp_tz
zone-StartsType [] = starts_with _ _ (omega arith) (omega arith)
zone-StartsType (c ∷ cs) = starts_with _ _ (omega arith) (omega arith)

print-StartsType : (t : LogicalType) → StartsType (print t)
unfolding print
print-StartsType (logical k true p s tz e key v fs) = starts_with _ _ (omega arith) (omega arith)
print-StartsType (logical Kind.decimal false p s tz e key v fs) = decimal-StartsType p s
print-StartsType (logical Kind.timestamp_tz false p s tz e key v fs) = zone-StartsType tz
print-StartsType (logical k false p s tz e key v fs) = starts_with _ _ (omega arith) (omega arith)

pub skip_space-print : (t : LogicalType) (r : Text) → skip_space (print t ++ r) ≡ print t ++ r
unfolding skip_space
skip_space-print t r =
    let k = print-StartsType t in
    let solid : is_space k.head ≡ false = space_free k.head k.letter in rw (k.shape, solid) refl
  where
    space_free : (c : ℕ) → (b'a' ≤ c) × (c ≤ b'z') → is_space c ≡ false
    space_free c h = ground arith

peek-print : (t : LogicalType) (r : Text) → peek b'>' (print t ++ r) ≡ false
peek-print t r =
    let k = print-StartsType t in
    let other : (k.head == b'>') ≡ false = no_close k.head k.letter in rw (k.shape, other) refl
  where
    no_close : (c : ℕ) → (b'a' ≤ c) × (c ≤ b'z') → (c == b'>') ≡ false
    no_close c h = ground arith

pub array-Reads :
    (t : LogicalType) (rest : Text) (f : ℕ)
    → parse_type f (print t ++ b'>' ∷ rest) ≡ ok (t, b'>' ∷ rest)
    → parse_type (suc f) (print (array_of t) ++ rest) ≡ ok (array_of t, rest)
unfolding parse_type print
array-Reads t rest f ih =
    simp append_assoc
      (rw (skip_space-print t (b'>' ∷ rest)) (rw (peek-print t (b'>' ∷ rest)) (rw ih refl)))

pub print-nullable :
    (t : LogicalType)
    → is_nullable t ≡ false
    → print (nullable t) ≡ bytes "nullable<" ++ (print t ++ b'>' ∷ [])
unfolding print nullable
print-nullable (logical k false p s tz e key v fs) h = refl
print-nullable (logical k true p s tz e key v fs) h = cc

pub nullable-Reads :
    (t : LogicalType) (rest : Text) (f : ℕ)
    → is_nullable t ≡ false
    → parse_type f (print t ++ b'>' ∷ rest) ≡ ok (t, b'>' ∷ rest)
    → parse_type (suc f) (print (nullable t) ++ rest) ≡ ok (nullable t, rest)
unfolding parse_type
nullable-Reads t rest f h ih = rw (print-nullable t h) (
    simp append_assoc
      (rw (skip_space-print t (b'>' ∷ rest)) (rw (peek-print t (b'>' ∷ rest)) (rw ih refl))))

pub map-Reads :
    (k v : LogicalType) (rest : Text) (f : ℕ)
    → parse_type f (print k ++ b',' ∷ (print v ++ b'>' ∷ rest))
      ≡ ok (k, b',' ∷ (print v ++ b'>' ∷ rest))
    → parse_type f (print v ++ b'>' ∷ rest) ≡ ok (v, b'>' ∷ rest)
    → parse_type (suc f) (print (map_of k v) ++ rest) ≡ ok (map_of k v, rest)
unfolding parse_type print
map-Reads k v rest f ih ih' = simp append_assoc (rw ih (rw ih' refl))
