-- ===== src/TypeSystem/Numbers.antt =====
-- Numbers in types (internal/typesystem): what is printed with %d is read back by the parser.
use o_rabbit.Prelude.{
  ℕ, ◌+◌, ◌-◌, ◌*◌, ◌/◌, ◌%◌, ◌<◌, ◌≤◌, zero, suc, pos, ◌≡◌, refl, sym, ◌∙◌, ap, Bool, true, false,
  ◌&&◌, [], ◌∷◌, ◌++◌, arith, ltb, leb, ltb→lt, ◌==◌, Bool-cases, inl, inr,
}
use o_rabbit.TypeSystem.Bytes.{Text, is_digit, is_space, span, show_digits, digits_value}
use o_rabbit.TypeSystem.Parse.Result.{ok}
use o_rabbit.TypeSystem.Parse.Lexical.{int32, signed}

abbrev pub every : (ℕ → Bool) → Text → Bool
every p [] = true
every p (c ∷ cs) = p c && every p cs

every-append :
    (p : ℕ → Bool) (xs ys : Text)
    → every p xs ≡ true
    → every p ys ≡ true
    → every p (xs ++ ys) ≡ true
every-append p [] ys h k = k
every-append p (x ∷ xs) ys h k = ground (arith, every-append p xs ys)

-- A prefix of bytes that meet a test is what `span` takes, up to a byte that does not.
pub span-append :
    (p : ℕ → Bool) (xs : Text) (c : ℕ) (rest : Text)
    → every p xs ≡ true
    → p c ≡ false
    → span p (xs ++ c ∷ rest) ≡ (xs, c ∷ rest)
unfolding span
span-append p [] c rest h k = rw k refl
span-append p (x ∷ xs) c rest h k =
    let e : p x ≡ true = ground arith in rw (e, span-append p xs c rest (ground arith) k) refl

show-digits : (k n : ℕ) → every is_digit (show_digits k n) ≡ true
unfolding show_digits
show-digits zero n = refl
show-digits (suc k) n = elim (Bool-cases (ltb n 10)) [
  | inl e ↦ rw e (one n (ltb→lt n 10 e))
  | inr e ↦ rw e (
      every-append is_digit (show_digits k (n / 10)) ((b'0' + n % 10) ∷ []) (show-digits k (n / 10))
        (one (n % 10) (omega arith)))
]
  where
    one : (d : ℕ) → d < 10 → every is_digit ((b'0' + d) ∷ []) ≡ true
    one d h = ground arith

digits_value-append :
    (acc : ℕ) (xs ys : Text) → digits_value acc (xs ++ ys) ≡ digits_value (digits_value acc xs) ys
unfolding digits_value
digits_value-append acc [] ys = refl
digits_value-append acc (x ∷ xs) ys = digits_value-append (acc * 10 + (x - b'0')) xs ys

-- ten k = 10 ^ k
abbrev ten : ℕ → ℕ
ten zero = 1
ten (suc k) = 10 * ten k

digits_value-show : (k n : ℕ) → n < ten k → digits_value 0 (show_digits k n) ≡ n
unfolding show_digits digits_value
digits_value-show zero n h = omega arith
digits_value-show (suc k) n h = elim (Bool-cases (ltb n 10)) [
  | inl e ↦ rw e (omega arith)
  | inr e ↦
      rw
        (
          e,
          digits_value-append 0 (show_digits k (n / 10)) ((b'0' + n % 10) ∷ []),
          digits_value-show k (n / 10) (omega arith),
        )
        (omega arith)
]

show-cons : (k n : ℕ) → (d : ℕ) × (ds : Text) × (show_digits (suc k) n ≡ d ∷ ds)
unfolding show_digits
show-cons k n = elim (Bool-cases (ltb n 10)) [
  | inl e ↦ (b'0' + n, [], rw e refl)
  | inr e ↦ let (d, ds, q) = front (show_digits k (n / 10)) (b'0' + n % 10) in (d, ds, rw e q)
]
  where
    front : (xs : Text) (c : ℕ) → (d : ℕ) × (ds : Text) × (xs ++ c ∷ [] ≡ d ∷ ds)
    front [] c = (c, [], refl)
    front (x ∷ xs) c = (x, xs ++ c ∷ [], refl)

int32-digits :
    (d : ℕ) (ds : Text) (c : ℕ) (rest : Text) (n : ℕ)
    → every is_digit (d ∷ ds) ≡ true
    → is_digit c ≡ false
    → digits_value 0 (d ∷ ds) ≡ n
    → n ≤ 2147483647
    → int32 ((d ∷ ds) ++ c ∷ rest) ≡ ok (pos n, c ∷ rest)
unfolding int32
int32-digits d ds c rest n all stop value small =
    let dig : is_digit d ≡ true = ground arith in
    let solid : is_space d ≡ false = ground arith in
    let unsigned : signed (d ∷ (ds ++ c ∷ rest)) ≡ (false, d ∷ (ds ++ c ∷ rest)) =
      no_sign d _ dig in
    let digits = span-append is_digit (d ∷ ds) c rest all stop in
    let fits : leb n 2147483647 ≡ true = ground arith in
    rw (solid, unsigned, digits, value, fits) refl
  where
    no_sign : (d : ℕ) (ds : Text) → is_digit d ≡ true → signed (d ∷ ds) ≡ (false, d ∷ ds)
    no_sign d ds h =
        let minus : (d == b'-') ≡ false = ground arith in
        let plus : (d == b'+') ≡ false = ground arith in rw (minus, plus) refl

-- A number that fits into an int32 is read back, up to a byte that is no digit.
pub int32-show :
    (n c : ℕ) (rest : Text)
    → n ≤ 2147483647
    → is_digit c ≡ false
    → int32 (show_digits 10 n ++ c ∷ rest) ≡ ok (pos n, c ∷ rest)
int32-show n c rest small stop =
    let (d, ds, e) = show-cons 9 n in
    let all : every is_digit (d ∷ ds) ≡ true = ap (every is_digit) (sym e) ∙ show-digits 10 n in
    let value : digits_value 0 (d ∷ ds) ≡ n =
      ap (digits_value 0) (sym e) ∙ digits_value-show 10 n (omega arith) in
    rw e (int32-digits d ds c rest n all stop value small)
