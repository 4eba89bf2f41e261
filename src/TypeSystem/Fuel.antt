-- ===== src/TypeSystem/Fuel.antt =====
-- How much of a text the parts of the parser of types read (internal/typesystem/parser.go): they answer
-- without running out of fuel, and do not lengthen the text.
use o_rabbit.Prelude.{
  ℕ, ◌+◌, ◌-◌, ◌<◌, ◌≤◌, zero, suc, ◌≡◌, refl, Bool, true, false, not, ◌&&◌, ◌||◌, [], ◌∷◌, arith,
  ◌==◌, leb, length, if_both,
}
use o_rabbit.TypeSystem.Bytes.{Text, is_digit, is_name_byte, digits_value, span, skip_space}
use o_rabbit.TypeSystem.Parse.Result.{Parsed, ok, failed, out_of_fuel, bind, Parser}
use o_rabbit.TypeSystem.Parse.Lexical.{
  expect, identifier, opened, named, open_container, int32, int32_of, int32_digits, signed, content,
  consed, parenthesized,
}

-- A result that is not out of fuel, and where it is a success, meets a condition.
abbrev pub Answers {ℓ} : {A : Type ℓ} → (A → Type 0) → Parsed A → Type 0
Answers P (ok a) = P a
Answers P failed = Unit
Answers P out_of_fuel = ⊥

-- What is left has at most a number of bytes.
abbrev pub Leaves {ℓ} : {A : Type ℓ} → ℕ → Parsed (A × Text) → Type 0
Leaves n p = Answers (λ o. length o.1 ≤ n) p

-- With fuel above the bytes of the text, a parser answers and leaves at most that text.
abbrev pub Keeps {ℓ} : {A : Type ℓ} → ℕ → Parser A → Type 0
Keeps f p = (s : Text) → length s < f → Leaves (length s) (p s)

pub bind-Answers {ℓ κ} :
    {A : Type ℓ} {B : Type κ} (P : A → Type 0) (Q : B → Type 0) (p : Parsed A) (k : A → Parsed B)
    → Answers P p
    → ((a : A) → P a → Answers Q (k a))
    → Answers Q (bind p k)
bind-Answers P Q (ok a) k h next = next a h
bind-Answers P Q failed k h next = tt
bind-Answers P Q out_of_fuel k h next = absurd h

-- A step of a parser that leaves at most `n` bytes, in one that leaves at most `m`.
pub then-Leaves {ℓ κ} :
    {A : Type ℓ} {B : Type κ} (n m : ℕ) (p : Parsed (A × Text)) (k : A × Text → Parsed (B × Text))
    → Leaves n p
    → ((a : A) (r : Text) → length r ≤ n → Leaves m (k (a, r)))
    → Leaves m (bind p k)
then-Leaves n m p k h next =
    bind-Answers (λ o. length o.1 ≤ n) (λ o. length o.1 ≤ m) p k h (λ o le. next o.0 o.1 le)

pub length-skip_space : (s : Text) → length (skip_space s) ≤ length s
unfolding skip_space
length-skip_space [] = omega arith
length-skip_space (c ∷ cs) = ground (arith, length-skip_space cs)

length-span_parts : (p : ℕ → Bool) (s : Text) → length (span p s).0 + length (span p s).1 ≡ length s
unfolding span
length-span_parts p [] = refl
length-span_parts p (c ∷ cs) = ground (arith, length-span_parts p cs)

pub length-span : (p : ℕ → Bool) (s : Text) → length (span p s).1 ≤ length s
length-span p s = let e = length-span_parts p s in omega arith

-- A step that reads a byte at least.
abbrev pub Spends {ℓ} : {A : Type ℓ} → ℕ → Parsed (A × Text) → Type 0
Spends n p = Answers (λ o. length o.1 < n) p

pub then-Spends {ℓ κ} :
    {A : Type ℓ} {B : Type κ} (n m : ℕ) (p : Parsed (A × Text)) (k : A × Text → Parsed (B × Text))
    → Spends n p
    → ((a : A) (r : Text) → length r < n → Leaves m (k (a, r)))
    → Leaves m (bind p k)
then-Spends n m p k h next =
    bind-Answers (λ o. length o.1 < n) (λ o. length o.1 ≤ m) p k h (λ o lt. next o.0 o.1 lt)

pub expect-Spends : (b : ℕ) (s : Text) → Spends (length s) (expect b s)
unfolding expect
expect-Spends b [] = tt
expect-Spends b (c ∷ cs) =
    if_both (Spends (suc (length cs))) (c == b) _ _ (λ h. omega arith) (λ h. tt)

pub open_container-Spends : (s : Text) → Spends (length s) (open_container s)
unfolding open_container
open_container-Spends s = opened-Spends (skip_space s) (length-skip_space s)
  where
    opened-Spends : (r : Text) → length r ≤ length s → Spends (length s) (opened r)
    opened-Spends [] h = tt
    opened-Spends (c ∷ cs) h =
        if_both (Spends (length s)) (c == b'<') _ _ (λ _. omega arith)
          (λ _. if_both (Spends (length s)) (c == b'(') _ _ (λ _. omega arith) (λ _. tt))

pub identifier-Spends : (s : Text) → Spends (length s) (identifier s)
unfolding identifier
identifier-Spends s =
    named-Spends (span is_name_byte (skip_space s)) (parts (skip_space s) (length-skip_space s))
  where
    parts :
        (r : Text)
        → length r ≤ length s
        → length (span is_name_byte r).0 + length (span is_name_byte r).1 ≤ length s
    parts r h = let e = length-span_parts is_name_byte r in omega arith

    named-Spends :
        (o : Text × Text) → length o.0 + length o.1 ≤ length s → Spends (length s) (named o)
    named-Spends ([], rest) h = tt
    named-Spends (c ∷ cs, rest) h = omega arith

int32_digits-Leaves :
    (negative : Bool) (o : Text × Text) (n : ℕ)
    → length o.1 ≤ n
    → Leaves n (int32_digits negative o)
int32_digits-Leaves negative ([], rest) n h = tt
int32_digits-Leaves negative (c ∷ cs, rest) n h =
    bind-Answers (λ z. Unit) (λ o. length o.1 ≤ n) (int32_of negative (digits_value 0 (c ∷ cs))) _
      (of negative (digits_value 0 (c ∷ cs))) (λ z _. h)
  where
    of : (negative : Bool) (n : ℕ) → Answers (λ z. Unit) (int32_of negative n)
    of false n = if_both (Answers (λ z. Unit)) (leb n 2147483647) _ _ (λ _. tt) (λ _. tt)
    of true zero = tt
    of true (suc n) = if_both (Answers (λ z. Unit)) (leb n 2147483647) _ _ (λ _. tt) (λ _. tt)

length-signed : (s : Text) → length (signed s).1 ≤ length s
length-signed [] = omega arith
length-signed (c ∷ cs) = ground arith

pub int32-Leaves : (s : Text) → Leaves (length s) (int32 s)
unfolding int32
int32-Leaves s =
    let o = signed (skip_space s) in
    let e = length-skip_space s in
    let e' = length-signed (skip_space s) in
    let e'' = length-span is_digit o.1 in
    int32_digits-Leaves o.0 (span is_digit o.1) (length s) (omega arith)

consed-Leaves : (b n m : ℕ) (p : Parsed (Text × Text)) → n ≤ m → Leaves n p → Leaves m (consed b p)
consed-Leaves b n m (ok o) le h = omega arith
consed-Leaves b n m failed le h = tt
consed-Leaves b n m out_of_fuel le h = absurd h

pub widen-Leaves {ℓ} :
    {A : Type ℓ} (n m : ℕ) (p : Parsed (A × Text)) → n ≤ m → Leaves n p → Leaves m p
widen-Leaves n m (ok o) le h = omega arith
widen-Leaves n m failed le h = tt
widen-Leaves n m out_of_fuel le h = absurd h

content-Leaves : (depth quote : ℕ) (s : Text) → Leaves (length s) (content depth quote s)
unfolding content
content-Leaves depth quote [] = tt
content-Leaves depth quote (c ∷ []) =
    if_both (Leaves 1) (quote == 0 && c == b')' && depth == 1) _ _ (λ h. omega arith) (λ h. tt)
content-Leaves depth quote (c ∷ d ∷ cs) =
    let Good = λ (p : Parsed (Text × Text)). Leaves (suc (suc (length cs))) p in
    let escaped : Good (consed c (consed d (content depth quote cs))) =
      consed-Leaves c (length cs) _ _ (omega arith)
        (consed-Leaves d (length cs) _ _ (omega arith) (content-Leaves depth quote cs)) in
    let on : (depth quote : ℕ) → Good (consed c (content depth quote (d ∷ cs))) = λ depth quote.
      consed-Leaves c (suc (length cs)) _ _ (omega arith) (content-Leaves depth quote (d ∷ cs)) in
    if_both Good (not (quote == 0)) _ _
      (λ _.
        if_both Good (c == b'\\') _ _ (λ _. escaped)
          (λ _. if_both Good (c == quote) _ _ (λ _. on depth 0) (λ _. on depth quote)))
      (λ _.
        if_both Good (c == 39 || c == 34) _ _ (λ _. on depth c)
          (λ _.
            if_both Good (c == b'(') _ _ (λ _. on (depth + 1) 0)
              (λ _.
                if_both Good (c == b')') _ _
                  (λ _. if_both Good (depth == 1) _ _ (λ _. omega arith) (λ _. on (depth - 1) 0))
                  (λ _. on depth 0))))

pub parenthesized-Leaves : (s : Text) → Leaves (length s) (parenthesized s)
parenthesized-Leaves s =
    let e = length-skip_space s in
    then-Spends (length (skip_space s)) (length s) (expect b'(' (skip_space s)) _
      (expect-Spends b'(' (skip_space s))
      (λ _ r h.
        widen-Leaves (length r) (length s) (content 1 0 r) (omega arith) (content-Leaves 1 0 r))
