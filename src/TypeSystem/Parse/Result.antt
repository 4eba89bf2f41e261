-- ===== src/TypeSystem/Parse/Result.antt =====
-- Results of a parser. `out_of_fuel` has no counterpart in the source.
use Prim.Native.String.{String}
use o_rabbit.TypeSystem.Bytes.{Text}

-- A name that the source compares with.
abbrev pub Word : Type 0
Word = String

pub data Parsed {ℓ} (A : Type ℓ) : Type ℓ where
  ok : A → Parsed A
  failed out_of_fuel : Parsed A

abbrev pub bind {ℓ κ} : {A : Type ℓ} {B : Type κ} → Parsed A → (A → Parsed B) → Parsed B
bind (ok a) next = next a
bind failed next = failed
bind out_of_fuel next = out_of_fuel

abbrev pub Parser {ℓ} : Type ℓ → Type ℓ
Parser A = Text → Parsed (A × Text)

module _ {ℓ κ} {A : Type ℓ} {B : Type κ} where
  infixl 1 ◌>>=◌ ◌>>◌
  abbrev pub ◌>>=◌ : Parser A → (A → Parser B) → Parser B
  ◌>>=◌ p next s = bind (p s) λ (a, rest). next a rest

  abbrev pub ◌>>◌ : Parser A → Parser B → Parser B
  ◌>>◌ p next s = bind (p s) λ (_, rest). next rest

abbrev pub done {ℓ} : {A : Type ℓ} → A → Parser A
done a s = ok (a, s)

abbrev pub fail {ℓ} : {A : Type ℓ} → Parser A
fail s = failed
