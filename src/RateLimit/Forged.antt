-- ===== src/RateLimit/Forged.antt =====
-- Forged hops do not change the client address (internal/ratelimit/clientip.go).
use Prim.Native.Char.{Char, code}
use Prim.Native.String.{String}
use mathlib.Core.List.{append_assoc, append-nil}
use o_rabbit.Prelude.{
  ◌≡◌, refl, sym, ◌∙◌, ap, Bool, true, false, not, ◌||◌, Option, none, some, List, [], ◌∷◌, ◌++◌,
  arith, ◌==◌, Bool-cases, Option-cases, inl, inr,
}
use o_rabbit.Table.{any_where}
use o_rabbit.Store.Texts.{trim_space}
use o_rabbit.RateLimit.ClientIp.{
  Netip, put_first, split_commas, trim_each, forwarded_hops, last_first, parse_host, is_trusted,
  nearest, client_ip,
}

-- What a proxy makes of a header value: the value, a comma, and the address that the proxy saw.
abbrev pub appended : String → String → String
appended String.[] t = String.◌∷◌ "," t
appended (String.◌∷◌ c s) t = String.◌∷◌ c (appended s t)

put_first-append :
    (c : Char) (xs ys : List String) (x : String)
    → put_first c ((x ∷ xs) ++ ys) ≡ put_first c (x ∷ xs) ++ ys
put_first-append c xs ys x = refl

split_commas-cons : (s : String) → (h : String) × (hs : List String) × (split_commas s ≡ h ∷ hs)
unfolding split_commas
split_commas-cons String.[] = (String.[], [], refl)
split_commas-cons (String.◌∷◌ c s) =
    let (h, hs, e) = split_commas-cons s in
    elim (Bool-cases (code c == b',')) [
      | inl comma ↦ (String.[], split_commas s, rw comma refl)
      | inr other ↦ (String.◌∷◌ c h, hs, rw (other, e) refl)
    ]

split_commas-appended :
    (s t : String) → split_commas (appended s t) ≡ split_commas s ++ split_commas t
unfolding split_commas
split_commas-appended String.[] t = refl
split_commas-appended (String.◌∷◌ c s) t =
    let (h, hs, e) = split_commas-cons s in
    let ih = split_commas-appended s t in
    elim (Bool-cases (code c == b',')) [
      | inl comma ↦ rw (comma, ih) refl
      | inr other ↦ rw (other, ih, e) refl
    ]

trim_each-append : (xs ys : List String) → trim_each (xs ++ ys) ≡ trim_each xs ++ trim_each ys
unfolding trim_each
trim_each-append [] ys = refl
trim_each-append (x ∷ xs) ys = ap (λ rest. trim_space x ∷ rest) (trim_each-append xs ys)

forwarded_hops-append :
    (vs ws : List String) → forwarded_hops (vs ++ ws) ≡ forwarded_hops vs ++ forwarded_hops ws
unfolding forwarded_hops
forwarded_hops-append [] ws = refl
forwarded_hops-append (v ∷ vs) ws =
    ap (λ rest. trim_each (split_commas v) ++ rest) (forwarded_hops-append vs ws)
    ∙ sym (append_assoc (trim_each (split_commas v)) (forwarded_hops vs) (forwarded_hops ws))

-- The hops of a forged header, followed by the genuine ones.
forwarded_hops-appended :
    (s t : String)
    → forwarded_hops (appended s t ∷ []) ≡ forwarded_hops (s ∷ []) ++ forwarded_hops (t ∷ [])
unfolding forwarded_hops
forwarded_hops-appended s t =
    rw (split_commas-appended s t, trim_each-append (split_commas s) (split_commas t))
      (simp (append_assoc, append-nil) refl)

last_first-append :
    (acc xs ys : List String) → last_first acc (xs ++ ys) ≡ last_first (last_first acc xs) ys
unfolding last_first
last_first-append acc [] ys = refl
last_first-append acc (x ∷ xs) ys = last_first-append (x ∷ acc) xs ys

last_first-onto : (acc xs : List String) → last_first acc xs ≡ last_first [] xs ++ acc
unfolding last_first
last_first-onto acc [] = refl
last_first-onto acc (x ∷ xs) =
    last_first-onto (x ∷ acc) xs
    ∙ sym (append_assoc (last_first [] xs) (x ∷ []) acc)
    ∙ ap (λ front. front ++ acc) (sym (last_first-onto (x ∷ []) xs))

any_where-last_first :
    (p : String → Bool) (acc xs : List String)
    → any_where p (last_first acc xs) ≡ (any_where p acc || any_where p xs)
unfolding last_first any_where
any_where-last_first p acc [] = ground arith
any_where-last_first p acc (x ∷ xs) = ground (arith, any_where-last_first p (x ∷ acc) xs)

module _ {Address Prefix : Type 0} (net : Netip Address Prefix) (trusted : List Prefix) where
  -- A hop that ends the walk: no address, or not that of a trusted proxy.
  abbrev pub is_end : Option Address → Bool
  is_end none = true
  is_end (some a) = not (is_trusted net trusted a)

  abbrev pub is_final : String → Bool
  is_final h = is_end (parse_host net h)

  nearest-append :
      (client : Address) (xs ys : List String)
      → any_where is_final xs ≡ true
      → nearest net trusted client (xs ++ ys) ≡ nearest net trusted client xs
  unfolding nearest any_where
  nearest-append client [] ys h = cc
  nearest-append client (x ∷ xs) ys h = elim (Option-cases (parse_host net x)) [
    | inl e ↦ rw (nearest, e) refl
    | inr (a, e) ↦ elim (Bool-cases (is_trusted net trusted a)) [
      | inl known ↦
          let passed : is_final x ≡ false = ap is_end e ∙ ap not known in
          let later : any_where is_final xs ≡ true =
            ap (λ b. b || any_where is_final xs) (sym passed) ∙ h in
          rw (nearest, e, known) (nearest-append a xs ys later)
      | inr other ↦ rw (nearest, e, other) refl
    ]
  ]

  client_ip-by_hops :
      (remote : String) (fs gs : List String)
      → ((c : Address)
          → nearest net trusted c (last_first [] (forwarded_hops fs))
            ≡ nearest net trusted c (last_first [] (forwarded_hops gs)))
      → client_ip net trusted remote fs ≡ client_ip net trusted remote gs
  unfolding client_ip
  client_ip-by_hops remote fs gs same = elim (Option-cases (parse_host net remote)) [
    | inl e ↦ rw (client_ip, e) refl
    | inr (a, e) ↦ elim (Bool-cases (is_trusted net trusted a)) [
      | inl known ↦ rw (client_ip, e, known) (ap some (same a))
      | inr other ↦ rw (client_ip, e, other) refl
    ]
  ]

  -- Where the genuine part of the last header value holds a hop that is no address or not that of a
  -- trusted proxy, nothing that a client put in front of it, in the same value or in earlier ones,
  -- changes the answer.
  pub client_ip-appended :
      (remote genuine forged : String) (earlier : List String)
      → any_where is_final (forwarded_hops (genuine ∷ [])) ≡ true
      → client_ip net trusted remote (earlier ++ appended forged genuine ∷ [])
        ≡ client_ip net trusted remote (genuine ∷ [])
  client_ip-appended remote genuine forged earlier h =
      client_ip-by_hops remote (earlier ++ appended forged genuine ∷ []) (genuine ∷ []) λ c.
        let own = forwarded_hops (genuine ∷ []) in
        let others = forwarded_hops earlier ++ forwarded_hops (forged ∷ []) in
        let all : forwarded_hops (earlier ++ appended forged genuine ∷ []) ≡ others ++ own =
          forwarded_hops-append earlier (appended forged genuine ∷ [])
          ∙ ap (λ rest. forwarded_hops earlier ++ rest) (forwarded_hops-appended forged genuine)
          ∙ sym (append_assoc (forwarded_hops earlier) (forwarded_hops (forged ∷ [])) own) in
        ap (λ hops. nearest net trusted c (last_first [] hops)) all
        ∙ ap (nearest net trusted c)
            (last_first-append [] others own ∙ last_first-onto (last_first [] others) own)
        ∙ nearest-append c (last_first [] own) (last_first [] others)
            (any_where-last_first is_final [] own ∙ ground (arith, h))
