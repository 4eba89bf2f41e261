-- ===== src/RateLimit/ClientIp.antt =====
-- ClientIP (internal/ratelimit/clientip.go). Addresses and their parsing are package net/netip, a
-- parameter; an address is unmapped by its parser.
use Prim.Native.Char.{Char, code}
use Prim.Native.String.{String}
use o_rabbit.Prelude.{
  ℕ, Bool, not, ◌||◌, Option, none, some, List, [], ◌∷◌, ◌++◌, ◌==◌, if◌then◌else◌,
}
use o_rabbit.Table.{any_where}
use o_rabbit.Store.Texts.{trim_space, reverse_onto}

-- netip.ParseAddrPort and netip.ParseAddr, each with Unmap, and Prefix.Contains.
pub record Netip (Address Prefix : Type 0) : Type 0 where
  pub parse_addr_port : String → Option Address
  pub parse_addr : String → Option Address
  pub contains : Prefix → Address → Bool

abbrev pub is_bracket : ℕ → Bool
is_bracket c = c == b'[' || c == b']'

unfoldable pub drop_brackets : String → String
drop_brackets String.[] = String.[]
drop_brackets (String.◌∷◌ c s) = if is_bracket (code c) then drop_brackets s else String.◌∷◌ c s

-- strings.Trim(s, "[]")
unfoldable pub trim_brackets : String → String
unfolding drop_brackets reverse_onto
trim_brackets s = reverse_onto String.[] (drop_brackets (reverse_onto String.[] (drop_brackets s)))

abbrev pub put_first : Char → List String → List String
put_first c [] = []
put_first c (h ∷ hs) = String.◌∷◌ c h ∷ hs

-- strings.SplitSeq(s, ",")
unfoldable pub split_commas : String → List String
split_commas String.[] = String.[] ∷ []
split_commas (String.◌∷◌ c s) =
    let rest = split_commas s in if code c == b',' then String.[] ∷ rest else put_first c rest

unfoldable pub trim_each : List String → List String
unfolding trim_space
trim_each [] = []
trim_each (h ∷ hs) = trim_space h ∷ trim_each hs

-- forwardedHops
unfoldable pub forwarded_hops : List String → List String
unfolding split_commas trim_each
forwarded_hops [] = []
forwarded_hops (v ∷ vs) = trim_each (split_commas v) ++ forwarded_hops vs

unfoldable pub last_first : List String → List String → List String
last_first acc [] = acc
last_first acc (h ∷ hs) = last_first (h ∷ acc) hs

module _ {Address Prefix : Type 0} (net : Netip Address Prefix) where
  unfoldable pub parse_host : String → Option Address
  unfolding trim_brackets trim_space
  parse_host s = elim (net.parse_addr_port s) [
    | some a ↦ some a
    | none ↦ net.parse_addr (trim_brackets (trim_space s))
  ]

  unfoldable pub is_trusted : List Prefix → Address → Bool
  is_trusted trusted a = any_where (λ p. net.contains p a) trusted

  -- The loop over the hops, the last first, with the client so far.
  unfoldable pub nearest : List Prefix → Address → List String → Address
  nearest trusted client [] = client
  nearest trusted client (h ∷ hs) = elim (parse_host h) [
    | none ↦ client
    | some hop ↦
        let further = nearest trusted hop hs in
        if not (is_trusted trusted hop) then hop else further
  ]

  unfoldable pub client_ip :
      List Prefix → (remote : String) → (forwarded : List String) → Option Address
  client_ip trusted remote forwarded = elim (parse_host remote) [
    | none ↦ none
    | some client ↦
        if not (is_trusted trusted client)
        then some client
        else some (nearest trusted client (last_first [] (forwarded_hops forwarded)))
  ]
