-- ===== src/Tests/Clients.antt =====
-- The client address of a request that came through a trusted proxy, with forged hops.
use Prim.Native.Char.{code}
use Prim.Native.String.{String}
use o_rabbit.Prelude.{ℕ, ◌≡◌, refl, Option, none, some, [], ◌∷◌, ◌++◌, ◌==◌}
use o_rabbit.Table.{any_where}
use o_rabbit.RateLimit.ClientIp.{
  Netip, client_ip, nearest, parse_host, is_trusted, forwarded_hops, last_first,
}
use o_rabbit.RateLimit.Forged.{appended, client_ip-appended}

-- Addresses of one letter.
abbrev letter : String → Option ℕ
letter String.[] = none
letter (String.◌∷◌ c s) = some (code c)

abbrev letters : Netip ℕ ℕ
letters = record { parse_addr_port = λ s. none; parse_addr = letter; contains = λ p a. p == a }

-- The proxy P saw the client C, which had put X and P in front.
client_behind_proxy :
    client_ip letters (b'P' ∷ []) "P" ("P" ∷ appended "X" " C, P" ∷ []) ≡ some b'C'
unfolding client_ip nearest parse_host is_trusted any_where forwarded_hops last_first
client_behind_proxy = refl

client_ip-appended_example :
    client_ip letters (b'P' ∷ []) "P" (("P" ∷ []) ++ appended "X" " C, P" ∷ [])
    ≡ client_ip letters (b'P' ∷ []) "P" (" C, P" ∷ [])
unfolding any_where forwarded_hops parse_host is_trusted
client_ip-appended_example = client_ip-appended letters (b'P' ∷ []) "P" " C, P" "X" ("P" ∷ []) refl
