-- ===== src/Client/Protected.antt =====
-- cmd/client/main.go: resolveProtectedPrefixes and resolveHostIPv4. The parsers of URLs, of host and
-- port and of addresses, the resolver and the text of a prefix are an interface.
pub mod Covers
pub mod Unrouted
mod Tests
use xray_mesh.Base.{
  ℕ, ◌≡◌, Bool, not, ◌&&◌, ◌||◌, Option, none, some, List, [], ◌∷◌, ◌++◌, reverse, ◌==◌,
  if◌then◌else◌, Result, ok, err, ◌>>=◌, ◌>>◌, fail_if,
}
use xray_mesh.Base.Maps.{Map, lookup, insert}
use xray_mesh.Client.Runtime.{is_none}
use xray_mesh.Netip.{Addr, v4, is4, Prefix, prefix, prefix_IsValid, prefix_addr, masked}
use xray_mesh.P2p.Tickets.{str_eq}
use xray_mesh.Text.{Bytes, str_dec}
use xray_mesh.Text.Trim.{trim_space}

-- The hostname of a URL (of net/url), the host of an address with a port (of net), addresses and
-- their resolver, and the text of a prefix, which tells prefixes apart.
pub record Resolver : Type 0 where
  pub url_hostname : Bytes → Option Bytes
  pub split_host : Bytes → Option Bytes
  pub parse_addr : Bytes → Option Addr
  pub lookup_ip4 : Bytes → Option (List Addr)
  pub prefix_text : Prefix → Bytes
  pub text_one : (p q : Prefix) → prefix_text p ≡ prefix_text q → p ≡ q

pub data ResolveError : Type 0 where
  mesh_invalid url_invalid no_hostname relay_invalid empty_host lookup_failed : ResolveError

-- `strings.Trim(s, "[]")`
abbrev pub is_bracket : ℕ → Bool
is_bracket c = c == 91 || c == 93

unfoldable pub drop_brackets : Bytes → Bytes
drop_brackets [] = []
drop_brackets (c ∷ s) = let rest = drop_brackets s in if is_bracket c then rest else c ∷ s

unfoldable pub trim_brackets : Bytes → Bytes
unfolding drop_brackets
trim_brackets s = reverse (drop_brackets (reverse (drop_brackets s)))

unfoldable pub host_prefixes : List Addr → List Prefix
host_prefixes [] = []
host_prefixes (a ∷ rest) =
    let more = host_prefixes rest in if is4 a then prefix a 32 ∷ more else more

module _ (net : Resolver) where
  open net use {url_hostname, split_host, parse_addr, lookup_ip4, prefix_text}

  abbrev pub looked_up : Option (List Addr) → Result ResolveError (List Prefix)
  looked_up none = err lookup_failed
  looked_up (some found) = ok (host_prefixes found)

  abbrev pub parsed_or_looked_up : Bytes → Option Addr → Result ResolveError (List Prefix)
  parsed_or_looked_up host (some a) = if is4 a then ok (prefix a 32 ∷ []) else ok []
  parsed_or_looked_up host none = looked_up (lookup_ip4 host)

  unfoldable pub resolve_host_ipv4 : Bytes → Result ResolveError (List Prefix)
  unfolding host_prefixes trim_brackets
  resolve_host_ipv4 host =
      let name = trim_brackets (trim_space host) in
      if str_eq name [] then err empty_host else parsed_or_looked_up name (parse_addr name)

  -- The loop over the result, which keeps the first of prefixes with one text.
  unfoldable pub unique_prefixes : List Prefix → Map Bytes (Unit {0}) → List Prefix → List Prefix
  unique_prefixes [] seen unique = unique
  unique_prefixes (p ∷ ps) seen unique =
      let key = prefix_text (masked p) in
      let is_new = is_none (lookup str_dec key seen) in
      unique_prefixes ps (if is_new then insert str_dec key tt seen else seen)
        (if is_new then unique ++ (masked p ∷ []) else unique)

  abbrev pub hostname_of : Option Bytes → Result ResolveError Bytes
  hostname_of none = err url_invalid
  hostname_of (some name) = if str_eq name [] then err no_hostname else ok name

  abbrev pub relay_host_of : Option Bytes → Result ResolveError Bytes
  relay_host_of none = err relay_invalid
  relay_host_of (some host) = ok host

  unfoldable pub resolve_protected_prefixes :
      Bytes → Bytes → Prefix → Result ResolveError (List Prefix)
  unfolding resolve_host_ipv4 unique_prefixes
  resolve_protected_prefixes server_url relay_addr mesh = do
    fail_if (not (prefix_IsValid mesh) || not (is4 (prefix_addr mesh))) mesh_invalid
    coordinator_host ← hostname_of (url_hostname server_url)
    relay_host ← relay_host_of (split_host relay_addr)
    coordinator ← resolve_host_ipv4 coordinator_host
    relay ← resolve_host_ipv4 relay_host
    ok (unique_prefixes (masked mesh ∷ (coordinator ++ relay)) [] [])
