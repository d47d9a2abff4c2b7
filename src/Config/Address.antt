-- ===== src/Config/Address.antt =====
-- What config.go uses of Go's net and net/url. Parse and SplitHostPort are parameters; of ParseIP only
-- the dotted form matters, as a bucket name that reaches it has no colon.
use mano_reck.Prelude.{
  ℕ, suc, ◌+◌, ◌-◌, ◌*◌, Bool, false, ◌&&◌, ◌||◌, leb, ltb, ◌==◌, if◌then◌else◌, [], ◌∷◌, Text,
}
use mano_reck.GoError.{Result}

-- The fields of url.URL that src/ reads.
pub record Url : Type 0 where
  pub scheme : Text
  pub host : Text
  pub path : Text
  pub has_user : Bool
  pub raw_query : Text
  pub fragment : Text

-- url.Parse, and the port of net.SplitHostPort.
pub record Net : Type 0 where
  pub parse_url : Text → Result Url
  pub split_host_port : Text → Result Text

-- The loop of netip.ParseAddr over dotted decimals: the octet so far, its digits, and the dots seen.
unfoldable pub octets : ℕ → ℕ → ℕ → Text → Bool
octets value digits dots [] = dots == 3 && ltb 0 digits
octets value digits dots (c ∷ s) =
    let next = octets (value * 10 + (c - b'0')) (suc digits) dots s in
    let field = octets 0 0 (suc dots) s in
    if leb b'0' c && leb c b'9'
    then if (digits == 1 && value == 0) || ltb 255 (value * 10 + (c - b'0')) then false else next
    else if c == b'.'
    then if digits == 0 || dots == 3 then false else field
    else false

-- `net.ParseIP(s) != nil`, of a text without colons.
unfoldable pub is_dotted_ip : Text → Bool
unfolding octets
is_dotted_ip s = octets 0 0 0 s
