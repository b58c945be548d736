-- ===== src/Address.antt =====
-- src/socket/in_address.cpp, src/utils/address_from_string.cpp and src/utils/to_string.cpp:
-- internet addresses and their text. A text is its list of characters; `inet_pton` and `inet_ntop`
-- are the platform's.
pub mod Parsing
use strongly_typed_sockets.Base.{
  ℕ, ◌/◌, ◌%◌, ◌+◌, zero, suc, ℤ, ◌==ℤ◌, is_positive, Bool, Option, none, some, List, [], ◌∷◌, ◌++◌,
  ltb, ◌==◌, if◌then◌else◌, length, replicate,
}
use strongly_typed_sockets.Os.{af_inet, af_inet6, Bytes, Platform}
use strongly_typed_sockets.Utils.{or_invoke, mbind}

-- `in_address_t`: 16 bytes, of which an IPv4 address uses 4, and an address family.
pub record InAddress : Type 0 where
  pub m_data : Bytes
  pub m_family : ℤ

pub record InAddressPort : Type 0 where
  pub addr : InAddress
  pub port : ℕ

abbrev pub max_in_addr_byte_len : ℕ
max_in_addr_byte_len = 16

abbrev pub max_ip4_str_len : ℕ
max_ip4_str_len = 16

abbrev pub max_ip6_str_len : ℕ
max_ip6_str_len = 46

-- What a C function reads of `str.data()`: the characters before the first NUL.
unfoldable pub c_string : Bytes → Bytes
c_string [] = []
c_string (c ∷ s) = if c == 0 then [] else c ∷ c_string s

-- `buff` is not initialised, so its bytes are the platform's where `inet_pton` writes none.
unfoldable pub parser : ℤ → ℕ → Platform → Bytes → Option (Bytes × ℤ)
unfolding c_string
parser af max_len pl str =
    let (res, buff) = pl.inet_pton af (c_string str) pl.fresh_bytes in
    if ltb (length str) max_len then (if is_positive res then some (buff, af) else none) else none

unfoldable pub init : Platform → Bytes → Option (Bytes × ℤ)
unfolding parser or_invoke
init pl str =
    or_invoke (or_invoke none (λ _. parser af_inet max_ip4_str_len pl str))
      (λ _. parser af_inet6 max_ip6_str_len pl str)

-- `create` and the constructor; the latter throws a `std::invalid_argument` that quotes the text.
unfoldable pub create : Platform → Bytes → Option InAddress
unfolding init
create pl str = elim (init pl str) [
  | some (buff, af) ↦ some (record { m_data = buff; m_family = af })
  | none ↦ none
]

pub data Constructed : Type 0 where
  constructed : InAddress → Constructed
  invalid_argument : (addr : Bytes) → Constructed

unfoldable pub from_text : Platform → Bytes → Constructed
unfolding init
from_text pl str = elim (init pl str) [
  | some (buff, af) ↦ constructed (record { m_data = buff; m_family = af })
  | none ↦ invalid_argument str
]

abbrev pub is_ipv4 : InAddress → Bool
is_ipv4 a = a.m_family ==ℤ af_inet

abbrev pub is_ipv6 : InAddress → Bool
is_ipv6 a = a.m_family ==ℤ af_inet6

unfoldable pub from_string_and_port : Platform → Bytes → ℕ → Option InAddressPort
unfolding create mbind
from_string_and_port pl str port =
    mbind (create pl str) (λ addr. some (record { addr = addr; port = port }))

-- `std::to_string` of a number below 10 ^ digits; a `uint_fast16_t` has at most 20 digits.
unfoldable pub decimal : (digits : ℕ) → ℕ → Bytes
decimal zero n = []
decimal (suc d) n =
    let rest = decimal d (n / 10) in
    if ltb n 10 then (n + b'0') ∷ [] else rest ++ (n % 10 + b'0') ∷ []

abbrev pub inet_addrstrlen : ℕ
inet_addrstrlen = 16

abbrev pub inet6_addrstrlen : ℕ
inet6_addrstrlen = 46

-- The string keeps its NUL characters where `inet_ntop` fails, and ends before the first.
unfoldable pub addr_to_string : Platform → InAddress → Bytes
unfolding c_string
addr_to_string pl a =
    let addr_len = if is_ipv4 a then inet_addrstrlen else inet6_addrstrlen in
    elim (pl.inet_ntop a.m_family a.m_data addr_len) [
      | some written ↦ c_string (written ++ 0 ∷ [])
      | none ↦ c_string (replicate addr_len 0)
    ]

unfoldable pub to_string : Platform → InAddressPort → Bytes
unfolding addr_to_string decimal
to_string pl a = addr_to_string pl a.addr ++ b':' ∷ decimal 20 a.port
