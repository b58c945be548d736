-- ===== src/Address/Parsing.antt =====
-- src/socket/in_address.cpp: which texts are addresses.
use strongly_typed_sockets.Base.{
  ℕ, ◌<◌, ◌≡◌, ◌⊎◌, refl, ℤ, true, Option, none, some, inl, inr, Option-cases, is_positive, length,
  arith,
}
use strongly_typed_sockets.Os.{af_inet, af_inet6, Bytes, Platform}
use strongly_typed_sockets.Address.{
  InAddress, c_string, parser, init, create, Constructed, constructed, invalid_argument, from_text,
}

-- The text is short enough, and `inet_pton` reads its characters before a NUL as an address of the
-- family.
abbrev pub IsText : Platform → ℤ → ℕ → Bytes → Type 0
IsText pl af max_len str =
    (length str < max_len) × (is_positive (pl.inet_pton af (c_string str) pl.fresh_bytes).0 ≡ true)

-- The bytes that `inet_pton` leaves.
abbrev pub bytes_of : Platform → ℤ → Bytes → Bytes
bytes_of pl af str = (pl.inet_pton af (c_string str) pl.fresh_bytes).1

-- What `create` makes of a text: an IPv4 address where it reads as one, else an IPv6 address where it
-- reads as one, else nothing.
pub data Parsed (pl : Platform) (str : Bytes) : Option InAddress → Type 0 where
  ipv4 :
      IsText pl af_inet 16 str
      → Parsed pl str (some (record { m_data = bytes_of pl af_inet str; m_family = af_inet }))
  ipv6 :
      ¬ IsText pl af_inet 16 str
      → IsText pl af_inet6 46 str
      → Parsed pl str (some (record { m_data = bytes_of pl af_inet6 str; m_family = af_inet6 }))
  no_address : ¬ IsText pl af_inet 16 str → ¬ IsText pl af_inet6 46 str → Parsed pl str none

parser-cases :
    (af : ℤ) (max_len : ℕ) (pl : Platform) (str : Bytes)
    → (IsText pl af max_len str × (parser af max_len pl str ≡ some (bytes_of pl af str, af)))
      ⊎ ((¬ IsText pl af max_len str) × (parser af max_len pl str ≡ none))
unfolding parser
parser-cases af max_len pl str = ground arith

-- `create` makes an IPv4 address of a text that is short enough and reads as one, else an IPv6
-- address of a text that is short enough and reads as one, with the bytes that `inet_pton` leaves,
-- else nothing.
pub create-Parsed : (pl : Platform) (str : Bytes) → Parsed pl str (create pl str)
unfolding create init
create-Parsed pl str = elim (parser-cases af_inet 16 pl str) [
  | inl (is, e) ↦ rw (e, create) (ipv4 is)
  | inr (isnt, e) ↦
      rw (e, create)
        (elim (parser-cases af_inet6 46 pl str) [
          | inl (is, f) ↦ rw (f, create) (ipv6 isnt is)
          | inr (isnt6, f) ↦ rw (f, create) (no_address isnt isnt6)
        ])
]

abbrev pub as_constructed : Bytes → Option InAddress → Constructed
as_constructed str none = invalid_argument str
as_constructed str (some a) = constructed a

-- The constructor makes the address that `create` makes, and throws `std::invalid_argument` for the
-- text exactly where `create` gives nothing.
pub from_text-create :
    (pl : Platform) (str : Bytes) → from_text pl str ≡ as_constructed str (create pl str)
unfolding from_text create
from_text-create pl str = elim (Option-cases (init pl str)) [
  | inl e ↦ rw (e, from_text, create) refl
  | inr (_, e) ↦ rw (e, from_text, create) refl
]
