-- ===== src/App/Datagrams/Senders.antt =====
-- app/server_main.cpp: whom the UDP server answers when datagrams of several senders have come.
use strongly_typed_sockets.Base.{◌%◌, ◌^◌, ◌≡◌, refl, sym, Option, some, List, [], ◌∷◌, replicate}
use strongly_typed_sockets.Os.{Bytes, SockaddrIn, Platform, af_inet}
use strongly_typed_sockets.Address.{InAddressPort}
use strongly_typed_sockets.Impl.Sockaddr.{sock_addr4}
use strongly_typed_sockets.Impl.RoundTrip.{IsFilled, parsed4, take-parsed4}
use strongly_typed_sockets.App.Datagrams.Receiving.{last_sender}

abbrev pub last_source : SockaddrIn → List (SockaddrIn × Bytes) → SockaddrIn
last_source src [] = src
last_source src ((next, bytes) ∷ rest) = last_source next rest

pub last_sender_lem :
    (pl : Platform) (known : Option InAddressPort) (src : SockaddrIn) (bytes : Bytes)
    (rest : List (SockaddrIn × Bytes))
    → last_sender pl known ((src, bytes) ∷ rest) ≡ some (parsed4 pl (last_source src rest))
last_sender_lem pl known src bytes [] = refl
last_sender_lem pl known src bytes ((next, more) ∷ rest) =
    last_sender_lem pl (some (parsed4 pl src)) next more rest

-- An address structure of IPv4 whose port `htons` and `ntohs` give back.
pub record IsSource (pl : Platform) (src : SockaddrIn) : Type 0 where
  pub filled : IsFilled src
  pub family : src.sin_family ≡ af_inet
  pub zero_padding : src.sin_zero ≡ replicate 8 0
  pub order : pl.htons (pl.ntohs src.sin_port % 2 ^ 16) ≡ src.sin_port

-- A reply goes to the structure that the sender's address came in.
pub sock_addr4-parsed4 :
    (pl : Platform) (src : SockaddrIn) → IsSource pl src → sock_addr4 pl (parsed4 pl src) ≡ src
unfolding sock_addr4
sock_addr4-parsed4 pl src h = λ i. record {
  sin_family = sym h.family i;
  sin_port = h.order i;
  s_addr = take-parsed4 pl src h.filled i;
  sin_zero = sym h.zero_padding i;
}
