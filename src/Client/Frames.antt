-- ===== src/Client/Frames.antt =====
-- src/endpoint/client.tpp: the calls of `connect`, and the one whose parameters the static closures of
-- an instance of `client_t` refer to.
use strongly_typed_sockets.Base.{ℕ, ◌==◌, ◌≡◌, refl, true, some, none, arith}
use strongly_typed_sockets.Os.{World, ok}
use strongly_typed_sockets.States.{Proto}
use strongly_typed_sockets.Client.{entered, enter_connect}

pub ==_refl : (n : ℕ) → (n == n) ≡ true
==_refl n = ground arith

-- The first call for a protocol makes the closures.
pub enter_connect-first :
    {A : Type 0} (p : Proto) (q : A) (w : World)
    → w.captured p.socket_type ≡ none
    → enter_connect p q w ≡ ok (some q) (entered p w)
unfolding enter_connect
enter_connect-first p q w unused = simp (unused, ==_refl w.frames) refl
