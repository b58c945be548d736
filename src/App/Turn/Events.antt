-- ===== src/App/Turn/Events.antt =====
-- src/endpoint/server.tpp: the events that the handlers of the TCP server are given, and what they
-- may do with the elements of `active_sockets`.
use strongly_typed_sockets.Base.{
  take, ◌++◌, ℕ, zero, suc, ◌<◌, ◌≡◌, refl, ℤ, Option, none, some, List, [], ◌∷◌, length, ◌⊎◌,
  arith, true,
}
use strongly_typed_sockets.Os.{World}
use strongly_typed_sockets.Os.Returns.{Partial, defined, Partial-bind, Partial-any}
use strongly_typed_sockets.Utils.{mbind}
use strongly_typed_sockets.Address.{InAddressPort}
use strongly_typed_sockets.Impl.{SocketImpl}
use strongly_typed_sockets.Impl
use strongly_typed_sockets.States
use strongly_typed_sockets.States.{tcp, Active, Listening}
use strongly_typed_sockets.Accepted.{AcceptedSock}
use strongly_typed_sockets.Server.{Handler, erase, on_readable}
use strongly_typed_sockets.App.Sockets.{Element, ActiveSockets}
use strongly_typed_sockets.App.Sockets.Erasing.{NoneHas, OnlyHas}
use strongly_typed_sockets.App.Server.{element_at}

-- A connection comes while the vector has room or is empty, or an end comes for a descriptor that no
-- element has or only the last one.
abbrev pub Admits : Handler → ℤ → ActiveSockets AcceptedSock → Type 0
Admits erase fd v =
    NoneHas fd v.elements ⊎ ((n : ℕ) × (suc n ≡ length v.elements) × OnlyHas fd n v.elements)
Admits on_readable fd v = (length v.elements < v.capacity) ⊎ (v.elements ≡ [])

pub element_at-exists :
    (n : ℕ) (es : List Element) → n < length es → (e : Element) × (element_at n es ≡ some e)
element_at-exists n [] h = absurd (omega (arith, h))
element_at-exists zero (e ∷ es) h = (e, refl)
element_at-exists (suc n) (e ∷ es) h = element_at-exists n es (omega (arith, h))

-- What a handler does with the elements: an end leaves those before the one of the descriptor, and
-- none with the descriptor; a connection leaves them all, with at most one more behind them.
abbrev pub Effect : Handler → ℤ → List Element → List Element → Type 0
Effect erase fd old new = NoneHas fd new × ((n : ℕ) × (new ≡ take n old))
Effect on_readable fd old new = (new ≡ old) ⊎ ((e : Element) × (new ≡ old ++ e ∷ []))

pub OnlyHas-take : (fd : ℤ) (n : ℕ) (es : List Element) → OnlyHas fd n es → NoneHas fd (take n es)
OnlyHas-take fd n [] h = absurd h
OnlyHas-take fd zero (e ∷ es) h = tt
OnlyHas-take fd (suc n) (e ∷ es) h = (h.0, OnlyHas-take fd n es h.1)

-- `accept` gives a socket that knows its remote.
pub accept-remote :
    (s : Listening) (w : World)
    → Partial
        (λ r w'. (a : Active) → r ≡ some a → (at : InAddressPort) × (a.m_remote ≡ some at))
        (States.accept s w)
unfolding States.accept mbind
accept-remote s w = Partial-bind (Partial-any (Impl.accept s.m_impl w)) λ r w' _. defined (known r)
  where
    known :
        (r : Option (SocketImpl × InAddressPort)) (a : Active)
        → mbind r (λ (impl, remote). some (record {
          m_impl = (Impl.move impl).0;
          m_remote = some remote;
          m_local = some s.m_local;
          m_accepted = true;
        }))
          ≡ some a
        → (at : InAddressPort) × (a.m_remote ≡ some at)
    known none a e = absurd (ground (arith, e))
    known (some (impl, remote)) a e = (remote, ground (arith, e))
