-- ===== src/App/Responses.antt =====
-- app/client_main.cpp: the callback for reading, which receives until `errno` says that it would block.
use strongly_typed_sockets.Base.{
  ℕ, zero, suc, ◌+◌, ◌<◌, ◌%◌, ◌^◌, ◌≡◌, refl, ℤ, pos, minus_one, ◌==ℤ◌, true, false, Option, none,
  some, List, [], ◌∷◌, ◌++◌, length, arith, ap, sym, Bool-cases, inl, inr, Bool,
}
use mathlib.Core.List.{append_assoc}
use strongly_typed_sockets.Os.{
  Bytes, Call, Reply, Trace, World, ok, answer, after, perform, e_again,
}
use strongly_typed_sockets.Os.Returns.{Returns, returns, mono}
use strongly_typed_sockets.Address.{InAddressPort}
use strongly_typed_sockets.Impl
use strongly_typed_sockets.Impl.{counted}
use strongly_typed_sockets.States
use strongly_typed_sockets.States.{Proto, Active}
use strongly_typed_sockets.Client.{Client, active, again_or_would_block}
use strongly_typed_sockets.Client.Transfer.{recv}
use strongly_typed_sockets.App.Client.{fresh_buffer, appended, read_response}
use strongly_typed_sockets.App.Receiving.{from_remote, IsChunk, take-fill}

abbrev pub response_call : ℤ → Call
response_call d = Call.recv d fresh_buffer 256 (pos 0)

-- What a receive gives: nothing, or bytes.
abbrev pub Gives : Option Bytes → Reply → Type 0
Gives none r = r.ret ≡ minus_one
Gives (some bytes) r = IsChunk 256 bytes r

-- A system whose replies to the receives on `d`, from a history on, are these and then the last, the
-- first after which `errno` is EAGAIN.
module _ (env : Trace → Call → Reply) (d : ℤ) (last : Option Bytes) where
  abbrev pub Replies : List (Option Bytes) → Trace → Type 0
  Replies [] t = let r = env t (response_call d) in Gives last r × (r.errno ≡ e_again)
  Replies (given ∷ rest) t =
      let r = env t (response_call d) in
      Gives given r × ((r.errno ==ℤ e_again) ≡ false) × Replies rest ((response_call d, r) ∷ t)

abbrev pub bytes_of : Option Bytes → Bytes
bytes_of none = []
bytes_of (some bytes) = bytes

-- The bytes that came, in order.
abbrev pub all_bytes : List (Option Bytes) → Option Bytes → Bytes
all_bytes [] last = bytes_of last
all_bytes (given ∷ rest) last = bytes_of given ++ all_bytes rest last

again_lem :
    (w : World) (b : Bool) → (w.errno ==ℤ e_again) ≡ b → States.again_or_would_block w ≡ ok b w
unfolding States.again_or_would_block
again_lem w true h = rw h refl
again_lem w false h = rw h (ap (λ b. ok b w) h)

appended-Gives :
    (remote : InAddressPort) (given : Option Bytes) (r : Reply)
    → Gives given r
    → appended (from_remote remote (counted r)) r.received ≡ bytes_of given
appended-Gives remote none r h = rw h refl
appended-Gives remote (some bytes) r h =
    let whole : length bytes % 2 ^ 64 ≡ length bytes = omega (arith, h.fits) in
    rw (h.count, whole, h.written) (take-fill bytes fresh_buffer)

module _ {Poll : Type 0} (p : Proto) (d : ℤ) (c : Client Poll) where
  -- A client of a connection based protocol that is connected by the descriptor `d`.
  pub record Connected : Type 0 where
    pub stream : p.is_connectionless ≡ false
    pub sock : Active
    pub is_active : c.state ≡ active sock
    pub holds : sock.m_impl.m_fd ≡ some d
    pub remote : InAddressPort
    pub knows : c.m_remote ≡ some remote

  recv_lem :
      (h : Connected) (w : World)
      → recv p fresh_buffer 256 c w
        ≡ ok
            (from_remote h.remote (counted (answer w (response_call d))))
            (after w (response_call d))
  unfolding recv Impl.receive perform
  recv_lem h w =
      rw (h.is_active, recv)
        (rw (h.stream, h.holds, Impl.receive)
          (elim (Bool-cases ((answer w (response_call d)).ret ==ℤ minus_one)) [
            | inl e ↦ rw e refl
            | inr e ↦ rw (e, h.knows) refl
          ]))

  finished_lem :
      (h : Connected) (w : World) (b : Bool)
      → (w.errno ==ℤ e_again) ≡ b
      → again_or_would_block c w ≡ ok b w
  unfolding again_or_would_block
  finished_lem h w b e = rw h.is_active (again_lem w b e)

  -- For a connected client of a connection based protocol and a system whose replies to the
  -- receives on its descriptor are known up to the first after which `errno` is EAGAIN: with more
  -- fuel than there are replies before that one, the callback for reading comes to its end, and its
  -- response is the text before and the bytes of all these replies, in order, those of the last one
  -- too: it stops there even if that reply had bytes.
  pub read_response-joins :
      (replies : List (Option Bytes)) (last : Option Bytes) (fuel : ℕ) (resp : Bytes) (w : World)
      → Connected
      → length replies < fuel
      → Replies w.env d last replies w.trace
      → Returns (λ r _. r ≡ some (resp ++ all_bytes replies last)) (read_response p fuel resp c w)
  unfolding read_response
  read_response-joins replies last zero resp w h more sys = absurd (omega arith)
  read_response-joins [] last (suc fuel) resp w h more sys =
      rw
        (
          recv_lem h w,
          finished_lem h (after w (response_call d)) true (rw sys.1 refl),
          appended-Gives h.remote last (answer w (response_call d)) sys.0,
        )
        (returns refl)
  read_response-joins (given ∷ rest) last (suc fuel) resp w h more sys =
      rw
        (
          recv_lem h w,
          finished_lem h (after w (response_call d)) false sys.1,
          appended-Gives h.remote given (answer w (response_call d)) sys.0,
          sym (append_assoc resp (bytes_of given) (all_bytes rest last)),
        )
        (read_response-joins rest last fuel (resp ++ bytes_of given) (after w (response_call d)) h
          (omega (arith, more)) sys.2)

  -- For a connected client of a connection based protocol and a system that never leaves EAGAIN in
  -- `errno` after a receive on its descriptor, as after the peer has closed the connection or reset
  -- it, the callback for reading never ends: whatever the fuel, it makes as many receives as the
  -- fuel allows and has no result.
  pub read_response-endless :
      (fuel : ℕ) (resp : Bytes) (w : World)
      → Connected
      → ((t : Trace) → ((w.env t (response_call d)).errno ==ℤ e_again) ≡ false)
      → Returns
          (λ r w'. (r ≡ none) × (length w'.trace ≡ fuel + length w.trace))
          (read_response p fuel resp c w)
  unfolding read_response
  read_response-endless zero resp w h sys = returns (refl, omega arith)
  read_response-endless (suc fuel) resp w h sys =
      rw (recv_lem h w, finished_lem h (after w (response_call d)) false (sys w.trace))
        (mono (read_response-endless fuel _ (after w (response_call d)) h sys)
          λ r w' q. (q.0, omega (arith, q.1)))
