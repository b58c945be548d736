-- ===== src/App/Receiving.antt =====
-- app/server_main.cpp: the inner loop, which receives from an accepted socket until nothing comes.
use strongly_typed_sockets.Base.{
  ℕ, zero, suc, ◌≤◌, ◌<◌, ◌^◌, ◌≡◌, refl, ℤ, minus_one, Option, none, some, List, [], ◌∷◌, ◌++◌,
  length, take, drop, arith, ◌+◌, sym, ◌%◌, ◌∙◌, Bool-cases, inl, inr, ◌==ℤ◌, take-append, take-all,
  length-append, Bool-cases, ◌+◌, ◌∙◌, ◌==ℤ◌, inl, inr,
}
use mathlib.Core.List.{append_assoc, append-nil}
use strongly_typed_sockets.Os.{Bytes, Buffer, Call, Reply, Trace, World, ok, answer, after, perform}
use strongly_typed_sockets.Os.Returns.{Returns, returns, mono}
use strongly_typed_sockets.Address.{InAddressPort}
use strongly_typed_sockets.Impl.{counted}
use strongly_typed_sockets.Impl
use strongly_typed_sockets.Accepted.{AcceptedSock}
use strongly_typed_sockets.Accepted
use strongly_typed_sockets.SendRecv.{accepted_sock}
use strongly_typed_sockets.App.Server.{receive_all, fill}

-- What `recv` of an accepted socket gives back of the system's answer.
abbrev pub from_remote : InAddressPort → Option ℕ → Option (InAddressPort × ℕ)
from_remote remote none = none
from_remote remote (some count) = some (remote, count)

abbrev pub recv_call : ℤ → Buffer → Call
recv_call d buffer = Call.recv d buffer (length buffer) (ℤ.pos 0)

module _ (d : ℤ) (a : AcceptedSock) where
  pub recv_lem :
      (buffer : Buffer) (w : World)
      → a.m_sock.m_impl.m_fd ≡ some d
      → Accepted.recv buffer (length buffer) a w
        ≡ ok
            (from_remote a.m_remote (counted (answer w (recv_call d buffer))))
            (after w (recv_call d buffer))
  unfolding Accepted.recv Impl.receive perform
  recv_lem buffer w h =
      rw h (elim (Bool-cases ((answer w (recv_call d buffer)).ret ==ℤ minus_one)) [
        | inl e ↦ rw e refl
        | inr e ↦ rw e refl
      ])

-- What the system answers to a receive that delivers `bytes` into a buffer of `n`.
pub record IsChunk (n : ℕ) (bytes : Bytes) (r : Reply) : Type 0 where
  pub count : r.ret ≡ ℤ.pos (length bytes)
  pub written : r.received ≡ bytes
  pub fits : length bytes ≤ n

-- A system that, from a history on, delivers these chunks to the receives on `d`, and then fails one
-- with the error `e`.
module _ (env : Trace → Call → Reply) (d : ℤ) (n : ℕ) (e : ℤ) where
  abbrev pub Delivers : List Bytes → Trace → Type 0
  Delivers [] t =
      (buffer : Buffer)
      → length buffer ≡ n
      → ((env t (recv_call d buffer)).ret ≡ minus_one) × ((env t (recv_call d buffer)).errno ≡ e)
  Delivers (bytes ∷ rest) t =
      (buffer : Buffer)
      → length buffer ≡ n
      → IsChunk n bytes (env t (recv_call d buffer))
        × Delivers rest ((recv_call d buffer, env t (recv_call d buffer)) ∷ t)

abbrev pub joined : List Bytes → Bytes
joined [] = []
joined (bytes ∷ rest) = bytes ++ joined rest

-- The loop came to its end, with this text and a buffer of `n`.
abbrev pub Ended : ℕ → Bytes → Option (Buffer × Bytes) → Type 0
Ended n text none = ⊥
Ended n text (some (buffer, got)) = (length buffer ≡ n) × (got ≡ text)

length-drop : (n : ℕ) (s : Bytes) → n ≤ length s → n + length (drop n s) ≡ length s
length-drop zero s h = omega arith
length-drop (suc n) [] h = absurd (omega arith)
length-drop (suc n) (c ∷ s) h = omega (arith, length-drop n s (omega arith))

pub length-fill :
    (bytes : Bytes) (buffer : Buffer)
    → length bytes ≤ length buffer
    → length (fill bytes buffer) ≡ length buffer
length-fill bytes buffer h =
    omega
      (arith, length-append bytes (drop (length bytes) buffer), length-drop (length bytes) buffer h)

pub take-fill : (bytes : Bytes) (buffer : Buffer) → take (length bytes) (fill bytes buffer) ≡ bytes
take-fill bytes buffer =
    take-append (length bytes) bytes (drop (length bytes) buffer) (omega arith)
    ∙ take-all (length bytes) bytes (omega arith)

module _ (d : ℤ) (n : ℕ) (e : ℤ) (a : AcceptedSock) where
  -- Where the system delivers chunks that fit in a buffer of fewer than 2 ^ 64 bytes to the
  -- receives of an accepted socket, and then fails one, the loop that receives comes to its end
  -- with one more receive than there are chunks: it appends the chunks, in order, to the text, and
  -- leaves the socket as it was and `errno` as the failure set it.
  pub receive_all-Ended :
      (chunks : List Bytes) (fuel : ℕ) (buffer : Buffer) (text : Bytes) (w : World)
      → a.m_sock.m_impl.m_fd ≡ some d
      → n < 2 ^ 64
      → length buffer ≡ n
      → length chunks < fuel
      → Delivers w.env d n e chunks w.trace
      → Returns
          (λ r w'.
            (r.0 ≡ a) × Ended n (text ++ joined chunks) r.1 × (w'.env ≡ w.env) × (w'.errno ≡ e))
          (receive_all accepted_sock fuel buffer text a w)
  unfolding receive_all
  receive_all-Ended chunks zero buffer text w h small len more sys = absurd (omega arith)
  receive_all-Ended [] (suc fuel) buffer text w h small len more sys =
      rw (recv_lem d a buffer w h, (sys buffer len).0)
        (returns (refl, (len, sym (append-nil text)), refl, (sys buffer len).1))
  receive_all-Ended (bytes ∷ rest) (suc fuel) buffer text w h small len more sys =
      let c = (sys buffer len).0 in
      let whole : length bytes % 2 ^ 64 ≡ length bytes = omega (arith, c.fits) in
      rw
        (
          recv_lem d a buffer w h,
          c.count,
          whole,
          c.written,
          take-fill bytes buffer,
          sym (append_assoc text bytes (joined rest)),
        )
        (receive_all-Ended rest fuel (fill bytes buffer) (text ++ bytes)
          (after w (recv_call d buffer)) h small
          (length-fill bytes buffer (omega (arith, c.fits)) ∙ len) (omega arith) (sys buffer len).1)

-- A system that tells the receives on `d` that the peer has closed the connection.
abbrev pub AtEnd : (env : Trace → Call → Reply) → ℤ → ℕ → Type 0
AtEnd env d n =
    (t : Trace) (buffer : Buffer) → length buffer ≡ n → IsChunk n [] (env t (recv_call d buffer))

module _ (d : ℤ) (n : ℕ) (a : AcceptedSock) where
  -- Where the system answers every receive of an accepted socket with 0, as after the peer has
  -- closed the connection, the loop that receives never ends: whatever the fuel, it makes as many
  -- receives as the fuel allows and has no result.
  pub receive_all-endless :
      (fuel : ℕ) (buffer : Buffer) (text : Bytes) (w : World)
      → a.m_sock.m_impl.m_fd ≡ some d
      → length buffer ≡ n
      → AtEnd w.env d n
      → Returns
          (λ r w'. (r.1 ≡ none) × (length w'.trace ≡ fuel + length w.trace))
          (receive_all accepted_sock fuel buffer text a w)
  unfolding receive_all
  receive_all-endless zero buffer text w h len sys = returns (refl, omega arith)
  receive_all-endless (suc fuel) buffer text w h len sys =
      let c = sys w.trace buffer len in
      rw (recv_lem d a buffer w h, c.count, c.written)
        (mono
          (receive_all-endless fuel buffer (text ++ []) (after w (recv_call d buffer)) h len sys)
          λ r w' p. (p.0, omega (arith, p.1)))
