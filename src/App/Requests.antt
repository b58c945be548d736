-- ===== src/App/Requests.antt =====
-- app/server_main.cpp: the receives and the replies of the server in a history of calls, and peers
-- that send their requests in chunks.
use strongly_typed_sockets.Base.{
  ℕ, zero, suc, ◌+◌, ◌%◌, ◌<◌, ◌^◌, ◌≡◌, refl, sym, ap, ◌∙◌, ℤ, ◌==ℤ◌, ==ℤ_refl, minus_one, Bool,
  false, Option, none, some, List, [], ◌∷◌, ◌++◌, length, drop, if◌then◌else◌, arith,
}
use strongly_typed_sockets.Os.{Bytes, Buffer, Call, Reply, Trace, World, e_again, answer, after}
use mathlib.Core.List.{append_assoc}
use strongly_typed_sockets.Os.Returns.{Returns, returns, mono}
use strongly_typed_sockets.Accepted.{AcceptedSock}
use strongly_typed_sockets.SendRecv.{accepted_sock}
use strongly_typed_sockets.App.Server.{receive_all, fill}
use strongly_typed_sockets.App.Receiving.{
  recv_call, recv_lem, IsChunk, Delivers, length-fill, take-fill,
}

abbrev pub receives_from : ℤ → Call → Bool
receives_from d (Call.recv x _ _ _) = x ==ℤ d
receives_from d c = false

-- How many receives on `d` a history has, and the sends in it, the last one first.
abbrev pub count : ℤ → Trace → ℕ
count d [] = 0
count d ((c, r) ∷ t) = if receives_from d c then suc (count d t) else count d t

abbrev pub sent_by : Call → List (ℤ × Bytes) → List (ℤ × Bytes)
sent_by (Call.send d text _ _) l = (d, text) ∷ l
sent_by c l = l

abbrev pub replies : Trace → List (ℤ × Bytes)
replies [] = []
replies ((c, r) ∷ t) = sent_by c (replies t)

-- What one history has more than another: `k` receives, all on `d`, and these sends.
pub record Adds (d : ℤ) (k : ℕ) (said : List (ℤ × Bytes)) (t t' : Trace) : Type 0 where
  pub received : count d t' ≡ k + count d t
  pub others : (x : ℤ) → (d ==ℤ x) ≡ false → count x t' ≡ count x t
  pub replied : replies t' ≡ said ++ replies t

abbrev pub nth : {A : Type 0} → ℕ → List A → Option A
nth n [] = none
nth zero (a ∷ l) = some a
nth (suc n) (a ∷ l) = nth n l

pub drop-nth :
    {A : Type 0} (n : ℕ) (l : List A) (a : A) → nth n l ≡ some a → drop n l ≡ a ∷ drop (suc n) l
drop-nth n [] a at = absurd (ground (arith, at))
drop-nth zero (b ∷ l) a at = let same : b ≡ a = cc in ap (λ x. x ∷ l) same
drop-nth (suc n) (b ∷ l) a at = drop-nth n l a at

pub nth-drop : {A : Type 0} (n : ℕ) (l : List A) → nth 0 (drop n l) ≡ nth n l
nth-drop zero l = refl
nth-drop (suc n) [] = refl
nth-drop (suc n) (a ∷ l) = nth-drop n l

pub drop-suc : {A : Type 0} (n : ℕ) (l : List A) → drop (suc n) l ≡ drop 1 (drop n l)
drop-suc zero l = refl
drop-suc (suc n) [] = refl
drop-suc (suc n) (a ∷ l) = drop-suc n l

-- What a peer says to a receive into a buffer of `n` bytes: the next chunk, or nothing.
abbrev pub Says : ℕ → Option Bytes → Reply → Type 0
Says n none r = (r.ret ≡ minus_one) × (r.errno ≡ e_again)
Says n (some bytes) r = IsChunk n bytes r

-- A system in which the peer at `d` sends `chunks d`, one for each receive, and then nothing.
abbrev pub Peers : (Trace → Call → Reply) → ℕ → (ℤ → List Bytes) → Type 0
Peers env n chunks =
    (t : Trace) (d : ℤ) (buffer : Buffer)
    → length buffer ≡ n
    → Says n (nth (count d t) (chunks d)) (env t (recv_call d buffer))

pub Peers-Delivers :
    (env : Trace → Call → Reply) (n : ℕ) (chunks : ℤ → List Bytes) (d : ℤ) (rest : List Bytes)
    (t : Trace)
    → Peers env n chunks
    → drop (count d t) (chunks d) ≡ rest
    → Delivers env d n e_again rest t
Peers-Delivers env n chunks d [] t peers at = λ buffer len.
    let none_left = sym (nth-drop (count d t) (chunks d)) ∙ ap (nth 0) at in
    rw none_left at (peers t d buffer len)
Peers-Delivers env n chunks d (bytes ∷ rest) t peers at = λ buffer len.
    let next = sym (nth-drop (count d t) (chunks d)) ∙ ap (nth 0) at in
    (
      rw next at (peers t d buffer len),
      Peers-Delivers env n chunks d rest ((recv_call d buffer, env t (recv_call d buffer)) ∷ t)
          peers (rw (==ℤ_refl d) (drop-suc (count d t) (chunks d) ∙ ap (drop 1) at)),
    )

-- One receive on `d`.
receive-Adds :
    (d : ℤ) (buffer : Buffer) (r : Reply) (t : Trace) → Adds d 1 [] t ((recv_call d buffer, r) ∷ t)
receive-Adds d buffer r t = record {
  received = rw (==ℤ_refl d) (omega arith);
  others = λ x apart. rw apart refl;
  replied = refl;
}

pub Adds-after :
    (d : ℤ) (j k n : ℕ) (before later : List (ℤ × Bytes)) (t t1 t2 : Trace)
    → k + j ≡ n
    → Adds d j before t t1
    → Adds d k later t1 t2
    → Adds d n (later ++ before) t t2
Adds-after d j k n before later t t1 t2 sum f g = record {
  received = omega (arith, sum, f.received, g.received);
  others = λ x apart. g.others x apart ∙ f.others x apart;
  replied =
      g.replied ∙ ap (λ l. later ++ l) f.replied ∙ sym (append_assoc later before (replies t));
}

pub receive_all-Adds :
    (d : ℤ) (n : ℕ) (e : ℤ) (a : AcceptedSock) (chunks : List Bytes) (fuel : ℕ) (buffer : Buffer)
    (text : Bytes) (w : World)
    → a.m_sock.m_impl.m_fd ≡ some d
    → n < 2 ^ 64
    → length buffer ≡ n
    → length chunks < fuel
    → Delivers w.env d n e chunks w.trace
    → Returns
        (λ r w'. Adds d (suc (length chunks)) [] w.trace w'.trace)
        (receive_all accepted_sock fuel buffer text a w)
unfolding receive_all
receive_all-Adds d n e a chunks zero buffer text w h small len more sys =
    absurd (omega (arith, more))
receive_all-Adds d n e a [] (suc fuel) buffer text w h small len more sys =
    rw (recv_lem d a buffer w h, (sys buffer len).0)
      (returns (receive-Adds d buffer (answer w (recv_call d buffer)) w.trace))
receive_all-Adds d n e a (bytes ∷ rest) (suc fuel) buffer text w h small len more sys =
    let c = (sys buffer len).0 in
    let whole : length bytes % 2 ^ 64 ≡ length bytes = omega (arith, c.fits) in
    rw (recv_lem d a buffer w h, c.count, whole, c.written, take-fill bytes buffer)
      (mono
        (receive_all-Adds d n e a rest fuel (fill bytes buffer) (text ++ bytes)
          (after w (recv_call d buffer)) h small
          (length-fill bytes buffer (omega (arith, c.fits, len)) ∙ len) (omega (arith, more))
          (sys buffer len).1)
        λ r w' g.
          Adds-after d 1 (suc (length rest)) _ [] [] w.trace (after w (recv_call d buffer)).trace
            w'.trace (omega arith) (receive-Adds d buffer (answer w (recv_call d buffer)) w.trace)
            g)
