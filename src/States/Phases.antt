-- ===== src/States/Phases.antt =====
-- src/socket/socket.tpp and include/policy: the abstract view of a socket that the types stand for.
-- The system has every descriptor in a phase, which the calls of a trace lead from one to the next, and
-- takes each call on it in some phases only.
use strongly_typed_sockets.Base.{
  ℕ, ◌≡◌, refl, ℤ, pos, ◌==ℤ◌, Bool, true, false, ◌&&◌, ◌||◌, [], ◌∷◌, if◌then◌else◌,
}
use strongly_typed_sockets.Os.{Call, Reply, Trace, World, answer, perform, e_in_progress}
use strongly_typed_sockets.Os.Returns.{Partial, defined}

pub data Phase : Type 0 where
  closed created bound listening connected : Phase

-- The phases in which a call is taken.
abbrev pub may_bind : Phase → Bool
may_bind created = true
may_bind _ = false

abbrev pub may_connect : Phase → Bool
may_connect created = true
may_connect bound = true
may_connect _ = false

abbrev pub may_listen : Phase → Bool
may_listen bound = true
may_listen _ = false

abbrev pub may_accept : Phase → Bool
may_accept listening = true
may_accept _ = false

abbrev pub may_transfer : Phase → Bool
may_transfer connected = true
may_transfer _ = false

abbrev pub may_transfer_datagram : Phase → Bool
may_transfer_datagram bound = true
may_transfer_datagram connected = true
may_transfer_datagram _ = false

abbrev pub may_close : Phase → Bool
may_close closed = false
may_close _ = true

abbrev pub on : ℤ → ℤ → Bool → Bool
on x fd test = if fd ==ℤ x then test else true

-- Whether a call is one that the descriptor `x` takes in its phase; a call on another descriptor is.
abbrev pub allows : ℤ → Call → Phase → Bool
allows x (Call.bind fd _) ph = on x fd (may_bind ph)
allows x (Call.connect fd _) ph = on x fd (may_connect ph)
allows x (Call.listen fd _) ph = on x fd (may_listen ph)
allows x (Call.accept4 fd _ _) ph = on x fd (may_accept ph)
allows x (Call.shutdown fd _) ph = on x fd (may_transfer_datagram ph)
allows x (Call.close fd) ph = on x fd (may_close ph)
allows x (Call.send fd _ _ _) ph = on x fd (may_transfer ph)
allows x (Call.recv fd _ _ _) ph = on x fd (may_transfer ph)
allows x (Call.sendto fd _ _ _ _) ph = on x fd (may_transfer_datagram ph)
allows x (Call.recvfrom fd _ _ _ _) ph = on x fd (may_transfer_datagram ph)
allows x _ ph = true

-- A connection in progress counts as made: the system reports its failure to the poll.
abbrev pub next : ℤ → Call → Reply → Phase → Phase
next x (Call.socket _ _ _) r ph = if r.ret ==ℤ x then created else ph
next x (Call.accept4 _ _ _) r ph = if r.ret ==ℤ x then connected else ph
next x (Call.bind fd _) r ph = if fd ==ℤ x && r.ret ==ℤ pos 0 then bound else ph
next x (Call.listen fd _) r ph = if fd ==ℤ x && r.ret ==ℤ pos 0 then listening else ph
next x (Call.connect fd _) r ph =
    if fd ==ℤ x && (e_in_progress ==ℤ r.errno || pos 0 ==ℤ r.ret) then connected else ph
next x (Call.close fd) r ph = if fd ==ℤ x then closed else ph
next x _ r ph = ph

abbrev pub phase : ℤ → Trace → Phase
phase x [] = closed
phase x ((c, r) ∷ t) = next x c r (phase x t)

-- Every call of the trace was one that `x` took.
abbrev pub proper : ℤ → Trace → Bool
proper x [] = true
proper x ((c, r) ∷ t) = allows x c (phase x t) && proper x t

-- A system that hands out `x` only where it is closed.
pub record Fresh (x : ℤ) (env : Trace → Call → Reply) : Type 0 where
  pub by_socket :
      (t : Trace) (domain : ℤ) (type protocol : ℕ)
      → ((env t (Call.socket domain type protocol)).ret ==ℤ x) ≡ true
      → phase x t ≡ closed
  pub by_accept :
      (t : Trace) (fd : ℤ) (addr_size flags : ℕ)
      → ((env t (Call.accept4 fd addr_size flags)).ret ==ℤ x) ≡ true
      → phase x t ≡ closed

-- What holds of `x` in a world: the calls so far were proper, and it is in this phase.
pub record InPhase (x : ℤ) (ph : Phase) (w : World) : Type 0 where
  pub proper_so_far : proper x w.trace ≡ true
  pub at : phase x w.trace ≡ ph
  pub fresh : Fresh x w.env

module _ (x : ℤ) where
  -- A call that is allowed leads to the next phase.
  pub perform-InPhase :
      (c : Call) (ph : Phase) (w : World)
      → InPhase x ph w
      → allows x c ph ≡ true
      → Partial
          (λ r w'. (r ≡ answer w c) × InPhase x (next x c r ph) w' × (w'.errno ≡ r.errno))
          (perform c w)
  unfolding perform
  perform-InPhase c ph w h may = defined (
    refl,
    record { proper_so_far = rw (h.at, may) h.proper_so_far; at = rw h.at refl; fresh = h.fresh },
    refl,
  )
