-- ===== src/Client/Outcome.antt =====
-- src/endpoint/client.tpp: what a client is after the first `connect`.
use strongly_typed_sockets.Base.{
  ℕ, ◌+◌, ◌≡◌, refl, ℤ, Bool, true, false, Option, none, some, inl, inr, Bool-cases,
}
use strongly_typed_sockets.Os.{World, Cmd}
use strongly_typed_sockets.Os.Returns.{
  Returns, mono, Partial, defined, Partial-any, Partial-bind, Returns-and,
}
use strongly_typed_sockets.Os.Ledger.{Books}
use strongly_typed_sockets.Address.{InAddressPort, from_string_and_port}
use strongly_typed_sockets.States
use strongly_typed_sockets.States.{Proto, Active}
use strongly_typed_sockets.Client.{
  entered, ClientState, idle, binded, active, Client, set_fields, replace_state, destroy_state,
}
use strongly_typed_sockets.Client.Frames.{enter_connect-first}
use strongly_typed_sockets.Client.Connect.{
  Request, finish_connect, connect_idle, connect_bound, connect_parsed, retarget, connect_from,
  connect,
}
use strongly_typed_sockets.Client.Invariant.{held_state, IsValid}
use strongly_typed_sockets.Client.Connection.{connect-first_Books}

abbrev pub is_active : ClientState → Bool
is_active (active _) = true
is_active _ = false

module _ {Poll : Type 0} where
  -- The client knows the remote and has the callbacks of the request, and is active.
  pub record Connected (q : Request) (at : InAddressPort) (c : Client Poll) : Type 0 where
    pub remote : c.m_remote ≡ some at
    pub on_connect : c.m_on_connect ≡ q.on_connect
    pub on_read_ready : c.m_on_read_ready ≡ q.on_read_ready
    pub on_disconnect : c.m_on_disconnect ≡ q.on_disconnect
    pub is_connected : is_active c.state ≡ true

  -- The fields that the request would have set are as they were.
  pub record Refused (c d : Client Poll) : Type 0 where
    pub remote : d.m_remote ≡ c.m_remote
    pub on_connect : d.m_on_connect ≡ c.m_on_connect
    pub on_read_ready : d.m_on_read_ready ≡ c.m_on_read_ready
    pub on_disconnect : d.m_on_disconnect ≡ c.m_on_disconnect
    pub same_kind : is_active d.state ≡ is_active c.state

  abbrev pub Outcome : Request → Option InAddressPort → Client Poll → Client Poll × Bool → Type 0
  Outcome q parsed c (d, true) = (at : InAddressPort) × (parsed ≡ some at) × Connected q at d
  Outcome q parsed c (d, false) = Refused c d

  unchanged : (c : Client Poll) → Refused c c
  unchanged c = record {
    remote = refl;
    on_connect = refl;
    on_read_ready = refl;
    on_disconnect = refl;
    same_kind = refl;
  }

  finish_connect-Outcome :
      (q : Request) (at : InAddressPort) (left : ClientState) (made : Option Active)
      (c : Client Poll) (w : World)
      → is_active left ≡ is_active c.state
      → Partial (λ r _. Outcome q (some at) c r) (finish_connect q at left made c w)
  unfolding finish_connect set_fields replace_state
  finish_connect-Outcome q at left none c w same = defined (record {
    remote = refl;
    on_connect = refl;
    on_read_ready = refl;
    on_disconnect = refl;
    same_kind = same;
  })
  finish_connect-Outcome q at left (some a) c w same = Partial-bind (replaced w) λ st w1 e.
      defined (
        at,
        refl,
        record {
          remote = refl;
          on_connect = refl;
          on_read_ready = refl;
          on_disconnect = refl;
          is_connected = rw e refl;
        },
      )
    where
      replaced : (w : World) → Partial (λ st _. st ≡ active a) (replace_state left (active a) w)
      replaced w = Partial-bind (Partial-any (destroy_state left w)) λ _ w1 _. defined refl

  connect_parsed-Outcome :
      (policy : InAddressPort → Cmd (ClientState × Option Active)) (q : Request) (c : Client Poll)
      (o : Option InAddressPort) (w : World)
      → ((at : InAddressPort) → Partial (λ r _. is_active r.0 ≡ is_active c.state) (policy at w))
      → Partial (λ r _. Outcome q o c r) (connect_parsed policy q c o w)
  unfolding connect_parsed
  connect_parsed-Outcome policy q c none w kind = defined (unchanged c)
  connect_parsed-Outcome policy q c (some at) w kind =
      Partial-bind (kind at) λ r w1 same. finish_connect-Outcome q at r.0 r.1 c w1 same

  retarget-Outcome :
      (q : Request) (c : Client Poll) (o : Option InAddressPort) (w : World)
      → is_active c.state ≡ true
      → Partial (λ r _. Outcome q o c r) (retarget (some q) c o w)
  unfolding retarget set_fields
  retarget-Outcome q c none w is = defined (unchanged c)
  retarget-Outcome q c (some at) w is = defined (
    at,
    refl,
    record {
      remote = refl;
      on_connect = refl;
      on_read_ready = refl;
      on_disconnect = refl;
      is_connected = is;
    },
  )

  connect_from-Outcome :
      (p : Proto) (q : Request) (s : ClientState) (c : Client Poll) (w : World)
      → c.state ≡ s
      → Partial
          (λ r _. Outcome q (from_string_and_port w.platform q.remote_address q.remote_port) c r)
          (connect_from p q (some q) s c w)
  unfolding connect_from connect_idle connect_bound
  connect_from-Outcome p q (idle none) c w e = defined (unchanged c)
  connect_from-Outcome p q (idle (some s)) c w e = elim (Bool-cases p.is_connectionless) [
    | inl less ↦ simp less (defined (unchanged c))
    | inr stream ↦ simp stream (
        connect_parsed-Outcome (connect_idle s) q c _ w λ at.
          Partial-bind (Partial-any (States.connect s at w))
            λ r w1 _. defined {a = (idle (some r.0), r.1)} (rw e refl))
  ]
  connect_from-Outcome p q (binded s) c w e = connect_parsed-Outcome (connect_bound s) q c _ w λ at.
      Partial-bind (Partial-any (States.connect_binded s at w))
        λ r w1 _. defined {a = (binded r.0, r.1)} (rw e refl)
  connect_from-Outcome p q (active s) c w e = retarget-Outcome q c _ w (rw e refl)

  pub connect-Outcome :
      (p : Proto) (q : Request) (c : Client Poll) (w : World)
      → w.captured p.socket_type ≡ none
      → Partial
          (λ r _. Outcome q (from_string_and_port w.platform q.remote_address q.remote_port) c r)
          (connect p q c w)
  unfolding connect
  connect-Outcome p q c w unused =
      rw (connect, enter_connect-first p q w unused)
        (connect_from-Outcome p q c.state c (entered p w) refl)

  -- A call of `connect`, the first for clients of its protocol, on a well formed client with
  -- balanced books, is defined. It gives back true only for an address that parses, and then the
  -- client is active and has that address for its remote and the callbacks of the request. Where it
  -- gives back false, the client has the remote and the callbacks that it had, and is active
  -- exactly if it was.
  pub connect-first_Outcome :
      (x : ℤ) (p : Proto) (q : Request) (c : Client Poll) (k : ℕ) (w : World)
      → IsValid p c
      → w.captured p.socket_type ≡ none
      → Books x (held_state x c.state + k) w
      → Returns
          (λ r _. Outcome q (from_string_and_port w.platform q.remote_address q.remote_port) c r)
          (connect p q c w)
  connect-first_Outcome x p q c k w v unused b =
      mono
        (Returns-and (connect-first_Books x p q c k w v unused b) (connect-Outcome p q c w unused))
        λ r w' h. h.1
