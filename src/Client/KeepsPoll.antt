-- ===== src/Client/KeepsPoll.antt =====
-- src/endpoint/client.tpp: the poll of a client that connects.
use strongly_typed_sockets.Base.{◌≡◌, refl, Bool, Option, none, some, inl, inr, Bool-cases}
use strongly_typed_sockets.Os.{World, Cmd}
use strongly_typed_sockets.Os.Returns.{Partial, defined, Partial-bind, Partial-any}
use strongly_typed_sockets.Address.{InAddressPort}
use strongly_typed_sockets.States.{Proto, Active}
use strongly_typed_sockets.Client.{
  entered, ClientState, idle, binded, active, Client, set_fields, replace_state,
}
use strongly_typed_sockets.Client.Frames.{enter_connect-first}
use strongly_typed_sockets.Client.Connect.{
  Request, finish_connect, connect_parsed, retarget, connect_from, connect, connect_idle,
  connect_bound,
}

module _ {Poll : Type 0} where
  abbrev KeepsPoll : Client Poll → Client Poll × Bool → World → Type 0
  KeepsPoll c r w = r.0.poll ≡ c.poll

  connect_parsed-poll :
      (policy : InAddressPort → Cmd (ClientState × Option Active)) (q : Request) (c : Client Poll)
      (o : Option InAddressPort) (w : World)
      → Partial (KeepsPoll c) (connect_parsed policy q c o w)
  unfolding connect_parsed finish_connect set_fields
  connect_parsed-poll policy q c none w = defined refl
  connect_parsed-poll policy q c (some at) w =
      Partial-bind (Partial-any (policy at w)) λ r w1 _. finish r.0 r.1 w1
    where
      finish :
          (left : ClientState) (made : Option Active) (w : World)
          → Partial (KeepsPoll c) (finish_connect q at left made c w)
      finish left none w = defined refl
      finish left (some a) w =
          Partial-bind (Partial-any (replace_state left (active a) w)) λ st w1 _. defined refl

  retarget-poll :
      (q : Request) (c : Client Poll) (o : Option InAddressPort) (w : World)
      → Partial (KeepsPoll c) (retarget (some q) c o w)
  unfolding retarget set_fields
  retarget-poll q c none w = defined refl
  retarget-poll q c (some at) w = defined refl

  connect_from-poll :
      (p : Proto) (q : Request) (s : ClientState) (c : Client Poll) (w : World)
      → Partial (KeepsPoll c) (connect_from p q (some q) s c w)
  unfolding connect_from
  connect_from-poll p q (idle none) c w = defined refl
  connect_from-poll p q (idle (some s)) c w = elim (Bool-cases p.is_connectionless) [
    | inl less ↦ simp less (defined refl)
    | inr stream ↦ simp stream (connect_parsed-poll (connect_idle s) q c _ w)
  ]
  connect_from-poll p q (binded s) c w = connect_parsed-poll (connect_bound s) q c _ w
  connect_from-poll p q (active s) c w = retarget-poll q c _ w

  -- A client keeps its poll when it connects.
  pub connect-poll :
      (p : Proto) (q : Request) (c : Client Poll) (w : World)
      → w.captured p.socket_type ≡ none
      → Partial (KeepsPoll c) (connect p q c w)
  unfolding connect
  connect-poll p q c w unused =
      rw (connect, enter_connect-first p q w unused) (connect_from-poll p q c.state c (entered p w))
