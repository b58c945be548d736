-- ===== src/Client/Registration.antt =====
-- src/endpoint/client.tpp: which handlers a client has after `register_cbs` and `unregister_cbs`.
use strongly_typed_sockets.Base.{
  ◌≡◌, refl, Bool, ◌||◌, Option, none, some, inl, inr, Option-cases, if◌then◌else◌, arith, ◌==◌,
  ◌∙◌,
}
use strongly_typed_sockets.Epoll.{
  EventType, exception, read_ready, write_ready, peer_closed, error, hangup,
}
use strongly_typed_sockets.Observer.{Handlers, find, add, remove}
use strongly_typed_sockets.Observer.Dispatch.{find-add, find-remove}
use strongly_typed_sockets.Client.{
  Client, Handler, erase, on_readable, on_writable, register_cbs, unregister_cbs,
}

-- The events on which a client takes its descriptor off the poll.
abbrev pub is_ending : EventType → Bool
is_ending e = e == exception || (e == peer_closed || (e == error || e == hangup))

-- The handler that a client wants for a type of event.
abbrev pub wanted : EventType → Option Handler
wanted e =
    if is_ending e
    then some erase
    else if e == read_ready
    then some on_readable
    else if e == write_ready
    then some on_writable
    else none

abbrev pub or_else : {A : Type 0} → Option A → Option A → Option A
or_else (some a) b = some a
or_else none b = b

find-add_new :
    {H : Type 0} (e k : EventType) (h : H) (m : Handlers H)
    → find e (add k h m).0 ≡ or_else (find e m) (if k == e then some h else none)
find-add_new e k h m = elim (Option-cases (find e m)) [
  | inl n ↦ find-add e k h m ∙ rw n refl
  | inr (g, n) ↦ find-add e k h m ∙ rw n refl
]

module _ {Poll : Type 0} where
  -- After `register_cbs` a client has, for each type of event, the handler that it had, or else the
  -- one that it wants for the type.
  pub register_cbs_lem :
      (e : EventType) (c : Client Poll)
      → find e (register_cbs c).handlers ≡ or_else (find e c.handlers) (wanted e)
  unfolding register_cbs
  register_cbs_lem e c =
      let m1 = (add peer_closed erase c.handlers).0 in
      let m2 = (add error erase m1).0 in
      let m3 = (add hangup erase m2).0 in
      let m4 = (add exception erase m3).0 in
      let m5 = (add read_ready on_readable m4).0 in
      ground (
        arith,
        find-add_new e peer_closed erase c.handlers,
        find-add_new e error erase m1,
        find-add_new e hangup erase m2,
        find-add_new e exception erase m3,
        find-add_new e read_ready on_readable m4,
        find-add_new e write_ready on_writable m5,
      )

  -- After `unregister_cbs` a client has no handler for the four types that end a connection nor for
  -- reading, and for every other type, that for writing among them, the handler that it had.
  pub unregister_cbs_lem :
      (e : EventType) (c : Client Poll)
      → find e (unregister_cbs c).handlers
        ≡ (if is_ending e || e == read_ready then none else find e c.handlers)
  unfolding unregister_cbs
  unregister_cbs_lem e c =
      let m1 = (remove peer_closed c.handlers).0 in
      let m2 = (remove error m1).0 in
      let m3 = (remove hangup m2).0 in
      let m4 = (remove exception m3).0 in
      ground (
        arith,
        find-remove e peer_closed c.handlers,
        find-remove e error m1,
        find-remove e hangup m2,
        find-remove e exception m3,
        find-remove e read_ready m4,
      )
