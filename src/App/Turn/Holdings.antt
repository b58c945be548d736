-- ===== src/App/Turn/Holdings.antt =====
-- app/server_main.cpp: what the connections of `active_sockets` hold, as the vector gets one more and
-- loses its last.
use strongly_typed_sockets.Base.{
  ℕ, zero, suc, ◌+◌, ◌≤◌, ◌<◌, ◌≡◌, refl, ℤ, Option, none, some, List, [], ◌∷◌, ◌++◌, length, take,
  ◌⊎◌, inl, inr, arith, Bool-cases,
}
use strongly_typed_sockets.Os.Ledger.{held}
use strongly_typed_sockets.Accepted.{AcceptedSock}
use strongly_typed_sockets.App.Sockets.{
  Place, Element, ActiveSockets, put, reserve, is_full, end_place, emplace_back,
}
use strongly_typed_sockets.App.Sockets.Settled.{
  place, AllStand, IsSettled, ==_refl, ==_less, reserve-IsSettled,
}

abbrev held_sock : ℤ → Option AcceptedSock → ℕ
held_sock x none = 0
held_sock x (some a) = held x a.m_sock.m_impl.m_fd

abbrev held_to : ℤ → (Place → Option AcceptedSock) → Option Place → ℕ
held_to x objects none = 0
held_to x objects (some p) = held_sock x (objects p)

-- How often the objects that the elements lead to hold `x`.
abbrev held_elements : ℤ → (Place → Option AcceptedSock) → List Element → ℕ
held_elements x objects [] = 0
held_elements x objects (e ∷ es) = held_to x objects e.socket + held_elements x objects es

abbrev pub held_sockets : ℤ → ActiveSockets AcceptedSock → ℕ
held_sockets x v = held_elements x v.objects v.elements

module _ (x : ℤ) where
  held-put :
      (block end slot : ℕ) (o : Option AcceptedSock) (objects : Place → Option AcceptedSock)
      (es : List Element)
      → slot + length es ≤ end
      → AllStand block objects slot es
      → held_elements x (put (place block end) o objects) es ≡ held_elements x objects es
  held-put block end slot o objects [] before h = refl
  held-put block end slot o objects (e ∷ es) before h =
      rw
        (
          h.0.0,
          ==_refl block,
          ==_less slot end (omega (arith, before)),
          held-put block end (suc slot) o objects es (omega (arith, before)) h.1,
        )
        refl

  held-append :
      (objects : Place → Option AcceptedSock) (es : List Element) (e : Element)
      → held_elements x objects (es ++ e ∷ [])
        ≡ held_to x objects e.socket + held_elements x objects es
  held-append objects [] e = refl
  held-append objects (f ∷ es) e = omega (arith, held-append objects es e)

  pub emplace_back-held :
      (grow : ℕ → ℕ) (sock : AcceptedSock) (fd : ℤ) (v : ActiveSockets AcceptedSock)
      → IsSettled v
      → ((n : ℕ) → n < grow n)
      → (length v.elements < v.capacity) ⊎ (v.elements ≡ [])
      → held_sockets x (emplace_back grow sock fd v)
        ≡ held x sock.m_sock.m_impl.m_fd + held_sockets x (reserve grow v)
  unfolding emplace_back
  emplace_back-held grow sock fd v h grows free =
      let room = reserve grow v in
      let r = reserve-IsSettled grow v h grows free in
      let end = length room.elements in
      rw
        (
          held-append (put (end_place room) (some sock) room.objects) room.elements
              (record { socket = some (end_place room); fd = fd; text = [] }),
          held-put room.block end 0 (some sock) room.objects room.elements (omega arith) r.0,
          ==_refl room.block,
          ==_refl end,
        )
        refl

  pub reserve-held :
      (grow : ℕ → ℕ) (v : ActiveSockets AcceptedSock)
      → (length v.elements < v.capacity) ⊎ (v.elements ≡ [])
      → held_sockets x (reserve grow v) ≡ held_sockets x v
  reserve-held grow v (inl less) = ground (arith, less)
  reserve-held grow v (inr empty) = elim (Bool-cases (is_full v)) [
    | inl e ↦ rw (e, empty) refl
    | inr e ↦ rw e refl
  ]

  pub held-take :
      (block end slot n : ℕ) (s : AcceptedSock) (objects : Place → Option AcceptedSock)
      (es : List Element)
      → slot + n ≡ end
      → suc n ≡ length es
      → objects (place block end) ≡ some s
      → AllStand block objects slot es
      → held x s.m_sock.m_impl.m_fd
          + held_elements x (put (place block end) none objects) (take n es)
        ≡ held_elements x objects es
  held-take block end slot n s objects [] sum len lives h = absurd (omega (arith, len))
  held-take block end slot zero s objects (e ∷ []) sum len lives h =
      let here : slot ≡ end = omega (arith, sum) in rw (h.0.0, here, lives) (omega arith)
  held-take block end slot zero s objects (e ∷ f ∷ es) sum len lives h = absurd (omega (arith, len))
  held-take block end slot (suc n) s objects (e ∷ es) sum len lives h =
      rw (h.0.0, ==_refl block, ==_less slot end (omega (arith, sum)))
        (omega (
          arith,
          held-take block end (suc slot) n s objects es (omega (arith, sum)) (omega (arith, len))
              lives h.1,
        ))
