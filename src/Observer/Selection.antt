-- ===== src/Observer/Selection.antt =====
-- src/endpoint/event_observer.tpp: `handle_event` against an independent description, the handlers of
-- the event's types, run one after the other.
use Prim.Native.Nat.{digits, min, bit_and-bitwise}
use strongly_typed_sockets.Base.{
  ℕ, zero, suc, ◌*◌, ◌/◌, ◌≡◌, ◌⊎◌, refl, ◌∙◌, Bool, true, false, Option, none, some, List, [], ◌∷◌,
  inl, inr, Bool-cases, Option-cases, if◌then◌else◌, arith, is_none, ◌==◌, bit_and,
}
use strongly_typed_sockets.Os.{World, Cmd, Run, ok, undefined, pure, ◌>>=◌, and_then}
use strongly_typed_sockets.Epoll.{Event, EventType, no_event}
use strongly_typed_sockets.Observer.{
  Exn, Handlers, Runner, find, run_found, handle_type, handle_types, handle_event, handled_types,
}

double : ℕ → ℕ
double zero = 1
double (suc j) = double j * 2

abbrev and_of : ℕ → ℕ → ℕ → ℕ
and_of n a b = digits (λ _. zero) min n a b

and_of-zero : (n a : ℕ) → and_of n a 0 ≡ 0
and_of-zero zero a = refl
and_of-zero (suc n) zero = refl
and_of-zero (suc n) (suc a) = omega (arith, and_of-zero n (suc a / 2))

and_of-double : (j n a : ℕ) → (and_of n a (double j) ≡ 0) ⊎ (and_of n a (double j) ≡ double j)
unfolding double
and_of-double zero zero a = inl refl
and_of-double zero (suc n) zero = inl refl
and_of-double zero (suc n) (suc a) = ground (arith, and_of-zero n (suc a / 2))
and_of-double (suc j) zero a = inl refl
and_of-double (suc j) (suc n) zero = inl refl
and_of-double (suc j) (suc n) (suc a) =
    let half : double j * 2 / 2 ≡ double j = omega arith in
    rw half (ground (arith, and_of-double j n (suc a / 2)))

-- A flag: a number with one binary digit.
abbrev IsFlag : ℕ → Type 0
IsFlag b = (j : ℕ) × (b ≡ double j)

bit_and-IsFlag : (a b : ℕ) → IsFlag b → (bit_and a b ≡ 0) ⊎ (bit_and a b ≡ b)
bit_and-IsFlag a b (j, e) = ground (arith, bit_and-bitwise a b, and_of-double j a a)

abbrev AllFlags : List ℕ → Type 0
AllFlags [] = Unit {0}
AllFlags (b ∷ bs) = IsFlag b × AllFlags bs

handled_types-AllFlags : AllFlags handled_types
unfolding double
handled_types-AllFlags =
    ((1, refl), ((2, refl), ((0, refl), ((5, refl), ((4, refl), ((3, refl), tt))))))

module _ {H S : Type 0} (run : Runner H S) (handlers : Handlers H) where
  -- The handlers of the types that are set in `type`, in the order of the list.
  abbrev pub selected : List EventType → EventType → List H
  selected [] type = []
  selected (tp ∷ tps) type =
      if bit_and type tp == 0
      then selected tps type
      else elim (find tp handlers) [ none ↦ selected tps type | some h ↦ h ∷ selected tps type ]

  -- The handlers one after the other, up to the first that throws; `first` says whether one has
  -- come to an end.
  abbrev pub run_all : List H → Event → Bool → S → Cmd (S × Bool × Option Exn)
  run_all [] event first s = pure (s, first, none)
  run_all (h ∷ hs) event first s = do
    (s', thrown) ← run h event.fd s
    elim thrown [ some e ↦ pure (s', first, some e) | none ↦ run_all hs event true s' ]

  -- A type whose key leads to no handler is passed over.
  skip :
      (tp : EventType) (tps : List EventType) (event : Event) (first : Bool) (s : S) (w : World)
      → find (bit_and event.type tp) handlers ≡ none
      → handle_types run handlers (tp ∷ tps) event first s w
        ≡ handle_types run handlers tps event first s w
  unfolding handle_types handle_type run_found
  skip tp tps event true s w e = rw (e, run_found) refl
  skip tp tps event false s w e = rw (e, run_found) refl

  take_on :
      (tp : EventType) (tps : List EventType) (hs : List H) (h : H) (event : Event) (first : Bool)
      (s : S) (w : World)
      → find (bit_and event.type tp) handlers ≡ some h
      → ((first : Bool) (s : S) (w : World)
          → handle_types run handlers tps event first s w ≡ run_all hs event first s w)
      → handle_types run handlers (tp ∷ tps) event first s w ≡ run_all (h ∷ hs) event first s w
  unfolding handle_types handle_type run_found
  take_on tp tps hs h event first s w e rest = rw (e, run_found) (go (run h event.fd s w))
    where
      tail : S × Bool × Option Exn → Cmd (S × Bool × Option Exn)
      tail p = elim p.2 [
        | some e ↦ pure (p.0, first, some e)
        | none ↦ handle_types run handlers tps event (if first then true else p.1) p.0
      ]

      spec : S × Option Exn → Cmd (S × Bool × Option Exn)
      spec p = elim p.1 [ some e ↦ pure (p.0, first, some e) | none ↦ run_all hs event true p.0 ]

      found : S × Option Exn → Cmd (S × Bool × Option Exn)
      found p = pure (p.0, is_none p.1, p.1)

      sure : (b : Bool) → (if b then true else true) ≡ true
      sure true = refl
      sure false = refl

      go : (r : Run (S × Option Exn)) → and_then (and_then r found) tail ≡ and_then r spec
      go undefined = refl
      go (ok (s', some e) w') = refl
      go (ok (s', none) w') = rw (sure first) (rest true s' w')

  handle_types-run_all :
      (tps : List EventType) (event : Event) (first : Bool) (s : S) (w : World)
      → AllFlags tps
      → find no_event handlers ≡ none
      → handle_types run handlers tps event first s w
        ≡ run_all (selected tps event.type) event first s w
  unfolding handle_types
  handle_types-run_all [] event first s w f n = refl
  handle_types-run_all (tp ∷ tps) event first s w f n =
      elim (Bool-cases (bit_and event.type tp == 0)) [
        | inl clear ↦ rw clear (
            skip tp tps event first s w (ground (arith, clear, n))
            ∙ handle_types-run_all tps event first s w f.1 n)
        | inr set ↦
            let key : bit_and event.type tp ≡ tp =
              ground (arith, bit_and-IsFlag event.type tp f.0) in
            rw set (elim (Option-cases (find tp handlers)) [
              | inl missing ↦ rw missing (
                  skip tp tps event first s w (rw key missing)
                  ∙ handle_types-run_all tps event first s w f.1 n)
              | inr (h, there) ↦ rw there (
                  take_on tp tps (selected tps event.type) h event first s w (rw key there)
                    λ first' s' w'. handle_types-run_all tps event first' s' w' f.1 n)
            ])
      ]

  -- Where no handler is registered for the empty type, `handle_event` does the same as running the
  -- handlers of the types that the event has, in the order in which the code tries them, up to the
  -- first that throws; the event counts as handled when one handler has come to an end.
  pub handle_event-run_all :
      (event : Event) (s : S) (w : World)
      → find no_event handlers ≡ none
      → handle_event run handlers event s w
        ≡ run_all (selected handled_types event.type) event false s w
  unfolding handle_event
  handle_event-run_all event s w n =
      handle_types-run_all handled_types event false s w handled_types-AllFlags n
