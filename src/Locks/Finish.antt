-- ===== src/Locks/Finish.antt =====
-- Threads that take the mutexes of an endpoint in one order all come to their end.
use strongly_typed_sockets.Base.{
  ltb, ℕ, zero, suc, ◌+◌, ◌<◌, ◌≤◌, ◌==◌, ◌⊎◌, ◌≡◌, refl, sym, ap, if◌then◌else◌, Bool, true, false,
  none, some, List, [], ◌∷◌, inl, inr, Bool-cases, arith, length,
}
use strongly_typed_sockets.Epoll.{Event}
use strongly_typed_sockets.Locks.{
  Act, work, lock_endpoint, unlock_endpoint, lock_shared, unlock_shared, lock_unique, unlock_unique,
  Op, thread, System, update, perform, step_thread, thread_turn, Turns, at_start, start, later,
}
use strongly_typed_sockets.Locks.Order.{Order, all_suit, thread-obeys}
use strongly_typed_sockets.Locks.Ordered.{
  Ordered, thread_turn-Ordered, at_start-Ordered, Turns-Ordered,
}
use strongly_typed_sockets.Locks.Progress.{Moves, Free, holders-Moves, Ordered-Moves}

-- What is left for the first `n` threads.
abbrev pub total : ℕ → (ℕ → List Act) → ℕ
total zero rest = 0
total (suc n) rest = length (rest n) + total n rest

total_other :
    (n j : ℕ) (rest : ℕ → List Act) (p : List Act)
    → n ≤ j
    → total n (update rest j p) ≡ total n rest
total_other zero j rest p far = refl
total_other (suc n) j rest p far =
    let apart : (j == n) ≡ false = ground (arith, far) in
    rw (apart, total_other n j rest p (omega (arith, far))) refl

total-update :
    (n j : ℕ) (rest : ℕ → List Act) (a : Act) (p : List Act)
    → j < n
    → rest j ≡ a ∷ p
    → total n rest ≡ suc (total n (update rest j p))
total-update zero j rest a p near left = absurd (omega (arith, near))
total-update (suc n) j rest a p near left = elim (Bool-cases (j == n)) [
  | inl e ↦
      let same : j ≡ n = ground (arith, e) in
      let here : rest n ≡ a ∷ p = rw same at left in
      rw (e, here, total_other n j rest p (omega (arith, same))) (omega arith)
  | inr e ↦ rw e (omega (arith, total-update n j rest a p (ground (arith, near, e)) left))
]

rest_of : (s t : System) → some s ≡ some t → t.rest ≡ s.rest
rest_of s t same = let e : s ≡ t = cc in sym (ap (λ u. u.rest) e)

rest_of_if : (c : Bool) (s t : System) → (if c then some s else none) ≡ some t → t.rest ≡ s.rest
rest_of_if true s t does = rest_of s t does
rest_of_if false s t does = absurd (ground (arith, does))

perform-rest : (a : Act) (i : ℕ) (s t : System) → perform a i s ≡ some t → t.rest ≡ s.rest
perform-rest work i s t does = rest_of _ t does
perform-rest lock_endpoint i s t does = rest_of_if _ _ t does
perform-rest unlock_endpoint i s t does = rest_of _ t does
perform-rest lock_shared i s t does = rest_of_if _ _ t does
perform-rest unlock_shared i s t does = rest_of _ t does
perform-rest lock_unique i s t does = rest_of_if _ _ t does
perform-rest unlock_unique i s t does = rest_of _ t does

-- A turn takes the first of what is left for its thread, and nothing from the others.
step_thread-rest :
    (i : ℕ) (acts : List Act) (s t : System)
    → step_thread acts i s ≡ some t
    → (a : Act) × (p : List Act) × (acts ≡ a ∷ p) × (t.rest ≡ update s.rest i p)
unfolding step_thread
step_thread-rest i [] s t does = absurd (ground (arith, does))
step_thread-rest i (a ∷ p) s t does =
    (a, p, refl, perform-rest a i (record s { rest = update s.rest i p }) t does)

pub thread_turn-rest :
    (i : ℕ) (s t : System)
    → thread_turn i s ≡ some t
    → (a : Act) × (p : List Act) × (s.rest i ≡ a ∷ p) × (t.rest ≡ update s.rest i p)
unfolding thread_turn
thread_turn-rest i s t does = step_thread-rest i (s.rest i) s t does

abbrev Ended : System → Type 0
Ended s = (j : ℕ) → s.rest j ≡ []

nil_or_more : (acts : List Act) → (acts ≡ []) ⊎ ((a : Act) × (p : List Act) × (acts ≡ a ∷ p))
nil_or_more [] = inl refl
nil_or_more (a ∷ p) = inr (a, p, refl)

-- Either all of the first `n` threads have finished, or one has not.
find_unfinished :
    (n : ℕ) (rest : ℕ → List Act)
    → ((j : ℕ) → j < n → rest j ≡ []) ⊎ ((j : ℕ) × (a : Act) × (p : List Act) × (rest j ≡ a ∷ p))
find_unfinished zero rest = inl λ j near. absurd (omega (arith, near))
find_unfinished (suc n) rest = elim (nil_or_more (rest n)) [
  | inr (a, p, left) ↦ inr (n, a, p, left)
  | inl ended ↦ elim (find_unfinished n rest) [
    | inr more ↦ inr more
    | inl before ↦ inl λ j near. elim (Bool-cases (j == n)) [
      | inl e ↦ let same : j ≡ n = ground (arith, e) in rw same ended
      | inr e ↦ before j (ground (arith, near, e))
    ]
  ]
]

-- Threads from `n` on do nothing.
abbrev Outside : ℕ → System → Type 0
Outside n s = (j : ℕ) → n ≤ j → s.rest j ≡ []

turn_within :
    (n i : ℕ) (s t : System)
    → Outside n s
    → thread_turn i s ≡ some t
    → (i < n) × Outside n t × (total n s.rest ≡ suc (total n t.rest))
turn_within n i s t outside does =
    let (a, p, left, moved) = thread_turn-rest i s t does in
    let near : i < n = elim (Bool-cases (ltb i n)) [
      | inl e ↦ ground (arith, e)
      | inr e ↦ absurd (ground (arith, left, outside i (ground (arith, e))))
    ] in
    (
      near,
      λ j far.
          let apart : (i == j) ≡ false = ground (arith, near, far) in
          rw (moved, apart) (outside j far),
      rw moved (total-update n i s.rest a p near left),
    )

Ended-Free : (o : Order) (s : System) → Ordered o s → Ended s → Free s
Ended-Free o s inv ended = elim (holders-Moves o s inv) [
  | inr free ↦ free
  | inl (j, t, does) ↦
      let (a, p, left, moved) = thread_turn-rest j s t does in
      absurd (ground (arith, left, ended j))
]

abbrev pub Finishes : ℕ → System → Type 0
Finishes k s = (t : System) × Turns k s t × Ended t × Free t

total_ended : (n : ℕ) (rest : ℕ → List Act) → ((j : ℕ) → rest j ≡ []) → total n rest ≡ 0
total_ended zero rest ended = refl
total_ended (suc n) rest ended = rw (ended n, total_ended n rest ended) refl

-- Either all have finished or a turn is possible.
next_turn : (o : Order) (n : ℕ) (s : System) → Ordered o s → Outside n s → Ended s ⊎ Moves s
next_turn o n s inv outside = elim (find_unfinished n s.rest) [
  | inr (j, a, p, left) ↦ inr (Ordered-Moves o s j a p inv left)
  | inl below ↦ inl λ j. elim (Bool-cases (ltb j n)) [
    | inl e ↦ below j (ground (arith, e))
    | inr e ↦ outside j (ground (arith, e))
  ]
]

finish :
    (m : ℕ) (o : Order) (n : ℕ) (s : System)
    → Ordered o s
    → Outside n s
    → total n s.rest ≡ m
    → Finishes m s
finish zero o n s inv outside measure = elim (next_turn o n s inv outside) [
  | inl ended ↦ (s, start, ended, Ended-Free o s inv ended)
  | inr (i, t, does) ↦
      let (near, beyond, down) = turn_within n i s t outside does in
      absurd (omega (arith, measure, down))
]
finish (suc m) o n s inv outside measure = elim (next_turn o n s inv outside) [
  | inl ended ↦ absurd (omega (arith, measure, total_ended n s.rest ended))
  | inr (i, t, does) ↦
      let (near, beyond, down) = turn_within n i s t outside does in
      let (u, turns, ended, free) =
        finish m o n t (thread_turn-Ordered o i s t inv does) beyond
          (omega (arith, measure, down)) in
      (u, later i does turns, ended, free)
]

Turns-total :
    (n k : ℕ) (s t : System)
    → Outside n s
    → Turns k s t
    → Outside n t × (k + total n t.rest ≡ total n s.rest)
Turns-total n _ s _ outside start = (outside, omega arith)
Turns-total n _ s u outside (later {k} {t} i does turns) =
    let (near, beyond, down) = turn_within n i s t outside does in
    let (last, count) = Turns-total n k t u beyond turns in (last, omega (arith, down, count))

module _ {H : Type 0} (throws : H → Event → Bool) where
  abbrev pub threads : (ℕ → List (Op H)) → System
  threads ops = at_start (λ j. thread throws (ops j))

  -- For threads that call operations of one endpoint, of which those from `n` on call none, and
  -- which between them either do not call `start` (but for one that fails) and `stop`, or do not
  -- call `proceed`: whatever turns they have taken, so many acts are left as there were at the
  -- start but for one a turn, and there are turns, one for each act that is left, after which all
  -- threads have finished and no mutex is held. So no order of turns brings them to a deadlock,
  -- whatever handlers `proceed` finds, which of them throw, and how many events come.
  pub threads-Finish :
      (o : Order) (n : ℕ) (ops : ℕ → List (Op H)) (k : ℕ) (s : System)
      → ((j : ℕ) → all_suit o (ops j) ≡ true)
      → ((j : ℕ) → n ≤ j → ops j ≡ [])
      → Turns k (threads ops) s
      → (k + total n s.rest ≡ total n (threads ops).rest) × Finishes (total n s.rest) s
  unfolding thread
  threads-Finish o n ops k s suit idle turns =
      let outside : Outside n (threads ops) = λ j far. rw (idle j far) refl in
      let (last, count) = Turns-total n k (threads ops) s outside turns in
      let inv =
        Turns-Ordered o k (threads ops) s
          (at_start-Ordered o (threads ops).rest (λ j. thread-obeys throws o (ops j) (suit j)))
          turns in
      (count, finish (total n s.rest) o n s inv last refl)
