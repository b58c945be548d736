-- ===== src/Locks/Ordered.antt =====
-- The invariant of threads that take the mutexes of an endpoint in one order.
use mathlib.Core.Path.{subst}
use strongly_typed_sockets.Base.{
  ℕ, ◌==◌, ◌⊎◌, ◌≡◌, refl, Bool, true, false, ◌&&◌, ◌||◌, not, Option, none, some, List, [], ◌∷◌,
  inl, inr, Bool-cases, Option-cases, arith,
}
use strongly_typed_sockets.Locks.{
  Act, work, lock_endpoint, unlock_endpoint, lock_shared, unlock_shared, lock_unique, unlock_unique,
  System, update, without, is_nil, perform, step_thread, thread_turn, at_start, Turns, start, later,
}
use strongly_typed_sockets.Locks.Order.{Order, obeys}

abbrev pub owns : Option ℕ → ℕ → Bool
owns none j = false
owns (some i) j = i == j

abbrev pub reads : List ℕ → ℕ → Bool
reads [] j = false
reads (i ∷ readers) j = i == j || reads readers j

-- Every thread does what is left in the order, and there are no readers beside a writer.
pub record Ordered (o : Order) (s : System) : Type 0 where
  pub obedient :
      (j : ℕ) → obeys o (owns s.endpoint j) (reads s.readers j) (owns s.writer j) (s.rest j) ≡ true
  pub exclusive : (i : ℕ) → s.writer ≡ some i → s.readers ≡ []

reads-without :
    (i j : ℕ) (readers : List ℕ) → reads (without i readers) j ≡ (not (i == j) && reads readers j)
reads-without i j [] = ground arith
reads-without i j (k ∷ readers) = ground (arith, reads-without i j readers)

pub ==_refl : (i : ℕ) → (i == i) ≡ true
==_refl i = ground arith

self_or_other : (P : ℕ → Type 0) (i : ℕ) → P i → ((j : ℕ) → (i == j) ≡ false → P j) → (j : ℕ) → P j
self_or_other P i self other j = elim (Bool-cases (i == j)) [
  | inl e ↦ let same : i ≡ j = ground (arith, e) in subst P same self
  | inr e ↦ other j e
]

to_next : (o : Order) (s t : System) → some s ≡ some t → Ordered o s → Ordered o t
to_next o s t same h = let e : s ≡ t = cc in subst (λ u. Ordered o u) e h

nil_cases : (readers : List ℕ) → (readers ≡ []) ⊎ (is_nil readers ≡ false)
nil_cases [] = inl refl
nil_cases (k ∷ readers) = inr refl

owns_other :
    (held : Option ℕ) (i j : ℕ) → owns held i ≡ true → (i == j) ≡ false → owns held j ≡ false
owns_other none i j mine e = refl
owns_other (some k) i j mine e = ground (arith, mine, e)

reads_self : (i : ℕ) (readers : List ℕ) → reads (without i readers) i ≡ false
reads_self i readers = rw (reads-without i i readers, ==_refl i) refl

reads_other :
    (i j : ℕ) (readers : List ℕ) → (i == j) ≡ false → reads (without i readers) j ≡ reads readers j
reads_other i j readers e = rw (reads-without i j readers, e) refl

module _ (o : Order) (i : ℕ) (p : List Act) (s : System) (inv : Ordered o s) where
  abbrev Left : Act → Type 0
  Left a = s.rest i ≡ a ∷ p

  -- Where the turn leaves to each other thread what it holds, and to this one what it may hold.
  moves :
      (endpoint : Option ℕ) (readers : List ℕ) (writer : Option ℕ)
      → obeys o (owns endpoint i) (reads readers i) (owns writer i) p ≡ true
      → ((j : ℕ)
          → (i == j) ≡ false
          → (owns endpoint j ≡ owns s.endpoint j)
            × (reads readers j ≡ reads s.readers j)
            × (owns writer j ≡ owns s.writer j))
      → ((k : ℕ) → writer ≡ some k → readers ≡ [])
      → Ordered o (record {
        endpoint = endpoint;
        readers = readers;
        writer = writer;
        rest = update s.rest i p;
      })
  moves endpoint readers writer self other alone = record {
    obedient =
        self_or_other
          (λ j.
            obeys o (owns endpoint j) (reads readers j) (owns writer j) (update s.rest i p j)
            ≡ true)
          i (rw (==_refl i) self)
          λ j e. let k = other j e in rw (e, k.0, k.1, k.2) (inv.obedient j);
    exclusive = alone;
  }

  own :
      (a : Act)
      → Left a
      → obeys o (owns s.endpoint i) (reads s.readers i) (owns s.writer i) (a ∷ p) ≡ true
  own a left = rw left at (inv.obedient i)

  -- The turn of thread `i`, which has `a ∷ p` left.
  perform-Ordered :
      (a : Act) (t : System)
      → Left a
      → perform a i (record s { rest = update s.rest i p }) ≡ some t
      → Ordered o t
  perform-Ordered work t left does = to_next o _ t does (
      moves s.endpoint s.readers s.writer (own work left) (λ j e. (refl, refl, refl)) inv.exclusive)
  perform-Ordered lock_endpoint t left does = elim (Option-cases s.endpoint) [
    | inr (k, held) ↦ absurd (ground (arith, held, does))
    | inl free ↦ to_next o _ t (rw free at does) (
        moves (some i) s.readers s.writer (rw (==_refl i) (ground (arith, own lock_endpoint left)))
          (λ j e. (rw (e, free) refl, refl, refl)) inv.exclusive)
  ]
  perform-Ordered unlock_endpoint t left does =
      let h = own unlock_endpoint left in
      to_next o _ t does (
        moves none s.readers s.writer (ground (arith, h))
          (λ j e. (rw (owns_other s.endpoint i j (ground (arith, h)) e) refl, refl, refl))
          inv.exclusive)
  perform-Ordered lock_shared t left does = elim (Option-cases s.writer) [
    | inr (k, held) ↦ absurd (ground (arith, held, does))
    | inl free ↦ to_next o _ t (rw free at does) (
        moves s.endpoint (i ∷ s.readers) none
          (rw (==_refl i) (ground (arith, free, own lock_shared left)))
          (λ j e. (refl, rw e refl, rw free refl)) (λ k held. absurd (ground (arith, held))))
  ]
  perform-Ordered unlock_shared t left does =
      let h = own unlock_shared left in
      to_next o _ t does (
        moves s.endpoint (without i s.readers) s.writer
          (rw (reads_self i s.readers) (ground (arith, h)))
          (λ j e. (refl, reads_other i j s.readers e, refl))
          (λ k held. rw (inv.exclusive k held) refl))
  perform-Ordered lock_unique t left does = elim (Option-cases s.writer) [
    | inr (k, held) ↦ absurd (ground (arith, held, does))
    | inl free ↦ elim (nil_cases s.readers) [
      | inr some_read ↦ absurd (ground (arith, free, some_read, does))
      | inl unread ↦ to_next o _ t (rw (free, unread) at does) (
          moves s.endpoint [] (some i)
            (rw (==_refl i) (ground (arith, unread, own lock_unique left)))
            (λ j e. (refl, rw unread refl, rw (e, free) refl)) (λ k held. refl))
    ]
  ]
  perform-Ordered unlock_unique t left does =
      let h = own unlock_unique left in
      to_next o _ t does (
        moves s.endpoint s.readers none (ground (arith, h))
          (λ j e. (refl, refl, rw (owns_other s.writer i j (ground (arith, h)) e) refl))
          (λ k held. absurd (ground (arith, held))))

step_thread-Ordered :
    (o : Order) (i : ℕ) (acts : List Act) (s t : System)
    → Ordered o s
    → s.rest i ≡ acts
    → step_thread acts i s ≡ some t
    → Ordered o t
unfolding step_thread
step_thread-Ordered o i [] s t inv left does = absurd (ground (arith, does))
step_thread-Ordered o i (a ∷ p) s t inv left does = perform-Ordered o i p s inv a t left does

pub thread_turn-Ordered :
    (o : Order) (i : ℕ) (s t : System) → Ordered o s → thread_turn i s ≡ some t → Ordered o t
unfolding thread_turn
thread_turn-Ordered o i s t inv does = step_thread-Ordered o i (s.rest i) s t inv refl does

pub at_start-Ordered :
    (o : Order) (rest : ℕ → List Act)
    → ((j : ℕ) → obeys o false false false (rest j) ≡ true)
    → Ordered o (at_start rest)
at_start-Ordered o rest obey = record {
  obedient = obey;
  exclusive = λ i held. absurd (ground (arith, held));
}

pub Turns-Ordered : (o : Order) (k : ℕ) (s t : System) → Ordered o s → Turns k s t → Ordered o t
Turns-Ordered o _ s _ inv start = inv
Turns-Ordered o _ s u inv (later {k} {t} i does rest) =
    Turns-Ordered o k t u (thread_turn-Ordered o i s t inv does) rest
