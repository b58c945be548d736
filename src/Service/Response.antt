-- ===== src/Service/Response.antt =====
-- app/service.cpp: the answer to a request, for the numbers that are in it.
use strongly_typed_sockets.Base.{
  ℕ, ◌+◌, ◌%◌, ◌^◌, ◌≤◌, ◌<◌, ◌≡◌, refl, ap, ◌∙◌, Option, none, some, List, [], ◌∷◌, ◌++◌, leb,
  ◌==◌, if◌then◌else◌, Bool-cases, inl, inr, arith,
}
use strongly_typed_sockets.Os.{Bytes}
use strongly_typed_sockets.Address.{decimal}
use strongly_typed_sockets.Service.{
  parse_ints, insert, sort, write_ints, answer_to, create_response, ◌>>=◌,
}

abbrev pub count : ℕ → List ℕ → ℕ
count x [] = 0
count x (n ∷ ns) = (if n == x then 1 else 0) + count x ns

abbrev pub IsSorted : List ℕ → Type 0
IsSorted [] = Unit {0}
IsSorted (n ∷ []) = Unit {0}
IsSorted (n ∷ m ∷ ms) = (n ≤ m) × IsSorted (m ∷ ms)

abbrev pub total : List ℕ → ℕ
total [] = 0
total (n ∷ ns) = n + total ns

-- The numbers one after the other, each before a space.
abbrev pub spaced : List ℕ → Bytes
spaced [] = []
spaced (n ∷ ns) = decimal 10 n ++ b' ' ∷ spaced ns

count-insert : (x n : ℕ) (ns : List ℕ) → count x (insert n ns) ≡ count x (n ∷ ns)
unfolding insert
count-insert x n [] = refl
count-insert x n (m ∷ ms) = elim (Bool-cases (leb n m)) [
  | inl e ↦ rw e refl
  | inr e ↦ rw e (omega (arith, count-insert x n ms))
]

count-sort : (x : ℕ) (ns : List ℕ) → count x (sort ns) ≡ count x ns
unfolding sort
count-sort x [] = refl
count-sort x (n ∷ ns) = omega (arith, count-insert x n (sort ns), count-sort x ns)

total-insert : (n : ℕ) (ns : List ℕ) → total (insert n ns) ≡ n + total ns
unfolding insert
total-insert n [] = refl
total-insert n (m ∷ ms) = elim (Bool-cases (leb n m)) [
  | inl e ↦ rw e refl
  | inr e ↦ rw e (omega (arith, total-insert n ms))
]

total-sort : (ns : List ℕ) → total (sort ns) ≡ total ns
unfolding sort
total-sort [] = refl
total-sort (n ∷ ns) = omega (arith, total-insert n (sort ns), total-sort ns)

-- `m` may stand before a list.
abbrev IsHead : ℕ → List ℕ → Type 0
IsHead m [] = Unit {0}
IsHead m (n ∷ ns) = m ≤ n

cons-IsSorted : (m : ℕ) (ns : List ℕ) → IsHead m ns → IsSorted ns → IsSorted (m ∷ ns)
cons-IsSorted m [] h s = tt
cons-IsSorted m (n ∷ ns) h s = (h, s)

tail-IsSorted : (m : ℕ) (ns : List ℕ) → IsSorted (m ∷ ns) → IsHead m ns × IsSorted ns
tail-IsSorted m [] s = (tt, tt)
tail-IsSorted m (n ∷ ns) s = s

insert-IsHead : (m n : ℕ) (ns : List ℕ) → m ≤ n → IsHead m ns → IsHead m (insert n ns)
unfolding insert
insert-IsHead m n [] le h = le
insert-IsHead m n (k ∷ ks) le h = elim (Bool-cases (leb n k)) [ inl e ↦ rw e le | inr e ↦ rw e h ]

insert-IsSorted : (n : ℕ) (ns : List ℕ) → IsSorted ns → IsSorted (insert n ns)
unfolding insert
insert-IsSorted n [] h = tt
insert-IsSorted n (m ∷ ms) h =
    let t = tail-IsSorted m ms h in
    elim (Bool-cases (leb n m)) [
      | inl e ↦ rw e (ground (arith, e), h)
      | inr e ↦ rw e (
          cons-IsSorted m (insert n ms) (insert-IsHead m n ms (ground (arith, e)) t.0)
            (insert-IsSorted n ms t.1))
    ]

sort-IsSorted : (ns : List ℕ) → IsSorted (sort ns)
unfolding sort
sort-IsSorted [] = tt
sort-IsSorted (n ∷ ns) = insert-IsSorted n (sort ns) (sort-IsSorted ns)

write_ints_lem :
    (ns : List ℕ) (sum : ℕ)
    → sum < 2 ^ 32
    → (write_ints ns sum).0 ≡ spaced ns × ((write_ints ns sum).1 ≡ (sum + total ns) % 2 ^ 32)
unfolding write_ints
write_ints_lem [] sum h = (refl, omega arith)
write_ints_lem (n ∷ ns) sum h =
    let rest = write_ints_lem ns ((sum + n) % 2 ^ 32) (omega arith) in
    (rw rest.0 refl, omega (arith, rest.1))

-- What a request is answered with, for the numbers that are in it.
abbrev pub Answers : Bytes → Option (List ℕ) → Option Bytes → Type 0
Answers request none response = response ≡ none
Answers request (some []) response = response ≡ some request
Answers request (some (n ∷ ns)) response =
    (sorted : List ℕ) × IsSorted sorted
    × ((x : ℕ) → count x sorted ≡ count x (n ∷ ns))
    × (response ≡ some (spaced sorted ++ 10 ∷ decimal 10 (total (n ∷ ns) % 2 ^ 32)))

answer_to-Answers :
    (request : Bytes) (o : Option (List ℕ))
    → Answers request o (o >>= λ ints. some (answer_to request ints))
answer_to-Answers request none = refl
answer_to-Answers request (some []) = refl
answer_to-Answers request (some (n ∷ ns)) =
    let w = write_ints_lem (sort (n ∷ ns)) 0 (omega arith) in
    let sum : (write_ints (sort (n ∷ ns)) 0).1 ≡ total (n ∷ ns) % 2 ^ 32 =
      w.1 ∙ rw (total-sort (n ∷ ns)) (ap (λ m. m % 2 ^ 32) zero_add) in
    (sort (n ∷ ns), sort-IsSorted (n ∷ ns), (λ x. count-sort x (n ∷ ns)), rw (w.0, sum) refl)
  where
    zero_add : 0 + total (n ∷ ns) ≡ total (n ∷ ns)
    zero_add = omega arith

-- `create_response` throws exactly where `parse_ints` does, and repeats a request that has no
-- number. Otherwise it answers with a list of numbers, sorted and with each number as often as
-- among the parsed ones, written in decimal and each before a space, then a line break and the
-- decimal text of the sum of the parsed numbers modulo 2 ^ 32.
pub create_response-Answers :
    (request : Bytes) → Answers request (parse_ints request) (create_response request)
unfolding create_response
create_response-Answers request = answer_to-Answers request (parse_ints request)
