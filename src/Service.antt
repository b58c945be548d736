-- ===== src/Service.antt =====
-- app/service.cpp: what the demonstration server answers to a request. A text is its list of
-- characters; streams and `std::sort` are those of the C++ library.
pub mod Response
use strongly_typed_sockets.Base.{
  ℕ, ◌+◌, ◌-◌, ◌*◌, ◌%◌, ◌^◌, Bool, true, false, ◌&&◌, ◌||◌, Option, none, some, List, [], ◌∷◌,
  ◌++◌, ltb, leb, ◌==◌, if◌then◌else◌,
}
use strongly_typed_sockets.Os.{Bytes}
use strongly_typed_sockets.Address.{decimal}

abbrev pub is_digit : ℕ → Bool
is_digit c = leb 48 c && leb c 57

infixl 5 ◌>>=◌
abbrev ◌>>=◌ : {A B : Type 0} → Option A → (A → Option B) → Option B
none >>= k = none
some a >>= k = k a

-- The white space at which `operator>>` ends a word.
abbrev pub is_space : ℕ → Bool
is_space c = c == 32 || leb 9 c && leb c 13

abbrev pub all_digits : Bytes → Bool
all_digits [] = true
all_digits (c ∷ s) = is_digit c && all_digits s

abbrev pub is_number : Bytes → Bool
is_number [] = false
is_number (c ∷ s) = all_digits (c ∷ s)

-- The words of a stream, behind the characters of a word that has begun.
abbrev pub end_word : Bytes → List Bytes → List Bytes
end_word [] rest = rest
end_word (c ∷ word) rest = (c ∷ word) ∷ rest

unfoldable pub words : Bytes → Bytes → List Bytes
words word [] = end_word word []
words word (c ∷ s) =
    let ended = words [] s in
    let longer = words (word ++ c ∷ []) s in if is_space c then end_word word ended else longer

unfoldable pub numbers : List Bytes → List Bytes
numbers [] = []
numbers (word ∷ rest) = let kept = numbers rest in if is_number word then word ∷ kept else kept

abbrev pub value : Bytes → ℕ → ℕ
value [] n = n
value (c ∷ s) n = value s (10 * n + (c - 48))

-- `std::stoi` of digits: throws `std::out_of_range`, here `none`, where an `int` does not hold them.
unfoldable pub stoi : Bytes → Option ℕ
stoi word = if ltb (value word 0) (2 ^ 31) then some (value word 0) else none

unfoldable pub to_ints : List Bytes → Option (List ℕ)
unfolding stoi
to_ints [] = some []
to_ints (word ∷ rest) = do n ← stoi word; ns ← to_ints rest; some (n ∷ ns)

unfoldable pub parse_ints : Bytes → Option (List ℕ)
unfolding words numbers to_ints
parse_ints request = to_ints (numbers (words [] request))

unfoldable pub insert : ℕ → List ℕ → List ℕ
insert n [] = n ∷ []
insert n (m ∷ ms) = let later = insert n ms in if leb n m then n ∷ m ∷ ms else m ∷ later

unfoldable pub sort : List ℕ → List ℕ
unfolding insert
sort [] = []
sort (n ∷ ns) = insert n (sort ns)

-- The loop over the sorted numbers: the text that it writes, and the `unsigned` sum.
unfoldable pub write_ints : List ℕ → (sum : ℕ) → Bytes × ℕ
unfolding decimal
write_ints [] sum = ([], sum)
write_ints (n ∷ ns) sum =
    let (text, total) = write_ints ns ((sum + n) % 2 ^ 32) in (decimal 10 n ++ b' ' ∷ text, total)

abbrev pub answer_to : Bytes → List ℕ → Bytes
answer_to request [] = request
answer_to request (n ∷ ns) =
    let (text, sum) = write_ints (sort (n ∷ ns)) 0 in text ++ 10 ∷ decimal 10 sum

unfoldable pub create_response : Bytes → Option Bytes
unfolding parse_ints sort write_ints
create_response request = do ints ← parse_ints request; some (answer_to request ints)
