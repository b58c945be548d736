-- ===== src/Examples/Services.antt =====
-- Tests of app/service.cpp: the answer to the request "31 4x 2".
use strongly_typed_sockets.Base.{◌≡◌, refl, some, [], ◌∷◌}
use strongly_typed_sockets.Os.{Bytes}
use strongly_typed_sockets.Address.{decimal}
use strongly_typed_sockets.Service.{
  parse_ints, create_response, words, numbers, to_ints, stoi, sort, insert, write_ints,
}
use strongly_typed_sockets.Service.Response.{Answers, create_response-Answers}

abbrev request : Bytes
request = b'3' ∷ b'1' ∷ b' ' ∷ b'4' ∷ b'x' ∷ b' ' ∷ b'2' ∷ []

parsed : parse_ints request ≡ some (31 ∷ 2 ∷ [])
unfolding parse_ints words numbers to_ints stoi
parsed = refl

answered : create_response request ≡ some (b'2' ∷ b' ' ∷ b'3' ∷ b'1' ∷ b' ' ∷ 10 ∷ b'3' ∷ b'3' ∷ [])
unfolding create_response parse_ints words numbers to_ints stoi sort insert write_ints decimal
answered = refl

create_response-Answers_example : Answers request (parse_ints request) (create_response request)
create_response-Answers_example = create_response-Answers request
