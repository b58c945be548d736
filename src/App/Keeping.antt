-- ===== src/App/Keeping.antt =====
-- app/server_main.cpp: what the visits of active sockets leave as it was.
use strongly_typed_sockets.Base.{
  ◌≡◌, refl, true, Option, some, length, inl, inr, Bool-cases, ap, sym, ◌∙◌, arith,
}
use strongly_typed_sockets.Os.{World}
use strongly_typed_sockets.Accepted.{AcceptedSock}
use strongly_typed_sockets.App.Sockets.{Place, same_place, put}
use strongly_typed_sockets.App.Server.{Main}

-- What a visit leaves as it was, but for the elements.
pub record Keeps (m : Main AcceptedSock) (w : World) (m' : Main AcceptedSock) (w' : World)
    : Type 0 where
  pub block : m'.active_sockets.block ≡ m.active_sockets.block
  pub objects : (q : Place) → m'.active_sockets.objects q ≡ m.active_sockets.objects q
  pub buffer : length m'.tmp_buff ≡ length m.tmp_buff
  pub protocol : m'.is_tcp ≡ m.is_tcp
  pub env : w'.env ≡ w.env

pub Keeps-after :
    (m m1 m2 : Main AcceptedSock) (w w1 w2 : World)
    → Keeps m w m1 w1
    → Keeps m1 w1 m2 w2
    → Keeps m w m2 w2
Keeps-after m m1 m2 w w1 w2 f g = record {
  block = g.block ∙ f.block;
  objects = λ q. g.objects q ∙ f.objects q;
  buffer = g.buffer ∙ f.buffer;
  protocol = g.protocol ∙ f.protocol;
  env = g.env ∙ f.env;
}

same_place_lem : (p q : Place) → same_place p q ≡ true → p ≡ q
same_place_lem p q same =
    let block : p.block ≡ q.block = ground (arith, same) in
    let slot : p.slot ≡ q.slot = ground (arith, same) in
    ap (λ b. record { block = b; slot = p.slot }) block
    ∙ ap (λ n. record { block = q.block; slot = n }) slot

pub put-same :
    (p : Place) (a : AcceptedSock) (objects : Place → Option AcceptedSock)
    → objects p ≡ some a
    → (q : Place) → put p (some a) objects q ≡ objects q
put-same p a objects lives q = elim (Bool-cases (same_place p q)) [
  | inl here ↦
      let at : p ≡ q = same_place_lem p q here in rw here (sym (ap objects (sym at) ∙ lives))
  | inr elsewhere ↦ rw elsewhere refl
]
