-- ===== src/App/Datagrams/Texts.antt =====
-- app/server_main.cpp: the elements of a vector in which one text changes.
use strongly_typed_sockets.Base.{
  ℕ, zero, suc, ◌≡◌, refl, ap, Option, some, List, [], ◌∷◌, length, take, arith,
}
use strongly_typed_sockets.Os.{Bytes}
use strongly_typed_sockets.App.Sockets.{Place, Element, ActiveSockets}
use strongly_typed_sockets.App.Sockets.Settled.{AllStand, IsSettled}
use strongly_typed_sockets.App.Server.{element_at, set_text}

set_text-AllStand :
    {S : Type 0} (block : ℕ) (objects : Place → Option S) (slot n : ℕ) (text : Bytes)
    (es : List Element)
    → AllStand block objects slot es
    → AllStand block objects slot (set_text n text es)
set_text-AllStand block objects slot n text [] h = tt
set_text-AllStand block objects slot zero text (e ∷ es) h = h
set_text-AllStand block objects slot (suc n) text (e ∷ es) h =
    (h.0, set_text-AllStand block objects (suc slot) n text es h.1)

pub length-set_text :
    (n : ℕ) (text : Bytes) (es : List Element) → length (set_text n text es) ≡ length es
length-set_text n text [] = refl
length-set_text zero text (e ∷ es) = refl
length-set_text (suc n) text (e ∷ es) = ap suc (length-set_text n text es)

pub set_text-IsSettled :
    {S : Type 0} (n : ℕ) (text : Bytes) (v : ActiveSockets S)
    → IsSettled v
    → IsSettled (record v { elements = set_text n text v.elements })
set_text-IsSettled n text v h = record {
  stand = set_text-AllStand v.block v.objects 0 n text v.elements h.stand;
  room = rw (length-set_text n text v.elements) h.room;
}

pub take-set_text :
    (n : ℕ) (text : Bytes) (es : List Element) → take n (set_text n text es) ≡ take n es
take-set_text zero text es = refl
take-set_text (suc n) text [] = refl
take-set_text (suc n) text (e ∷ es) = ap (λ l. e ∷ l) (take-set_text n text es)

pub element_at-set_text :
    (n : ℕ) (text : Bytes) (es : List Element) (e : Element)
    → element_at n es ≡ some e
    → element_at n (set_text n text es) ≡ some (record e { text = text })
element_at-set_text n text [] e at = absurd (ground (arith, at))
element_at-set_text zero text (f ∷ es) e at = let same : f ≡ e = cc in rw same refl
element_at-set_text (suc n) text (f ∷ es) e at = element_at-set_text n text es e at
