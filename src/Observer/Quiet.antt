-- ===== src/Observer/Quiet.antt =====
-- include/endpoint/poll_traits.h: what an endpoint relies on of its poll, as to descriptors, and the
-- proof that src/epoll/epoll.cpp has it.
use strongly_typed_sockets.Base.{ℤ, ℕ, refl, Option, none, some, List, arith}
use strongly_typed_sockets.Os.Ledger.{Quiet, succeeds-Quiet}
use strongly_typed_sockets.Epoll
use strongly_typed_sockets.Epoll.{Epoll, SockOp}
use strongly_typed_sockets.Os.{Callback, perform, World}
use strongly_typed_sockets.Os.Returns.{Returns, returns}
use strongly_typed_sockets.Os.Ledger.{Books}
use strongly_typed_sockets.Observer.{invoke, PollTraits, epoll_traits, ptr_traits}

-- Registering sockets opens and closes none.
pub record QuietPoll (x : ℤ) {Poll : Type 0} (traits : PollTraits Poll) : Type 0 where
  pub add : (poll : Poll) (fd : ℤ) (op : SockOp) → Quiet x (traits.add_socket poll fd op)
  pub del : (poll : Poll) (fd : ℤ) → Quiet x (traits.del_socket poll fd)

pub epoll_traits-QuietPoll : (x : ℤ) → QuietPoll x epoll_traits
unfolding Epoll.add_socket Epoll.del_socket
epoll_traits-QuietPoll x = record {
  add = λ e fd op. succeeds-Quiet x _ (λ r. (refl, refl));
  del = λ e fd. succeeds-Quiet x _ (λ r. (refl, refl));
}

-- A pointer to a quiet poll is quiet.
pub ptr_traits-QuietPoll :
    (x : ℤ) {Poll : Type 0} {traits : PollTraits Poll}
    → QuietPoll x traits
    → QuietPoll x (ptr_traits traits)
ptr_traits-QuietPoll x q = record {
  add = λ p fd op. q.add p.pointee fd op;
  del = λ p fd. q.del p.pointee fd;
}

-- A call of the user's, whatever it does.
pub invoke-Books :
    (x : ℤ) (o : Option Callback) (args : List ℤ) (k : ℕ) (w : World)
    → Books x k w
    → Returns (λ _ w'. Books x k w') (invoke o args w)
unfolding invoke perform
invoke-Books x none args k w b = returns b
invoke-Books x (some f) args k w b = returns (ground arith, b.1)
