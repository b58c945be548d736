-- ===== src/Os/Ledger.antt =====
-- The file descriptors of a trace: how often the system handed out a descriptor (`socket`,
-- `accept4`, `epoll_create`), and how often the program settled it: closed it, or handed the socket
-- over to a callback that took it. `Owes x k w` says that all but `k` of the openings of `x` have
-- been settled: the program still owes `k` calls of `close`.
use strongly_typed_sockets.Base.{
  ℕ, ◌+◌, ◌≤◌, ◌≡◌, ℤ, minus_one, ◌==ℤ◌, Bool, false, Option, none, some, [], ◌∷◌, if◌then◌else◌,
  length, arith,
}
use strongly_typed_sockets.Os.{
  Call, Reply, Trace, Platform, World, Cmd, pure, ◌>>=◌, perform, answer, succeeds,
}
use strongly_typed_sockets.Os.Returns.{Returns, returns, Returns-bind}

abbrev pub is_opening : ℤ → Call → Reply → Bool
is_opening x (Call.socket _ _ _) r = r.ret ==ℤ x
is_opening x (Call.accept4 _ _ _) r = r.ret ==ℤ x
is_opening x (Call.epoll_create _) r = r.ret ==ℤ x
is_opening x _ r = false

abbrev pub is_settling : ℤ → Call → Reply → Bool
is_settling x (Call.close fd) r = fd ==ℤ x
is_settling x (Call.hand_over _ fd) r = if r.took then fd ==ℤ x else false
is_settling x _ r = false

abbrev pub one_if : Bool → ℕ
one_if b = if b then 1 else 0

abbrev pub opens : ℤ → Trace → ℕ
opens x [] = 0
opens x ((c, r) ∷ t) = one_if (is_opening x c r) + opens x t

abbrev pub settles : ℤ → Trace → ℕ
settles x [] = 0
settles x ((c, r) ∷ t) = one_if (is_settling x c r) + settles x t

-- A descriptor: any value but the -1 of a failed call.
abbrev pub IsDescriptor : ℤ → Type 0
IsDescriptor x = (x ==ℤ minus_one) ≡ false

abbrev pub Owes : ℤ → ℕ → World → Type 0
Owes x k w = opens x w.trace ≡ settles x w.trace + k

-- How often `m_fd` holds `x`.
abbrev pub held : ℤ → Option ℤ → ℕ
held x none = 0
held x (some fd) = one_if (fd ==ℤ x)

-- What the code relies on in memory that it does not own and in the structures that the system
-- fills: the sizes of arrays, and readable stack behind an address structure.
pub record Machine (env : Trace → Call → Reply) (platform : Platform) : Type 0 where
  pub fresh : length platform.fresh_bytes ≡ 16
  pub readable : 4 ≤ length platform.beyond
  pub address : (t : Trace) (c : Call) → length (env t c).addr4.s_addr ≡ 4
  pub padding : (t : Trace) (c : Call) → length (env t c).addr4.sin_zero ≡ 8

abbrev pub IsMachine : World → Type 0
IsMachine w = Machine w.env w.platform

abbrev pub Books : ℤ → ℕ → World → Type 0
Books x k w = Owes x k w × IsMachine w

-- A call that neither opens nor settles `x`, whatever the system answers.
abbrev pub Neutral : ℤ → Call → Type 0
Neutral x c = (r : Reply) → (is_opening x c r ≡ false) × (is_settling x c r ≡ false)

-- A statement that changes nothing in the books.
abbrev pub Quiet : ℤ → {A : Type 0} → Cmd A → Type 0
Quiet x m = (k : ℕ) (w : World) → Books x k w → Returns (λ _ w'. Books x k w') (m w)

module _ (x : ℤ) where
  pub perform-Quiet : (c : Call) → Neutral x c → Quiet x (perform c)
  unfolding perform
  perform-Quiet c n k w b = returns (ground (arith, n (answer w c)), b.1)

  pub pure-Quiet : {A : Type 0} (a : A) → Quiet x (pure a)
  pure-Quiet a k w b = returns b

  pub bind-Quiet :
      {A B : Type 0} (m : Cmd A) (f : A → Cmd B)
      → Quiet x m
      → ((a : A) → Quiet x (f a))
      → Quiet x (m >>= f)
  bind-Quiet m f hm hf k w b = Returns-bind (hm k w b) λ a w' b'. hf a k w' b'

  pub succeeds-Quiet : (c : Call) → Neutral x c → Quiet x (succeeds c)
  succeeds-Quiet c n =
      bind-Quiet (perform c) _ (perform-Quiet c n) (λ r. pure-Quiet (r.ret ==ℤ ℤ.pos 0))
