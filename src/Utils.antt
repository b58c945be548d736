-- ===== src/Utils.antt =====
-- include/utils/mbind.h and include/utils/enum_op.h. The function that `mbind` binds takes its value
-- by rvalue reference: it may move from it, and what it leaves is destroyed with the parameter `opt`
-- when `mbind` returns. So it gives back the value that it leaves, beside its result.
use strongly_typed_sockets.Base.{ℕ, Option, none, some, bit_and, bit_or}
use strongly_typed_sockets.Os.{Cmd, pure, ◌>>=◌, ◌>>◌}

module _ {A : Type 0} where
  -- `operator|` of an optional and a function that makes one.
  unfoldable pub or_invoke : Option A → (Unit {0} → Option A) → Option A
  or_invoke (some a) f = some a
  or_invoke none f = f tt

module _ {T B : Type 0} where
  -- `mbind(opt, f)` where nothing has a destructor with an effect.
  unfoldable pub mbind : Option T → (T → Option B) → Option B
  mbind (some t) f = f t
  mbind none f = none

  -- `mbind(opt, f)` over statements; `destroy` is the destructor of `T`.
  unfoldable pub mbind_cmd :
      (T → Cmd (Unit {0})) → Option T → (T → Cmd (T × Option B)) → Cmd (Option B)
  mbind_cmd destroy (some t) f = do (left, result) ← f t; destroy left; pure result
  mbind_cmd destroy none f = pure none

-- The operators of an enumeration whose values are bit sets.
unfoldable pub enum_or : ℕ → ℕ → ℕ
enum_or = bit_or

unfoldable pub enum_and : ℕ → ℕ → ℕ
enum_and = bit_and
