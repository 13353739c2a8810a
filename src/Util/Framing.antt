-- ===== src/Util/Framing.antt =====
-- awex/util/common.py: `to_binary` and `from_binary`: a pickled object behind its length in four
-- bytes. A byte is a number, and `dumps` and `loads` are those of pickle.
pub mod RoundTrip
mod Tests
use awex.Prelude.{
  ℕ, zero, suc, ◌+◌, ◌*◌, ◌/◌, ◌%◌, Option, List, [], ◌∷◌, ◌++◌, length, take, drop, ltb,
  if◌then◌else◌,
}
use awex.Prelude.Outcome.{Outcome, ok, err, ◌>>=◌, or_raise}

pub data FrameError : Type 0 where
  pickle_error : FrameError
  struct_error : FrameError

-- `struct.pack("!I", n)`: four bytes, the highest first.
unfoldable pub pack : ℕ → Outcome FrameError (List ℕ)
pack n =
    if ltb n 4294967296
    then ok (n / 16777216 ∷ n / 65536 % 256 ∷ n / 256 % 256 ∷ n % 256 ∷ [])
    else err struct_error

-- `struct.unpack("!I", bytes)[0]`
unfoldable pub unpack : List ℕ → Outcome FrameError ℕ
unpack (a ∷ b ∷ c ∷ d ∷ []) = ok (a * 16777216 + b * 65536 + c * 256 + d)
unpack _ = err struct_error

module _ {Obj : Type 0} where
  unfoldable pub to_binary : (Obj → Option (List ℕ)) → Obj → Outcome FrameError (List ℕ)
  to_binary dumps obj = do
    pickled_data ← or_raise (dumps obj) pickle_error
    data_len ← pack (length pickled_data)
    ok (data_len ++ pickled_data)

  unfoldable pub from_binary : (List ℕ → Option Obj) → List ℕ → Outcome FrameError Obj
  from_binary loads binary = do
    data_len ← unpack (take 4 binary)
    or_raise (loads (take data_len (drop 4 binary))) pickle_error
