-- ===== src/Util/Framing/Tests.antt =====
-- Objects that are their own pickled bytes.
use awex.Prelude.{ℕ, ◌≡◌, refl, Option, some, List, [], ◌∷◌}
use awex.Prelude.Outcome.{ok, err}
use awex.Util.Framing.{struct_error, pack, unpack, to_binary, from_binary}
use awex.Util.Framing.RoundTrip.{from_binary-to_binary}

abbrev identity : List ℕ → Option (List ℕ)
identity bytes = some bytes

framed : to_binary identity (7 ∷ 8 ∷ []) ≡ ok (0 ∷ 0 ∷ 0 ∷ 2 ∷ 7 ∷ 8 ∷ [])
unfolding to_binary pack
framed = refl

truncated : from_binary identity (0 ∷ 0 ∷ []) ≡ err struct_error
unfolding from_binary unpack
truncated = refl

from_binary-to_binary_example :
    from_binary identity (0 ∷ 0 ∷ 0 ∷ 2 ∷ 7 ∷ 8 ∷ 9 ∷ []) ≡ ok (7 ∷ 8 ∷ [])
from_binary-to_binary_example =
    from_binary-to_binary identity identity (7 ∷ 8 ∷ []) (7 ∷ 8 ∷ []) (0 ∷ 0 ∷ 0 ∷ 2 ∷ 7 ∷ 8 ∷ [])
      (9 ∷ []) refl refl framed
