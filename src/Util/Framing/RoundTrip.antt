-- ===== src/Util/Framing/RoundTrip.antt =====
-- What is framed can be read back.
use awex.Prelude.{
  ℕ, ◌+◌, ◌*◌, ◌/◌, ◌%◌, ◌≡◌, refl, ap, Option, some, List, [], ◌∷◌, ◌++◌, length, take, ltb, arith,
  Bool-cases, inl, inr,
}
use awex.Prelude.Outcome.{ok, bind-eq-ok, ok-injective}
use awex.Util.Framing.{pack, unpack, to_binary, from_binary}

take-append : (xs ys : List ℕ) → take (length xs) (xs ++ ys) ≡ xs
take-append [] [] = refl
take-append [] (y ∷ ys) = refl
take-append (x ∷ xs) ys = ap (λ zs. x ∷ zs) (take-append xs ys)

-- The frame is the four bytes that hold the length.
pack-eq-ok :
    (n : ℕ) (frame : List ℕ)
    → pack n ≡ ok frame
    → (a : ℕ) × (b : ℕ) × (c : ℕ) × (d : ℕ) × (frame ≡ a ∷ b ∷ c ∷ d ∷ [])
      × (a * 16777216 + b * 65536 + c * 256 + d ≡ n)
unfolding pack
pack-eq-ok n frame h = elim (Bool-cases (ltb n 4294967296)) [
  | inl small ↦ (
    n / 16777216,
    n / 65536 % 256,
    n / 256 % 256,
    n % 256,
    ok-injective (rw small at h),
    omega arith,
  )
  | inr large ↦ let no = rw large at h in cc
]

-- What `to_binary` makes of an object that can be unpickled again is read back as that object,
-- whatever bytes follow it.
pub from_binary-to_binary :
    {Obj : Type 0} (dumps : Obj → Option (List ℕ)) (loads : List ℕ → Option Obj) (obj : Obj)
    → (pickled binary rest : List ℕ) → dumps obj ≡ some pickled
    → loads pickled ≡ some obj
    → to_binary dumps obj ≡ ok binary
    → from_binary loads (binary ++ rest) ≡ ok obj
unfolding to_binary from_binary unpack
from_binary-to_binary dumps loads obj pickled binary rest dumped loaded h =
    let (frame, e, last) = bind-eq-ok (pack (length pickled)) _ (rw dumped at h) in
    let (a, b, c, d, is_frame, n) = pack-eq-ok (length pickled) frame e in
    rw (ok-injective last, is_frame, n, take-append pickled rest, loaded) refl
