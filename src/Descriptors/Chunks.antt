-- ===== src/Descriptors/Chunks.antt =====
-- A descriptor as a chunk of bytes, and what the copies of the constructors make of it.
use usbproxy.Base.{
  ℕ, zero, suc, ◌≤◌, ◌<◌, ◌≡◌, refl, ap, ◌∙◌, List, [], ◌∷◌, ◌++◌, arith, le→leb, length, take,
  drop, length-append, drop-append_length, take-append_left, take_all, Bytes,
}
use usbproxy.Result.{ok, read_bytes}
use usbproxy.Descriptors.Endpoint.{byte}

-- The first byte is the length, and there is a type byte.
pub record IsDescriptor (d : Bytes) : Type 0 where
  pub len : length d ≡ byte d 0
  pub typed : 2 ≤ length d

pub byte-append : (d rest : Bytes) (k : ℕ) → k < length d → byte (d ++ rest) k ≡ byte d k
byte-append [] rest k h = elim h [ ]
byte-append (x ∷ d) rest zero h = refl
byte-append (x ∷ d) rest (suc k) h = byte-append d rest k (omega arith)

pub byte-take : (n : ℕ) (d : Bytes) (k : ℕ) → k < n → byte (take n d) k ≡ byte d k
byte-take zero d k h = elim h [ ]
byte-take (suc n) [] k h = refl
byte-take (suc n) (x ∷ d) zero h = refl
byte-take (suc n) (x ∷ d) (suc k) h = byte-take n d k (omega arith)

pub read_bytes-append :
    (n : ℕ) (d rest : Bytes) → n ≤ length d → read_bytes n (d ++ rest) ≡ ok (take n d)
read_bytes-append n d rest h = rw (
  le→leb n (length (d ++ rest)) (omega (arith, length-append d rest)),
  take-append_left n d rest h,
)

-- The copy of a whole descriptor, also from a buffer that goes on.
pub read_bytes-descriptor :
    (d rest : Bytes) → IsDescriptor d → read_bytes (byte (d ++ rest) 0) (d ++ rest) ≡ ok d
read_bytes-descriptor d rest v =
    rw (byte-append d rest 0 (omega arith), ← v.len)
      (read_bytes-append (length d) d rest (omega arith)
        ∙ ap ok (take_all (length d) d (omega arith)))

pub drop-descriptor : (d rest : Bytes) (n : ℕ) → n ≡ length d → drop n (d ++ rest) ≡ rest
drop-descriptor d rest n e = rw e (drop-append_length d rest)

pub take-append-drop {ℓ} : {A : Type ℓ} (n : ℕ) (xs : List A) → take n xs ++ drop n xs ≡ xs
take-append-drop zero xs = refl
take-append-drop (suc n) [] = refl
take-append-drop (suc n) (x ∷ xs) = ap (◌∷◌ x) (take-append-drop n xs)
