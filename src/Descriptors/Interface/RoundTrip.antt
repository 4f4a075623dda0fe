-- ===== src/Descriptors/Interface/RoundTrip.antt =====
-- An interface that is written out and read back.
use usbproxy.Base.{
  ℕ, zero, suc, ◌+◌, ◌≤◌, ◌<◌, ◌≡◌, refl, sym, ap, ◌∙◌, ◌≢◌, false, Option, none, some, List, [],
  ◌∷◌, ◌++◌, append-nil, append_assoc, arith, ◌==◌, lt→ltb, length, set, take, replicate,
  length-append, length-take, All, Bytes,
}
use usbproxy.Result.{Result, ok, put_index}
use usbproxy.Descriptors.Endpoint.{Hid, Endpoint, byte}
use usbproxy.Descriptors.Chunks.{IsDescriptor, byte-take}
use usbproxy.Descriptors.Interface.{Interface, add_part, body}
use usbproxy.Descriptors.Interface.Loops.{
  add_part-generic, add_part-hid, IsGeneric, IsHid, body_round, body_end, StartsInterface,
  IsEndpoint, endpoint-from_buffer,
}

abbrev pub flat : List Bytes → Bytes
flat [] = []
flat (d ∷ ds) = d ++ flat ds

abbrev pub endpoint_bytes : List Bytes → Bytes
endpoint_bytes [] = []
endpoint_bytes (d ∷ ds) = take 7 d ++ endpoint_bytes ds

abbrev pub endpoint_slots : List Bytes → List (Option Endpoint)
endpoint_slots [] = []
endpoint_slots (d ∷ ds) = some (record { descriptor = d }) ∷ endpoint_slots ds

put_index-fill :
    {A : Type 0} (done rest : List (Option A)) (a : A)
    → put_index (done ++ (none ∷ rest)) (length done) (some a) ≡ ok (done ++ (some a ∷ rest))
put_index-fill done rest a =
    rw
      (lt→ltb (length done) (length (done ++ (none ∷ rest)))
        (omega (arith, length-append done (none ∷ rest))))
      (ap ok (go done))
  where
    go :
        (xs : List (Option _))
        → set (xs ++ (none ∷ rest)) (length xs) (some a) ≡ xs ++ (some a ∷ rest)
    go [] = refl
    go (x ∷ xs) = ap (◌∷◌ x) (go xs)

endpoint-IsDescriptor : (junk d : Bytes) → IsEndpoint junk d → IsDescriptor (take 7 d)
endpoint-IsDescriptor junk d v = record {
  len = omega (arith, length-take 7 d, v.size, v.len, byte-take 7 d 0 (omega arith));
  typed = omega (arith, length-take 7 d, v.size);
}

add_part-endpoint :
    (junk : Bytes) (i : Interface) (done : List (Option Endpoint)) (n : ℕ) (d rest : Bytes)
    → length junk ≡ 9
    → IsEndpoint junk d
    → i.endpoints ≡ done ++ (none ∷ replicate n none)
    → add_part junk i (length done) (byte (take 7 d) 1) (take 7 d ++ rest)
      ≡ ok (
        record i { endpoints = done ++ (some (record { descriptor = d }) ∷ replicate n none) },
        length done + 1,
      )
unfolding add_part
add_part-endpoint junk i done n d rest j v e = rw (
  byte-take 7 d 1 (omega arith),
  v.kind,
  endpoint-from_buffer junk d rest j v,
  e,
  put_index-fill done (replicate n none) (record { descriptor = d }),
)

pub not_interface : (d : Bytes) (t : ℕ) → byte d 1 ≡ t → t ≢ 4 → (byte d 1 == 4) ≡ false
not_interface d t e h = ground arith

pub body_endpoints :
    (fuel : ℕ) (junk : Bytes) (i : Interface) (k : ℕ) (done : List (Option Endpoint))
    (ds : List Bytes) (rest : Bytes)
    → length (endpoint_bytes ds ++ rest) < fuel
    → length junk ≡ 9
    → All (IsEndpoint junk) ds
    → k ≡ length done
    → i.endpoints ≡ done ++ replicate (length ds) none
    → StartsInterface rest
    → body fuel junk i k (endpoint_bytes ds ++ rest)
      ≡ ok (record i { endpoints = done ++ endpoint_slots ds }, rest)
body_endpoints fuel junk i k done [] rest h j v l e s =
    body_end fuel junk i k rest (omega arith) s
    ∙ ap {B = Result (Interface × Bytes)} (λ x. ok (record i { endpoints = x }, rest)) e
body_endpoints zero junk i k done (d ∷ ds) rest h j v l e s = elim h [ ]
body_endpoints (suc fuel) junk i k done (d ∷ ds) rest h j v l e s =
    ap (body (suc fuel) junk i k) (append_assoc (take 7 d) (endpoint_bytes ds) rest)
    ∙ body_round fuel junk i k (take 7 d) (endpoint_bytes ds ++ rest)
        (endpoint-IsDescriptor junk d v.0)
        (not_interface (take 7 d) 5 (byte-take 7 d 1 (omega arith) ∙ v.0.kind) (omega arith))
    ∙ rw (l, add_part-endpoint junk i done (length ds) d (endpoint_bytes ds ++ rest) j v.0 e)
        (body_endpoints fuel junk _ _ (done ++ (some (record { descriptor = d }) ∷ [])) ds rest
            (omega (
              arith,
              length-append (take 7 d) (endpoint_bytes ds ++ rest),
              ap length (append_assoc (take 7 d) (endpoint_bytes ds) rest),
              length-take 7 d,
              v.0.size,
            ))
            j v.1 (omega (arith, length-append done (some (record { descriptor = d }) ∷ [])))
            (sym (
              append_assoc done (some (record { descriptor = d }) ∷ [])
                (replicate (length ds) none)))
            s
          ∙ ap {B = Result (Interface × Bytes)} (λ x. ok (record i { endpoints = x }, rest))
              (append_assoc done (some (record { descriptor = d }) ∷ []) (endpoint_slots ds)))

module _ (junk : Bytes) (ep : ℕ) (tail : Bytes) (r : Result (Interface × Bytes)) where
  pub body_generics :
      (fuel : ℕ) (i : Interface) (ds : List Bytes)
      → length (flat ds ++ tail) < fuel
      → All IsGeneric ds
      → length i.generic_descriptors + length ds ≤ 255
      → ((f : ℕ)
          → length tail < f
          → body f junk (record i { generic_descriptors = i.generic_descriptors ++ ds }) ep tail
            ≡ r)
      → body fuel junk i ep (flat ds ++ tail) ≡ r
  body_generics fuel i [] h v n k =
      ap (λ (x : List Bytes). body fuel junk (record i { generic_descriptors = x }) ep tail)
        (sym (append-nil i.generic_descriptors))
      ∙ k fuel h
  body_generics zero i (d ∷ ds) h v n k = elim h [ ]
  body_generics (suc fuel) i (d ∷ ds) h v n k =
      ap (body (suc fuel) junk i ep) (append_assoc d (flat ds) tail)
      ∙ body_round fuel junk i ep d (flat ds ++ tail) v.0.chunk
          (not_interface d (byte d 1) refl v.0.not_interface)
      ∙ rw (add_part-generic junk i ep d (flat ds ++ tail) v.0 (omega arith)) (
          body_generics fuel (record i { generic_descriptors = i.generic_descriptors ++ (d ∷ []) })
            ds
            (omega (
              arith,
              length-append d (flat ds ++ tail),
              ap length (append_assoc d (flat ds) tail),
              v.0.chunk.typed,
            ))
            v.1 (omega (arith, length-append i.generic_descriptors (d ∷ [])))
            (λ f hf. rw (append_assoc i.generic_descriptors (d ∷ []) ds) (k f hf)))

abbrev pub hid_bytes : Option Bytes → Bytes
hid_bytes none = []
hid_bytes (some d) = d

abbrev pub to_hid : Option Bytes → Option Hid
to_hid none = none
to_hid (some d) = some (record { descriptor = d })

abbrev pub HidFits : Option Bytes → Type 0
HidFits none = Unit {0}
HidFits (some d) = IsHid d

pub body_hid :
    (junk : Bytes) (tail : Bytes) (r : Result (Interface × Bytes)) (fuel : ℕ) (i : Interface)
    (h : Option Bytes)
    → i.hid_descriptor ≡ none
    → length (hid_bytes h ++ tail) < fuel
    → HidFits h
    → ((f : ℕ) → length tail < f → body f junk (record i { hid_descriptor = to_hid h }) 0 tail ≡ r)
    → body fuel junk i 0 (hid_bytes h ++ tail) ≡ r
body_hid junk tail r fuel i none e n v k =
    ap (λ x. body fuel junk (record i { hid_descriptor = x }) 0 tail) e ∙ k fuel n
body_hid junk tail r zero i (some d) e n v k = elim n [ ]
body_hid junk tail r (suc fuel) i (some d) e n v k =
    body_round fuel junk i 0 d tail v.chunk (not_interface d 0x21 v.kind (omega arith))
    ∙ rw (add_part-hid junk i 0 d tail v)
        (k fuel (omega (arith, length-append d tail, v.chunk.typed)))
