-- ===== src/Descriptors/Interface/Parse.antt =====
-- The constructor of an interface as a whole, and the way back.
use usbproxy.Base.{
  ℕ, zero, suc, ◌+◌, ◌≤◌, ◌<◌, ◌≡◌, refl, sym, ap, ◌∙◌, ◌≢◌, false, Option, none, List, [], ◌∷◌,
  ◌++◌, append-nil, append_assoc, arith, ◌==◌, le→leb, length, drop, replicate, length-append, All,
  Bytes,
}
use usbproxy.Result.{ok, ◌>>=◌, read_bytes, overlay}
use usbproxy.Descriptors.Endpoint.{byte}
use usbproxy.Descriptors.Chunks.{IsDescriptor, read_bytes-descriptor, drop-descriptor}
use usbproxy.Descriptors.Interface.{Interface, add_generic, body, lead, from_buffer}
use usbproxy.Descriptors.Interface.Loops.{StartsInterface, IsGeneric, IsEndpoint, add_generic-ok}
use usbproxy.Descriptors.Interface.RoundTrip.{
  flat, endpoint_bytes, endpoint_slots, hid_bytes, to_hid, HidFits, body_endpoints, body_generics,
  body_hid,
}

-- What the first loop takes: any descriptor but an interface's.
pub record IsLeading (d : Bytes) : Type 0 where
  pub chunk : IsDescriptor d
  pub not_interface : byte d 1 ≢ 4

lead_other :
    (fuel : ℕ) (ds : List Bytes) (n t : ℕ) (rest : Bytes)
    → (t == 4) ≡ false
    → lead (suc fuel) ds (n ∷ t ∷ rest) ≡ (
        read_bytes n (n ∷ t ∷ rest) >>= λ d.
        add_generic ds d >>= λ ds'. lead fuel ds' (drop n (n ∷ t ∷ rest)))
unfolding lead
lead_other fuel ds n t rest h = rw (h, lead)

lead_round :
    (fuel : ℕ) (ds : List Bytes) (d rest : Bytes)
    → IsLeading d
    → length ds < 255
    → lead (suc fuel) ds (d ++ rest) ≡ lead fuel (ds ++ (d ∷ [])) rest
lead_round fuel ds [] rest v h = absurd (omega (arith, v.chunk.typed))
lead_round fuel ds (n ∷ []) rest v h = absurd (omega (arith, v.chunk.typed))
lead_round fuel ds (n ∷ t ∷ d) rest v h =
    lead_other fuel ds n t (d ++ rest) (ground (arith, v.not_interface))
    ∙ rw (read_bytes-descriptor (n ∷ t ∷ d) rest v.chunk, add_generic-ok ds (n ∷ t ∷ d) h)
        (ap (lead fuel (ds ++ ((n ∷ t ∷ d) ∷ [])))
          (drop-descriptor (n ∷ t ∷ d) rest n (sym v.chunk.len)))

lead-flat :
    (fuel : ℕ) (ds pre : List Bytes) (n : ℕ) (rest : Bytes)
    → length (flat pre ++ (n ∷ 4 ∷ rest)) < fuel
    → All IsLeading pre
    → length ds + length pre ≤ 255
    → lead fuel ds (flat pre ++ (n ∷ 4 ∷ rest)) ≡ ok (ds ++ pre, n ∷ 4 ∷ rest)
lead-flat zero ds pre n rest h v b = elim h [ ]
lead-flat (suc fuel) ds [] n rest h v b = unfold lead in rw append-nil
lead-flat (suc fuel) ds (d ∷ pre) n rest h v b =
    ap (lead (suc fuel) ds) (append_assoc d (flat pre) (n ∷ 4 ∷ rest))
    ∙ lead_round fuel ds d (flat pre ++ (n ∷ 4 ∷ rest)) v.0 (omega arith)
    ∙ lead-flat fuel (ds ++ (d ∷ [])) pre n rest
        (omega (
          arith,
          length-append d (flat pre ++ (n ∷ 4 ∷ rest)),
          ap length (append_assoc d (flat pre) (n ∷ 4 ∷ rest)),
          v.0.chunk.typed,
        ))
        v.1 (omega (arith, length-append ds (d ∷ [])))
    ∙ ap (λ (x : List Bytes). ok (x, n ∷ 4 ∷ rest)) (append_assoc ds (d ∷ []) pre)

-- The parts of an interface as a device sends them.
pub record Parts : Type 0 where
  pub header : Bytes
  pub hid : Option Bytes
  pub generics : List Bytes
  pub endpoints : List Bytes

-- Each part is well formed, and their numbers are those that the header and the counter allow.
pub record IsWhole (junk : Bytes) (p : Parts) : Type 0 where
  pub size : length p.header ≡ 9
  pub len : byte p.header 0 ≡ 9
  pub kind : byte p.header 1 ≡ 4
  pub endpoint_count : length p.endpoints ≡ byte p.header 4
  pub each_endpoint : All (IsEndpoint junk) p.endpoints
  pub hid_fits : HidFits p.hid
  pub each_generic : All IsGeneric p.generics

abbrev pub wire : Parts → Bytes
wire p = p.header ++ (hid_bytes p.hid ++ (flat p.generics ++ endpoint_bytes p.endpoints))

-- The interface object for the parts, with the descriptors that stood before them.
abbrev pub assemble : List Bytes → Parts → Interface
assemble pre p = record {
  descriptor = p.header;
  endpoints = endpoint_slots p.endpoints;
  hid_descriptor = to_hid p.hid;
  generic_descriptors = pre ++ p.generics;
}

pub start : Bytes → List Bytes → Interface
start raw pre = record {
  descriptor = raw;
  endpoints = replicate (byte raw 4) none;
  hid_descriptor = none;
  generic_descriptors = pre;
}

pub from_buffer_step :
    (junk p : Bytes) (pre : List Bytes) (q d rest : Bytes)
    → lead (suc (length p)) [] p ≡ ok (pre, q)
    → read_bytes (byte q 0) q ≡ ok d
    → overlay junk d ≡ ok d
    → drop (byte q 0) q ≡ rest
    → from_buffer junk p ≡ body (suc (length rest)) junk (start d pre) 0 rest
unfolding from_buffer start
from_buffer_step junk p pre q d rest l r o e = rw (l, r, o, e)

header_shape : (d : Bytes) → length d ≡ 9 → byte d 1 ≡ 4 → (n : ℕ) × (hs : Bytes) × (d ≡ n ∷ 4 ∷ hs)
header_shape [] h k = absurd (omega arith)
header_shape (n ∷ []) h k = absurd (omega arith)
header_shape (n ∷ t ∷ hs) h k = (n, hs, ap (λ (x : ℕ). n ∷ x ∷ hs) k)

pub overlay-all : (junk d : Bytes) → length junk ≡ length d → overlay junk d ≡ ok d
overlay-all junk d h =
    rw (le→leb (length d) (length junk) (omega arith), ← h)
      (ap ok (ap (◌++◌ d) (gone junk) ∙ append-nil d))
  where
    gone : (xs : Bytes) → drop (length xs) xs ≡ []
    gone [] = refl
    gone (x ∷ xs) = gone xs

module _ (junk : Bytes) (j : length junk ≡ 9) (pre : List Bytes) (p : Parts) (w : IsWhole junk p)
    (rest : Bytes) (s : StartsInterface rest) where
  pub body_parts :
      length pre + length p.generics ≤ 255
      → body
          (suc
            (length (hid_bytes p.hid ++ (flat p.generics ++ (endpoint_bytes p.endpoints ++ rest)))))
          junk
          (start p.header pre)
          0
          (hid_bytes p.hid ++ (flat p.generics ++ (endpoint_bytes p.endpoints ++ rest)))
        ≡ ok (assemble pre p, rest)
  unfolding start
  body_parts b =
      body_hid junk (flat p.generics ++ (endpoint_bytes p.endpoints ++ rest)) _ _
        (start p.header pre) p.hid refl (omega arith) w.hid_fits
        λ f hf.
          body_generics junk 0 (endpoint_bytes p.endpoints ++ rest) _ f _ p.generics hf
            w.each_generic b
            λ g hg.
              body_endpoints g junk _ 0 [] p.endpoints rest hg j w.each_endpoint refl
                (ap (λ (n : ℕ). replicate n none) (sym w.endpoint_count)) s

  pub lead_parts :
      length pre + length p.generics ≤ 255
      → All IsLeading pre
      → lead (suc (length (flat pre ++ (wire p ++ rest)))) [] (flat pre ++ (wire p ++ rest))
        ≡ ok (pre, wire p ++ rest)
  lead_parts b v =
      let (n, hs, e) = header_shape p.header w.size w.kind in
      rw e (lead-flat _ [] pre n _ (omega arith) v (omega arith))
