-- ===== src/Descriptors/Interface/Whole.antt =====
-- Reading an interface, writing it out, and reading it back.
use usbproxy.Base.{
  ◌+◌, ◌≤◌, ◌≡◌, refl, sym, ap, ◌∙◌, Option, none, some, List, [], ◌∷◌, ◌++◌, append-nil,
  append_assoc, arith, le→leb, length, take, drop, length-append, length-take, All, Bytes,
}
use usbproxy.Result.{ok, read_bytes}
use usbproxy.Descriptors.Endpoint
use usbproxy.Descriptors.Endpoint.{
  Endpoint, Hid, byte, hid_from_buffer, hid_full_descriptor, hid_length,
}
use usbproxy.Descriptors.Chunks.{IsDescriptor, byte-append, read_bytes-descriptor, drop-descriptor}
use usbproxy.Descriptors.Interface.{
  from_buffer, get_full_descriptor, full_endpoints, full_generics, full_hid,
  get_full_descriptor_length, full_length_endpoints, full_length_generics, full_length_hid,
}
use usbproxy.Descriptors.Interface.Loops.{StartsInterface, IsGeneric, IsEndpoint}
use usbproxy.Descriptors.Interface.RoundTrip.{
  flat, endpoint_bytes, endpoint_slots, hid_bytes, to_hid, HidFits,
}
use usbproxy.Descriptors.Interface.Parse.{
  Parts, IsWhole, IsLeading, wire, assemble, from_buffer_step, overlay-all, body_parts, lead_parts,
}

-- The constructor reads a whole interface, also behind descriptors of other kinds, and stops at the
-- next interface descriptor or at the end: it keeps every part, with the descriptors that stood
-- before the interface's own in front of its generic ones.
pub from_buffer-wire :
    (junk : Bytes) (pre : List Bytes) (p : Parts) (rest : Bytes)
    → length junk ≡ 9
    → All IsLeading pre
    → IsWhole junk p
    → length pre + length p.generics ≤ 255
    → StartsInterface rest
    → from_buffer junk (flat pre ++ (wire p ++ rest)) ≡ ok (assemble pre p, rest)
from_buffer-wire junk pre p rest j v w b s =
    from_buffer_step junk _ pre (wire p ++ rest) p.header tail
      (lead_parts junk j pre p w rest s b v) copied
      (overlay-all junk p.header (omega (arith, w.size))) moved
    ∙ body_parts junk j pre p w rest s b
  where
    tail : Bytes
    tail = hid_bytes p.hid ++ (flat p.generics ++ (endpoint_bytes p.endpoints ++ rest))

    split : wire p ++ rest ≡ p.header ++ tail
    split = simp append_assoc

    chunk : IsDescriptor p.header
    chunk = record { len = omega (arith, w.size, w.len); typed = omega (arith, w.size) }

    copied : read_bytes (byte (wire p ++ rest) 0) (wire p ++ rest) ≡ ok p.header
    copied = rw split (read_bytes-descriptor p.header tail chunk)

    moved : drop (byte (wire p ++ rest) 0) (wire p ++ rest) ≡ tail
    moved = rw split (
        drop-descriptor p.header tail _
          (byte-append p.header tail 0 (omega (arith, w.size)) ∙ sym chunk.len))

read_bytes-whole : (d : Bytes) → IsDescriptor d → read_bytes (byte d 0) d ≡ ok d
read_bytes-whole d v =
    ap (λ (x : Bytes). read_bytes (byte x 0) x) (sym (append-nil d)) ∙ read_bytes-descriptor d [] v

full_generics-flat : (ds : List Bytes) → All IsGeneric ds → full_generics ds ≡ ok (flat ds)
unfolding full_generics
full_generics-flat [] v = refl
full_generics-flat (d ∷ ds) v = rw (read_bytes-whole d v.0.chunk, full_generics-flat ds v.1)

full_endpoints-bytes :
    (junk : Bytes) (ds : List Bytes)
    → All (IsEndpoint junk) ds
    → full_endpoints (endpoint_slots ds) ≡ ok (endpoint_bytes ds)
unfolding full_endpoints Endpoint.get_full_descriptor
full_endpoints-bytes junk [] v = refl
full_endpoints-bytes junk (d ∷ ds) v =
    rw (v.0.len, le→leb 7 (length d) (omega (arith, v.0.size)), full_endpoints-bytes junk ds v.1)

full_hid-bytes : (h : Option Bytes) → HidFits h → full_hid (to_hid h) ≡ ok (hid_bytes h)
unfolding full_hid hid_full_descriptor
full_hid-bytes none v = refl
full_hid-bytes (some d) v = read_bytes-whole d v.chunk

full-wire :
    (junk : Bytes) (p : Parts) → IsWhole junk p → get_full_descriptor (assemble [] p) ≡ ok (wire p)
unfolding get_full_descriptor
full-wire junk p w = rw (
  read_bytes-whole p.header
      (record { len = omega (arith, w.size, w.len); typed = omega (arith, w.size) }),
  full_hid-bytes p.hid w.hid_fits,
  full_generics-flat p.generics w.each_generic,
  full_endpoints-bytes junk p.endpoints w.each_endpoint,
)

length_generics : (ds : List Bytes) → All IsGeneric ds → full_length_generics ds ≡ length (flat ds)
unfolding full_length_generics
length_generics [] v = refl
length_generics (d ∷ ds) v =
    omega (arith, length_generics ds v.1, length-append d (flat ds), v.0.chunk.len)

length_endpoints :
    (junk : Bytes) (ds : List Bytes)
    → All (IsEndpoint junk) ds
    → full_length_endpoints (endpoint_slots ds) ≡ length (endpoint_bytes ds)
unfolding full_length_endpoints Endpoint.get_full_descriptor_length
length_endpoints junk [] v = refl
length_endpoints junk (d ∷ ds) v = omega (
  arith,
  length_endpoints junk ds v.1,
  length-append (take 7 d) (endpoint_bytes ds),
  length-take 7 d,
  v.0.size,
  v.0.len,
)

length_hid : (h : Option Bytes) → HidFits h → full_length_hid (to_hid h) ≡ length (hid_bytes h)
unfolding full_length_hid hid_length
length_hid none v = refl
length_hid (some d) v = sym v.chunk.len

pub full_length-wire :
    (junk : Bytes) (p : Parts)
    → IsWhole junk p
    → get_full_descriptor_length (assemble [] p) ≡ length (wire p)
unfolding get_full_descriptor_length
full_length-wire junk p w = omega (
  arith,
  length_generics p.generics w.each_generic,
  length_endpoints junk p.endpoints w.each_endpoint,
  length_hid p.hid w.hid_fits,
  length-append p.header (hid_bytes p.hid ++ (flat p.generics ++ endpoint_bytes p.endpoints)),
  length-append (hid_bytes p.hid) (flat p.generics ++ endpoint_bytes p.endpoints),
  length-append (flat p.generics) (endpoint_bytes p.endpoints),
  w.size,
  w.len,
)

-- A whole interface is written out as the bytes of its parts, as many as
-- `get_full_descriptor_length` says, and reading those bytes gives the interface back, whatever
-- interface descriptors follow.
pub from_buffer-get_full_descriptor :
    (junk : Bytes) (p : Parts) (rest : Bytes)
    → length junk ≡ 9
    → IsWhole junk p
    → length p.generics ≤ 255
    → StartsInterface rest
    → (w : Bytes) × (get_full_descriptor (assemble [] p) ≡ ok w)
      × (get_full_descriptor_length (assemble [] p) ≡ length w)
      × (from_buffer junk (w ++ rest) ≡ ok (assemble [] p, rest))
from_buffer-get_full_descriptor junk p rest j w b s = (
  wire p,
  full-wire junk p w,
  full_length-wire junk p w,
  from_buffer-wire junk [] p rest j tt w (omega arith) s,
)
