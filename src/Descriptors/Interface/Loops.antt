-- ===== src/Descriptors/Interface/Loops.antt =====
-- The two loops of the constructor on a buffer that is made of descriptors.
use usbproxy.Base.{
  ℕ, zero, suc, ◌<◌, ◌≡◌, refl, sym, ap, ◌∙◌, ◌≢◌, false, some, List, [], ◌∷◌, ◌++◌, arith, ◌==◌,
  lt→ltb, ==_iff, length, take, drop, take_all, length-take, Bytes,
}
use usbproxy.Result.{ok, ◌>>=◌}
use usbproxy.Descriptors.Endpoint
use usbproxy.Descriptors.Endpoint.{byte}
use usbproxy.Descriptors.Chunks.{
  take-append-drop, read_bytes-append, IsDescriptor, read_bytes-descriptor, drop-descriptor,
}
use usbproxy.Descriptors.Interface.{Interface, add_generic, add_part, body}

pub body_other :
    (fuel : ℕ) (junk : Bytes) (i : Interface) (ep n t : ℕ) (rest : Bytes)
    → (t == 4) ≡ false
    → body (suc fuel) junk i ep (n ∷ t ∷ rest) ≡ (
        add_part junk i ep t (n ∷ t ∷ rest) >>= λ s. body fuel junk s.0 s.1 (drop n (n ∷ t ∷ rest)))
unfolding body
body_other fuel junk i ep n t rest h = rw (h, body)

pub body_round :
    (fuel : ℕ) (junk : Bytes) (i : Interface) (ep : ℕ) (d rest : Bytes)
    → IsDescriptor d
    → (byte d 1 == 4) ≡ false
    → body (suc fuel) junk i ep (d ++ rest)
      ≡ (add_part junk i ep (byte d 1) (d ++ rest) >>= λ s. body fuel junk s.0 s.1 rest)
body_round fuel junk i ep [] rest v h = absurd (omega (arith, v.typed))
body_round fuel junk i ep (n ∷ []) rest v h = absurd (omega (arith, v.typed))
body_round fuel junk i ep (n ∷ t ∷ d) rest v h =
    body_other fuel junk i ep n t (d ++ rest) h
    ∙ ap
        (λ (p : Bytes).
          add_part junk i ep t ((n ∷ t ∷ d) ++ rest) >>= λ s. body fuel junk s.0 s.1 p)
        (drop-descriptor (n ∷ t ∷ d) rest n (sym v.len))

-- The loop stops at the end of the buffer and at an interface descriptor.
abbrev pub StartsInterface : Bytes → Type 0
StartsInterface [] = Unit {0}
StartsInterface (n ∷ []) = ⊥
StartsInterface (n ∷ t ∷ rest) = t ≡ 4

pub body_end :
    (fuel : ℕ) (junk : Bytes) (i : Interface) (ep : ℕ) (rest : Bytes)
    → 0 < fuel
    → StartsInterface rest
    → body fuel junk i ep rest ≡ ok (i, rest)
unfolding body
body_end zero junk i ep rest h s = absurd (omega arith)
body_end (suc fuel) junk i ep [] h s = refl
body_end (suc fuel) junk i ep (n ∷ []) h s = absurd s
body_end (suc fuel) junk i ep (n ∷ t ∷ rest) h s = rw ((==_iff t 4).1 s, body)

-- A descriptor that the constructor keeps as it is.
pub record IsGeneric (d : Bytes) : Type 0 where
  pub chunk : IsDescriptor d
  pub not_interface : byte d 1 ≢ 4
  pub not_endpoint : byte d 1 ≢ 5
  pub not_hid : byte d 1 ≢ 0x21

pub record IsHid (d : Bytes) : Type 0 where
  pub chunk : IsDescriptor d
  pub kind : byte d 1 ≡ 0x21

-- An endpoint descriptor of seven bytes, in an object that held `junk`.
pub record IsEndpoint (junk d : Bytes) : Type 0 where
  pub size : length d ≡ 9
  pub len : byte d 0 ≡ 7
  pub kind : byte d 1 ≡ 5
  pub untouched : drop 7 d ≡ drop 7 junk

pub add_generic-ok :
    (ds : List Bytes) (d : Bytes) → length ds < 255 → add_generic ds d ≡ ok (ds ++ (d ∷ []))
unfolding add_generic
add_generic-ok ds d h = rw (lt→ltb (length ds) 255 h)

pub add_part-generic :
    (junk : Bytes) (i : Interface) (ep : ℕ) (d rest : Bytes)
    → IsGeneric d
    → length i.generic_descriptors < 255
    → add_part junk i ep (byte d 1) (d ++ rest)
      ≡ ok (record i { generic_descriptors = i.generic_descriptors ++ (d ∷ []) }, ep)
unfolding add_part
add_part-generic junk i ep d rest v h =
    ground (arith, read_bytes-descriptor d rest v.chunk, v.not_endpoint, v.not_hid)

pub add_part-hid :
    (junk : Bytes) (i : Interface) (ep : ℕ) (d rest : Bytes)
    → IsHid d
    → add_part junk i ep (byte d 1) (d ++ rest)
      ≡ ok (record i { hid_descriptor = some (record { descriptor = d }) }, ep)
unfolding add_part
add_part-hid junk i ep d rest v = ground (arith, read_bytes-descriptor d rest v.chunk, v.kind)

-- The copy of an endpoint takes seven bytes, and two stay as they were.
pub endpoint-from_buffer :
    (junk : Bytes) (d rest : Bytes)
    → length junk ≡ 9
    → IsEndpoint junk d
    → Endpoint.from_buffer junk (take 7 d ++ rest) ≡ ok (record { descriptor = d })
unfolding Endpoint.from_buffer
endpoint-from_buffer junk d rest j v =
    let seven : length (take 7 d) ≡ 7 = omega (arith, length-take 7 d, v.size) in
    rw
      (
        read_bytes-append 7 (take 7 d) rest (omega arith),
        take_all 7 (take 7 d) (omega arith),
        seven,
        j,
      )
      (ap (λ (x : Bytes). ok (record { descriptor = take 7 d ++ x })) (sym v.untouched)
        ∙ ap (λ (x : Bytes). ok (record { descriptor = x })) (take-append-drop 7 d))
