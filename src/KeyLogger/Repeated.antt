-- ===== src/KeyLogger/Repeated.antt =====
-- A report that says what the last one said.
use Prim.Native.Nat.{bit_and}
use usbproxy.Base.{
  ℕ, zero, suc, ◌+◌, ◌-◌, ◌≤◌, ◌<◌, ◌≡◌, refl, sym, ap, ◌∙◌, inl, inr, Bool, true, some, List, [],
  ◌∷◌, arith, leb, ◌==◌, if◌then◌else◌, lt→ltb, leb→le, le→leb, ==_iff, ==_refl, below, below-holds,
  Bool-cases, length, get_elem?, take, get_elem?-take, length-take, All, All-get_elem?, Bytes,
}
use usbproxy.Result.{Result, exits, spins, ok, fault, at_index, read_bytes, bind-ok}
use usbproxy.KeyLogger.{
  Logger, Print, is_char, is_held, key_pressed, print_only_mods, scan, filter_packet,
}

abbrev cleared : ℕ → Bool
cleared k = bit_and k (255 - k) == 0

all_cleared : below cleared 128 ≡ true
unfolding below
all_cleared = refl

-- A modifier that was down already is not a new one.
bit_and-cleared : (k : ℕ) → k < 128 → bit_and k (255 - k) ≡ 0
bit_and-cleared k l = (==_iff (bit_and k (255 - k)) 0).0 (below-holds cleared 128 k all_cleared l)

is_held-in : (d : ℕ) (ls : Bytes) (i : ℕ) → get_elem? ls i ≡ some d → d < 128 → is_held d ls ≡ true
unfolding is_held
is_held-in d [] i e l = cc
is_held-in d (x ∷ ls) zero e l = let same : x ≡ d = cc in rw (same, lt→ltb d 128 l, ==_refl d) refl
is_held-in d (x ∷ ls) (suc i) e l = elim (Bool-cases (is_char d x)) [
  | inl passes ↦ rw passes refl
  | inr other ↦ rw other (is_held-in d ls i e l)
]

module _ (s : Logger) (report : Bytes) (whole : 8 ≤ length report)
    (small : All (λ b. b < 128) (take 8 report)) (last : s.last_report ≡ take 8 report) where
  entry :
      (i : ℕ)
      → i < 8
      → (d : ℕ) × (get_elem? report i ≡ some d) × (get_elem? s.last_report i ≡ some d) × (d < 128)
  entry i l =
      let (d, e, p) =
        All-get_elem? (λ b. b < 128) (take 8 report) i (omega (arith, length-take 8 report))
          small in
      (d, sym (get_elem?-take 8 report i l) ∙ e, rw last e, p)

  scan-held : (mods n i : ℕ) → i + n ≤ 8 → scan s mods report n i ≡ ok (true, [])
  unfolding scan
  scan-held mods zero i l = refl
  scan-held mods (suc n) i l =
      let (d, e, f, p) = entry i (omega arith) in
      rw (e, is_held-in d s.last_report i f p, scan-held mods n (suc i) (omega arith)) refl

  filter_packet-held : filter_packet s report ≡ ok (s, [])
  unfolding filter_packet key_pressed print_only_mods
  filter_packet-held =
      let (d, e, f, p) = entry 0 (omega arith) in
      rw
        (
          e,
          f,
          scan-held d 6 2 (omega arith),
          bit_and-cleared d p,
          le→leb 8 (length report) whole,
          sym last,
        )
        refl

read_bytes-whole :
    (report last : Bytes)
    → read_bytes 8 report ≡ ok last
    → (8 ≤ length report) × (last ≡ take 8 report)
read_bytes-whole report last e = elim (Bool-cases (leb 8 (length report))) [
  | inl fits ↦
      let read : ok (take 8 report) ≡ ok last = rw fits at e in (leb→le 8 (length report) fits, cc)
  | inr short ↦ let wrong : fault ≡ ok last = rw short at e in absurd (cc wrong)
]

last_report_of : Result (Logger × List Print) → Bytes
last_report_of (ok o) = o.0.last_report
last_report_of fault = []
last_report_of exits = []
last_report_of spins = []

-- What the filter remembers.
filter_packet-last :
    (s t : Logger) (report : Bytes) (out : List Print)
    → filter_packet s report ≡ ok (t, out)
    → (8 ≤ length report) × (t.last_report ≡ take 8 report)
unfolding filter_packet last_report_of
filter_packet-last s t report out h =
    let (mods, _, h1) = bind-ok (at_index report 0) _ (t, out) h in
    let (old, _, h2) = bind-ok (at_index s.last_report 0) _ (t, out) h1 in
    let (r, _, h3) = bind-ok (scan s mods report 6 2) _ (t, out) h2 in
    let (more, _, h4) =
      bind-ok (if r.0 then key_pressed s 0 (bit_and mods (255 - old)) else ok []) _ (t, out) h3 in
    let (last, e, h5) = bind-ok (read_bytes 8 report) _ (t, out) h4 in
    let (whole, same) = read_bytes-whole report last e in (whole, sym (ap last_report_of h5) ∙ same)

-- A report that comes twice, with eight bytes below 128, has nothing printed and nothing changed the
-- second time, if the first one was filtered without a fault.
pub filter_packet-twice :
    (s t : Logger) (report : Bytes) (out : List Print)
    → All (λ b. b < 128) (take 8 report)
    → filter_packet s report ≡ ok (t, out)
    → filter_packet t report ≡ ok (t, [])
filter_packet-twice s t report out small h =
    let (whole, last) = filter_packet-last s t report out h in
    filter_packet-held t report whole small last
