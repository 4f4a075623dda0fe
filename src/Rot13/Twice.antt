-- ===== src/Rot13/Twice.antt =====
-- The filter undoes itself.
use usbproxy.Base.{
  ℕ, ◌≤◌, ◌≡◌, refl, ap, ◌∙◌, inl, inr, true, false, [], ◌∷◌, arith, ltb, leb, ◌==◌, ltb→lt, ==_iff,
  below, below-holds, Bool-cases, Bytes,
}
use usbproxy.Result.{ok}
use usbproxy.Rot13.{rotated, rotate, filter_packet}

codes : below (λ c. rotated (rotated c) == c) 30 ≡ true
unfolding below rotated
codes = refl

rotated_other : (code : ℕ) → 30 ≤ code → rotated code ≡ code
unfolding rotated
rotated_other code h = let beyond : leb code 0x1d ≡ false = ground (arith, h) in rw beyond refl

rotated_twice : (code : ℕ) → rotated (rotated code) ≡ code
rotated_twice code = elim (Bool-cases (ltb code 30)) [
  | inl low ↦
      (==_iff (rotated (rotated code)) code).0
        (below-holds (λ c. rotated (rotated c) == c) 30 code codes (ltb→lt code 30 low))
  | inr high ↦ let same = rotated_other code (ground (arith, high)) in ap rotated same ∙ same
]

-- A report of eight bytes passes the filter without a fault: the first two bytes stay, and a second
-- pass gives the report back.
pub filter_packet-filter_packet :
    (a b c d e f g h : ℕ)
    → (bytes : Bytes) × (filter_packet (a ∷ b ∷ c ∷ d ∷ e ∷ f ∷ g ∷ h ∷ []) ≡ ok bytes)
      × (filter_packet bytes ≡ ok (a ∷ b ∷ c ∷ d ∷ e ∷ f ∷ g ∷ h ∷ []))
unfolding filter_packet rotate
filter_packet-filter_packet a b c d e f g h = (
  a ∷ b ∷ rotated c ∷ rotated d ∷ rotated e ∷ rotated f ∷ rotated g ∷ rotated h ∷ [],
  refl,
  rw
      (
        rotated_twice c,
        rotated_twice d,
        rotated_twice e,
        rotated_twice f,
        rotated_twice g,
        rotated_twice h,
      )
      refl,
)
