-- ===== src/Descriptors/Interface/ZeroLength.antt =====
-- A descriptor whose length byte is 0: the pointer does not move over it.
use usbproxy.Base.{
  ℕ, zero, suc, refl, sym, ◌∙◌, ◌≢◌, inl, inr, List, [], ◌∷◌, ◌++◌, arith, ltb, Bool-cases, length,
  Bytes,
}
use usbproxy.Descriptors.Interface.Loops.{body_other}
use usbproxy.Result.{Result, ok, fault, exits, spins, ◌>>=◌}
use usbproxy.Descriptors.Interface.{Interface, add_generic, add_part, body, lead, from_buffer}

-- No round of the first loop gets past the descriptor.
lead-zero :
    (fuel : ℕ) (ds : List Bytes) (t : ℕ) (rest : Bytes) (r : List Bytes × Bytes)
    → t ≢ 4
    → lead fuel ds (0 ∷ t ∷ rest) ≢ ok r
unfolding lead add_generic
lead-zero zero ds t rest r h e = cc
lead-zero (suc fuel) ds t rest r h e = elim (Bool-cases (ltb (length ds) 255)) [
  | inl few ↦ ground (arith, lead-zero fuel (ds ++ ([] ∷ [])) t rest r h)
  | inr many ↦ ground arith
]

bind-ne-ok :
    {A B : Type 0} (m : Result A) (f : A → Result B) (b : B)
    → ((a : A) → f a ≢ ok b)
    → (m >>= f) ≢ ok b
bind-ne-ok (ok a) f b h e = h a e
bind-ne-ok fault f b h e = cc
bind-ne-ok exits f b h e = cc
bind-ne-ok spins f b h e = cc

bind-dead :
    {A B : Type 0} (m : Result A) (f : A → Result B) (b : B)
    → ((a : A) → m ≢ ok a)
    → (m >>= f) ≢ ok b
bind-dead (ok a) f b h e = h a refl
bind-dead fault f b h e = cc
bind-dead exits f b h e = cc
bind-dead spins f b h e = cc

-- Nor does a round of the second.
body-zero :
    (fuel : ℕ) (junk : Bytes) (i : Interface) (ep t : ℕ) (rest : Bytes) (r : Interface × Bytes)
    → t ≢ 4
    → body fuel junk i ep (0 ∷ t ∷ rest) ≢ ok r
body-zero zero junk i ep t rest r h e = unfold body in cc
body-zero (suc fuel) junk i ep t rest r h e =
    bind-ne-ok (add_part junk i ep t (0 ∷ t ∷ rest)) _ r
      (λ s. body-zero fuel junk s.0 s.1 t rest r h)
      (sym (body_other fuel junk i ep 0 t rest (ground arith)) ∙ e)

-- With a descriptor of length 0 in front, and no interface descriptor there, neither loop of the
-- constructor ever reaches an end: however many rounds it is given, it runs on or faults. The same
-- holds of the constructor as a whole.
pub from_buffer-zero :
    (junk : Bytes) (t : ℕ) (rest : Bytes)
    → t ≢ 4
    → ((fuel : ℕ) (ds : List Bytes) (r : List Bytes × Bytes) → lead fuel ds (0 ∷ t ∷ rest) ≢ ok r)
      × ((fuel ep : ℕ) (i : Interface) (r : Interface × Bytes)
          → body fuel junk i ep (0 ∷ t ∷ rest) ≢ ok r)
      × ((r : Interface × Bytes) → from_buffer junk (0 ∷ t ∷ rest) ≢ ok r)
unfolding from_buffer
from_buffer-zero junk t rest h = (
  λ fuel ds r. lead-zero fuel ds t rest r h,
  λ fuel ep i r. body-zero fuel junk i ep t rest r h,
  λ r.
      bind-dead (lead (suc (length (0 ∷ t ∷ rest))) [] (0 ∷ t ∷ rest)) _ r
        (λ s. lead-zero (suc (length (0 ∷ t ∷ rest))) [] t rest s h),
)
