-- ===== src/Descriptors/Group/Slots.antt =====
-- The alternate settings of an interface as a table.
use usbproxy.Base.{
  ℕ, zero, suc, ◌+◌, ◌-◌, ◌≤◌, ◌<◌, ◌≡◌, refl, ◌∙◌, ◌≢◌, ◌⊎◌, inl, inr, Option, none, some, List,
  [], ◌∷◌, ◌++◌, arith, ltb, leb, ◌==◌, if◌then◌else◌, lt→ltb, leb→le, le→leb, ==_iff, Bool-cases,
  length, get_elem?, set, take, replicate, length-append, length-set, get_elem?-set_self,
  get_elem?-set_ne, get_elem?-replicate, take_all, length-take, length-replicate, u8,
}
use usbproxy.Result.{ok, put_index}
use usbproxy.Descriptors.Interface.{Interface, alternate_setting}
use usbproxy.Descriptors.Group.{get_interface, Group, init, add_interface, grow}

-- The array is as long as the counter says.
pub record IsValid (g : Group) : Type 0 where
  pub sized : length g.interfaces ≡ g.alternate_count
  pub small : g.alternate_count < 256

pub init-IsValid : (number : ℕ) → IsValid (init number)
unfolding init
init-IsValid number = record { sized = refl; small = omega arith }

length-grow :
    (count n : ℕ) (old : List (Option Interface))
    → length old ≡ count
    → count ≤ n
    → length (grow count n old) ≡ n
length-grow count n old e h =
    let padding : List (Option Interface) = replicate (n - count) none in
    omega (
      arith,
      length-append (take count old) padding,
      length-take count old,
      length-replicate {A = Option Interface} (n - count) none,
    )

put_index-ok {ℓ} :
    {A : Type ℓ} (xs : List A) (i : ℕ) (a : A) → i < length xs → put_index xs i a ≡ ok (set xs i a)
put_index-ok xs i a h = rw (lt→ltb i (length xs) h)

-- What `add_interface` leaves.
after : Group → Interface → Group
after g i =
    if leb g.alternate_count (alternate_setting i)
    then record g {
      interfaces =
          set (grow g.alternate_count (alternate_setting i + 1) g.interfaces) (alternate_setting i)
            (some i);
      alternate_count = u8 (alternate_setting i + 1);
    }
    else record g { interfaces = set g.interfaces (alternate_setting i) (some i) }

add_interface-after : (g : Group) (i : Interface) → IsValid g → add_interface g i ≡ ok (after g i)
unfolding add_interface after
add_interface-after g i v = elim (Bool-cases (leb g.alternate_count (alternate_setting i))) [
  | inl e ↦ rw (
    e,
    put_index-ok (grow g.alternate_count (alternate_setting i + 1) g.interfaces)
        (alternate_setting i) (some i)
        (omega (
          arith,
          leb→le _ _ e,
          length-grow g.alternate_count (alternate_setting i + 1) g.interfaces v.sized,
        )),
  )
  | inr e ↦
      rw (e, put_index-ok g.interfaces (alternate_setting i) (some i) (ground (arith, v.sized)))
]

take-all-valid : (g : Group) → IsValid g → take g.alternate_count g.interfaces ≡ g.interfaces
take-all-valid g v = take_all g.alternate_count g.interfaces (omega (arith, v.sized))

-- A longer array holds the old entries and then null pointers.
get_elem?-grow :
    (count m : ℕ) (old : List (Option Interface)) (k : ℕ)
    → length old ≡ count
    → k < count + m
    → get_elem? (take count old ++ replicate m none) k
      ≡ (if ltb k count then get_elem? old k else some none)
get_elem?-grow zero m old k e h =
    ground (arith, get_elem?-replicate {A = Option Interface} m k none)
get_elem?-grow (suc count) m [] k e h = absurd (omega arith)
get_elem?-grow (suc count) m (x ∷ old) zero e h = ground arith
get_elem?-grow (suc count) m (x ∷ old) (suc k) e h =
    get_elem?-grow count m old k (omega arith) (omega arith) ∙ ground arith

after_large :
    (g : Group) (i : Interface)
    → IsValid g
    → g.alternate_count ≤ alternate_setting i
    → length (after g i).interfaces ≡ alternate_setting i + 1
unfolding after
after_large g i v h = rw (le→leb _ _ h) (
    length-set (grow g.alternate_count (alternate_setting i + 1) g.interfaces) (alternate_setting i)
      (some i)
    ∙ length-grow g.alternate_count (alternate_setting i + 1) g.interfaces v.sized (omega arith))

-- `add_interface` succeeds on a valid group and keeps it valid, as long as the setting is below 255;
-- setting 255 makes the one-byte counter wrap to 0, so every setting of the group is hidden.
pub add_interface-IsValid :
    (g : Group) (i : Interface)
    → IsValid g
    → alternate_setting i < 256
    → (g' : Group) × (add_interface g i ≡ ok g')
      × ((IsValid g' × (alternate_setting i ≢ 255))
          ⊎ ((g'.alternate_count ≡ 0) × (alternate_setting i ≡ 255)))
unfolding after
add_interface-IsValid g i v h = (
  after g i,
  add_interface-after g i v,
  ground (
    arith,
    length-set (grow g.alternate_count (alternate_setting i + 1) g.interfaces) (alternate_setting i)
        (some i),
    length-grow g.alternate_count (alternate_setting i + 1) g.interfaces v.sized,
    length-set g.interfaces (alternate_setting i) (some i),
  ),
)

get_elem?-set {ℓ} :
    {A : Type ℓ} (xs : List A) (i k : ℕ) (v : A)
    → i < length xs
    → get_elem? (set xs i v) k ≡ (if k == i then some v else get_elem? xs k)
get_elem?-set xs i k v h = elim (Bool-cases (k == i)) [
  | inl e ↦ rw (e, (==_iff k i).0 e) (get_elem?-set_self xs i v h)
  | inr e ↦ rw e (get_elem?-set_ne xs i k v (λ p. ground arith))
]

get_interface-after :
    (g : Group) (i : Interface) (k : ℕ)
    → IsValid g
    → alternate_setting i < 255
    → get_interface (after g i) k
      ≡ (if k == alternate_setting i then ok (some i) else get_interface g k)
unfolding after get_interface
get_interface-after g i k v h =
    let n = alternate_setting i + 1 in
    ground (
      arith,
      get_elem?-set (grow g.alternate_count n g.interfaces) (alternate_setting i) k (some i),
      length-grow g.alternate_count n g.interfaces v.sized,
      get_elem?-grow g.alternate_count (n - g.alternate_count) g.interfaces k v.sized,
      get_elem?-set g.interfaces (alternate_setting i) k (some i),
    )

-- The setting that was added is found under its number, and every other number finds what it found
-- before, where the number that was added is not 255.
pub get_interface-add_interface :
    (g g' : Group) (i : Interface) (k : ℕ)
    → IsValid g
    → alternate_setting i < 255
    → add_interface g i ≡ ok g'
    → get_interface g' k ≡ (if k == alternate_setting i then ok (some i) else get_interface g k)
get_interface-add_interface g g' i k v h e =
    let same : g' ≡ after g i = cc (add_interface-after g i v) in
    rw same (get_interface-after g i k v h)
