-- ===== src/Manager/Injectors/Offered.antt =====
-- What one call of set_queue in start_data_relaying changes.

use mathlib.Core.Bool.{not, not, not, not, not}
use usbproxy.Base.{
  ℕ, ◌%◌, ◌<◌, ◌≡◌, refl, ◌≢◌, inl, inr, Bool, true, false, ◌&&◌, not, Option, none, some, List,
  arith, ◌==◌, if◌then◌else◌, lt→ltb, ==_iff, both_true, below, below-holds, Bool-cases, length,
  get_elem?, set, length-set, get_elem?-set_self, get_elem?-set_ne, has,
}
use Prim.Native.Nat.{bit_or}
use usbproxy.Result.{ok}
use usbproxy.Descriptors.Endpoint.{Endpoint}
use usbproxy.Descriptors.Interface.{Interface}
use usbproxy.Injector.{Routes, set_queue}
use usbproxy.Manager.Filters.{PluggedIn, Endpoints, wants}
use usbproxy.Manager.Injectors.{offer_at, Queues, offer}

-- The table of one direction: `true` for IN.
abbrev pub routes : Bool → Routes → List (Option ℕ)
routes true r = r.in_queues
routes false r = r.out_queues

-- The address that `set_queue` is called with.
abbrev pub address : Bool → ℕ → ℕ
address true j = bit_or j 0x80
address false j = j

-- What the tables of endpoints and of queues hold at one index.
pub data Ready : Option (Endpoint × Interface) → Option (Option ℕ) → Type 0 where
  vacant : {w : Option (Option ℕ)} → Ready none w
  ready : {e : Endpoint × Interface} (queue : ℕ) → Ready (some e) (some (some queue))

-- The tables have 16 entries, and the writer of an endpoint has a queue.
unfoldable pub AreReady : Endpoints → Queues → Type 0
AreReady es qs =
    (j : ℕ)
    → j < 16
    → (slot : Option (Endpoint × Interface)) × (get_elem? es j ≡ some slot)
      × Ready slot (get_elem? qs j)

-- What the injector is to have at an index where it had `old`.
abbrev pub wanted :
    (Endpoint × Interface → Bool)
    → Option (Option (Endpoint × Interface))
    → Option (Option ℕ)
    → Option (Option ℕ)
    → Option (Option ℕ)
wanted p none queue old = old
wanted p (some none) queue old = old
wanted p (some (some e)) queue old = if p e then queue else old

-- What one call has changed: at one index of one direction.
pub record Offered (b : Bool) (j : ℕ) (now : Option (Option ℕ)) (r r' : Routes) : Type 0 where
  pub here : get_elem? (routes b r') j ≡ now
  pub elsewhere : (k : ℕ) → j ≢ k → get_elem? (routes b r') k ≡ get_elem? (routes b r) k
  pub across : routes (not b) r' ≡ routes (not b) r
  pub sized : length (routes b r') ≡ length (routes b r)

outward_indices : below (λ k. not (has k 0x80) && k % 16 == k) 16 ≡ true
unfolding below
outward_indices = refl

inward_indices : below (λ k. has (bit_or k 0x80) 0x80 && bit_or k 0x80 % 16 == k) 16 ≡ true
unfolding below
inward_indices = refl

set_queue-Offered :
    (b : Bool) (j queue : ℕ) (r : Routes)
    → j < 16
    → length (routes b r) ≡ 16
    → (r' : Routes) × (set_queue r (address b j) queue ≡ ok r')
      × Offered b j (some (some queue)) r r'
unfolding set_queue
set_queue-Offered true j queue r l s =
    let (side_bit, index) = both_true (has (bit_or j 0x80) 0x80) (bit_or j 0x80 % 16 == j) (
      below-holds (λ k. has (bit_or k 0x80) 0x80 && bit_or k 0x80 % 16 == k) 16 j inward_indices
        l) in
    let place : bit_or j 0x80 % 16 ≡ j = (==_iff (bit_or j 0x80 % 16) j).0 index in
    (
      record r { in_queues = set r.in_queues j (some queue) },
      rw (side_bit, place, lt→ltb j (length r.in_queues) (omega arith)) refl,
      record {
        here = get_elem?-set_self r.in_queues j (some queue) (omega arith);
        elsewhere = λ k n. get_elem?-set_ne r.in_queues j k (some queue) n;
        across = refl;
        sized = length-set r.in_queues j (some queue);
      },
    )
set_queue-Offered false j queue r l s =
    let (side_bit, index) =
      both_true (not (has j 0x80)) (j % 16 == j)
        (below-holds (λ k. not (has k 0x80) && k % 16 == k) 16 j outward_indices l) in
    let plain : has j 0x80 ≡ false = ground (arith, side_bit) in
    let place : j % 16 ≡ j = (==_iff (j % 16) j).0 index in
    (
      record r { out_queues = set r.out_queues j (some queue) },
      rw (plain, place, lt→ltb j (length r.out_queues) (omega arith)) refl,
      record {
        here = get_elem?-set_self r.out_queues j (some queue) (omega arith);
        elsewhere = λ k n. get_elem?-set_ne r.out_queues j k (some queue) n;
        across = refl;
        sized = length-set r.out_queues j (some queue);
      },
    )

unchanged : (b : Bool) (j : ℕ) (r : Routes) → Offered b j (get_elem? (routes b r) j) r r
unchanged b j r = record { here = refl; elsewhere = λ k n. refl; across = refl; sized = refl }

offer-Offered :
    (b : Bool) (f : PluggedIn) (slot : Option (Endpoint × Interface)) (qs : Queues) (j : ℕ)
    (r : Routes) (w : Option (Option ℕ))
    → get_elem? qs j ≡ w
    → Ready slot w
    → j < 16
    → length (routes b r) ≡ 16
    → (r' : Routes) × (offer f slot qs j (address b j) r ≡ ok r')
      × Offered b j (wanted (wants f) (some slot) w (get_elem? (routes b r) j)) r r'
unfolding offer
offer-Offered b f none qs j r w h vacant l s = (r, refl, unchanged b j r)
offer-Offered b f (some e) qs j r none h v l s = elim v [ ]
offer-Offered b f (some e) qs j r (some none) h v l s = elim v [ ]
offer-Offered b f (some e) qs j r (some (some _)) h (ready queue) l s =
    elim (Bool-cases (wants f e)) [
      | inl asked ↦
          let (r', g, o) = set_queue-Offered b j queue r l s in (r', rw (asked, h) g, rw asked o)
      | inr other ↦ (r, rw other refl, rw other (unchanged b j r))
    ]

pub offer_at-Offered :
    (b : Bool) (f : PluggedIn) (es : Endpoints) (qs : Queues) (j : ℕ) (r : Routes)
    → AreReady es qs
    → j < 16
    → length (routes b r) ≡ 16
    → (r' : Routes) × (offer_at f es qs j (address b j) r ≡ ok r')
      × Offered b j
          (wanted (wants f) (get_elem? es j) (get_elem? qs j) (get_elem? (routes b r) j))
          r
          r'
unfolding offer_at AreReady
offer_at-Offered b f es qs j r a l s =
    let (slot, x, v) = a j l in
    let (r', g, o) = offer-Offered b f slot qs j r (get_elem? qs j) refl v l s in
    (r', rw x g, rw x o)
