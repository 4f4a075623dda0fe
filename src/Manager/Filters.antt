-- ===== src/Manager/Filters.antt =====
-- lib/Manager.cpp, start_data_relaying: the filters that each writer of a data endpoint is given.
pub mod Selected
pub mod Complete
use usbproxy.Base.{
  fun_ext, ℕ, zero, suc, ◌+◌, ◌-◌, ◌*◌, ◌/◌, ◌%◌, ◌^◌, ◌≤◌, ◌<◌, min, max, ◌≡◌, refl, sym, ap, ap₂,
  subst, ◌∙◌, ◌≢◌, ◌↔◌, ◌⊎◌, inl, inr, Bool, true, false, ◌&&◌, ◌||◌, not, Option, none, some, List,
  [], ◌∷◌, ◌++◌, map, append-nil, append_assoc, arith, ltb, leb, ◌==◌, if◌then◌else◌, ltb→lt,
  lt→ltb, leb→le, le→leb, lt→leb, ==_iff, ==_refl, ==_ne, if-cases, below, below-holds, Bool-cases,
  Option-cases, length, get_elem?, get_or, set, take, drop, replicate, length-append, length-set,
  get_elem?-set_self, get_elem?-set_ne, get_elem?-none, get_elem?-some, get_elem?-append_left,
  get_elem?-append_right, get_elem?-inside, get_elem?-replicate, get_elem?-take, take-append_length,
  drop-append_length, take-append_left, take_all, length-take, length-drop, length-replicate, All,
  All-append, All-get_elem?, All-set, All-replicate, get_elem?-at, set-at, Bytes, u8, u16, has,
}
use usbproxy.Result.{Result, ok, fault, exits, spins, ◌>>=◌, deref, at_index, put_index}
use usbproxy.Descriptors.Endpoint.{Endpoint}
use usbproxy.Descriptors.Interface.{Interface}
use usbproxy.Descriptors.Configuration.{Configuration}
use usbproxy.Criteria.{
  CriteriaEndpoint, CriteriaInterface, CriteriaConfiguration, CriteriaDevice, test_endpoint,
  test_interface, test_configuration, test_device,
}

-- The criteria of a filter, and a number that it is known by.
pub record PluggedIn : Type 0 where
  pub number : ℕ
  pub endpoint : CriteriaEndpoint
  pub interface : CriteriaInterface
  pub configuration : CriteriaConfiguration
  pub device : CriteriaDevice

-- What there is for each direction.
pub record Both {ℓ} (A : Type ℓ) : Type ℓ where
  pub inward : A
  pub outward : A

-- An endpoint, with the interface that it points to; the filters of a writer, where there is one.
abbrev pub Endpoints : Type 0
Endpoints = List (Option (Endpoint × Interface))

abbrev pub Writers : Type 0
Writers = List (Option (List PluggedIn))

unfoldable pub wants : PluggedIn → Endpoint × Interface → Bool
wants f e = test_endpoint f.endpoint e.0 && test_interface f.interface e.1

-- The body of the inner loop for one direction, with what the table holds.
unfoldable pub give : PluggedIn → Option (Endpoint × Interface) → Writers → ℕ → Result Writers
give f none ws j = ok ws
give f (some e) ws j =
    if wants f e
    then (do w ← at_index ws j; fs ← deref w; put_index ws j (some (fs ++ (f ∷ []))))
    else ok ws

unfoldable pub give_at : PluggedIn → Endpoints → Writers → ℕ → Result Writers
give_at f es ws j = at_index es j >>= λ e. give f e ws j

-- The inner loop, for the next `n` indices.
unfoldable pub give_all : ℕ → ℕ → PluggedIn → Both Endpoints → Both Writers → Result (Both Writers)
give_all zero j f es ws = ok ws
give_all (suc n) j f es ws = give_at f es.inward ws.inward j >>= λ inward.
    give_at f es.outward ws.outward j >>= λ outward.
    give_all n (suc j) f es (record { inward = inward; outward = outward })

-- The tests of the outer loop.
unfoldable pub is_meant : Bytes → Configuration → PluggedIn → Bool
is_meant d c f = test_device f.device d && test_configuration f.configuration c

-- The outer loop over the filters, with the device descriptor and the configuration.
unfoldable pub give_filters :
    Bytes → Configuration → List PluggedIn → Both Endpoints → Both Writers → Result (Both Writers)
give_filters d c [] es ws = ok ws
give_filters d c (f ∷ fs) es ws =
    (if is_meant d c f then give_all 15 1 f es ws else ok ws) >>= λ ws'. give_filters d c fs es ws'
