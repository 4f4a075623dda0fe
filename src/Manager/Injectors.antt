-- ===== src/Manager/Injectors.antt =====
-- lib/Manager.cpp, start_data_relaying: the queues that each injector is given, the claims of the
-- interfaces, and the threads of the data endpoints.
pub mod Offered
pub mod Routed
use usbproxy.Base.{
  fun_ext, ℕ, zero, suc, ◌+◌, ◌-◌, ◌*◌, ◌/◌, ◌%◌, ◌^◌, ◌≤◌, ◌<◌, min, max, ◌≡◌, refl, sym, ap, ap₂,
  subst, ◌∙◌, ◌≢◌, ◌↔◌, ◌⊎◌, inl, inr, Bool, true, false, ◌&&◌, ◌||◌, not, Option, none, some, List,
  [], ◌∷◌, ◌++◌, map, append-nil, append_assoc, arith, ltb, leb, ◌==◌, if◌then◌else◌, ltb→lt,
  lt→ltb, leb→le, le→leb, lt→leb, ==_iff, ==_refl, ==_ne, if-cases, below, below-holds, Bool-cases,
  Option-cases, length, get_elem?, get_or, set, take, drop, replicate, length-append, length-set,
  get_elem?-set_self, get_elem?-set_ne, get_elem?-none, get_elem?-some, get_elem?-append_left,
  get_elem?-append_right, get_elem?-inside, get_elem?-replicate, get_elem?-take, take-append_length,
  drop-append_length, take-append_left, take_all, length-take, length-drop, length-replicate, All,
  All-append, All-get_elem?, All-set, All-replicate, get_elem?-at, set-at, Bytes, u8, u16, has,
}
use Prim.Native.Nat.{bit_or}
use usbproxy.Result.{Result, ok, ◌>>=◌, deref, at_index, put_index}
use usbproxy.Descriptors.Endpoint.{Endpoint}
use usbproxy.Descriptors.Interface.{Interface}
use usbproxy.Descriptors.Configuration.{Configuration}
use usbproxy.Injector.{Routes, set_queue}
use usbproxy.Manager.Filters.{PluggedIn, Both, Endpoints, wants, is_meant}
use usbproxy.Manager.Relaying.{Threads}

-- The queue that a writer takes its packets from, where there is a writer.
abbrev pub Queues : Type 0
Queues = List (Option ℕ)

-- The body of the inner loop for one direction, with what the table holds.
unfoldable pub offer :
    PluggedIn → Option (Endpoint × Interface) → Queues → ℕ → ℕ → Routes → Result Routes
offer f none qs j address r = ok r
offer f (some e) qs j address r =
    if wants f e then (do w ← at_index qs j; queue ← deref w; set_queue r address queue) else ok r

unfoldable pub offer_at : PluggedIn → Endpoints → Queues → ℕ → ℕ → Routes → Result Routes
unfolding offer
offer_at f es qs j address r = at_index es j >>= λ e. offer f e qs j address r

-- The inner loop, for the next `n` indices.
unfoldable pub offer_all : ℕ → ℕ → PluggedIn → Both Endpoints → Both Queues → Routes → Result Routes
unfolding offer_at
offer_all zero j f es qs r = ok r
offer_all (suc n) j f es qs r = offer_at f es.inward qs.inward j (bit_or j 0x80) r >>= λ r1.
    offer_at f es.outward qs.outward j j r1 >>= λ r2. offer_all n (suc j) f es qs r2

-- One round of the outer loop, with the device descriptor and the configuration.
unfoldable pub assign :
    Bytes → Configuration → PluggedIn → Both Endpoints → Both Queues → Routes → Result Routes
unfolding offer_all
assign d c f es qs r = if is_meant d c f then offer_all 15 1 f es qs r else ok r

-- The outer loop over the injectors, each with where its packets go.
unfoldable pub assign_all :
    Bytes
    → Configuration
    → Both Endpoints
    → Both Queues
    → List (PluggedIn × Routes)
    → Result (List (PluggedIn × Routes))
unfolding assign
assign_all d c es qs [] = ok []
assign_all d c es qs ((f, r) ∷ rest) = do
  r' ← assign d c f es qs r
  rest' ← assign_all d c es qs rest
  ok ((f, r') ∷ rest')

-- `if (relay[i]) {thread[i] = std::thread(...);}`, with what the table of relays holds.
unfoldable pub start_thread : Option ℕ → List Bool → ℕ → Result (List Bool)
start_thread none threads i = ok threads
start_thread (some queue) threads i = put_index threads i true

-- The last loop, for the next `n` indices, with the tables of relays.
unfoldable pub start_threads : ℕ → ℕ → Both Queues → Both Queues → Threads → Result Threads
unfolding start_thread
start_threads zero i readers writers t = ok t
start_threads (suc n) i readers writers t = do
  r0 ← at_index readers.inward i
  in_readers ← start_thread r0 t.in_readers i
  w0 ← at_index writers.inward i
  in_writers ← start_thread w0 t.in_writers i
  r1 ← at_index readers.outward i
  out_readers ← start_thread r1 t.out_readers i
  w1 ← at_index writers.outward i
  out_writers ← start_thread w1 t.out_writers i
  start_threads n (suc i) readers writers (record {
    in_readers = in_readers;
    in_writers = in_writers;
    out_readers = out_readers;
    out_writers = out_writers;
  })
