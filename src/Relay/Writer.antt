-- ===== src/Relay/Writer.antt =====
-- lib/RelayWriter.cpp. A filter plugin and the device proxy may keep state of their own: `World` is
-- all of it, and each call returns it anew.
pub mod Replies
use usbproxy.Base.{
  fun_ext, ℕ, zero, suc, ◌+◌, ◌-◌, ◌*◌, ◌/◌, ◌%◌, ◌^◌, ◌≤◌, ◌<◌, min, max, ◌≡◌, refl, sym, ap, ap₂,
  subst, ◌∙◌, ◌≢◌, ◌↔◌, ◌⊎◌, inl, inr, Bool, true, false, ◌&&◌, ◌||◌, not, Option, none, some, List,
  [], ◌∷◌, ◌++◌, map, append-nil, append_assoc, arith, ltb, leb, ◌==◌, if◌then◌else◌, ltb→lt,
  lt→ltb, leb→le, le→leb, lt→leb, ==_iff, ==_refl, ==_ne, if-cases, below, below-holds, Bool-cases,
  Option-cases, length, get_elem?, get_or, set, take, drop, replicate, length-append, length-set,
  get_elem?-set_self, get_elem?-set_ne, get_elem?-none, get_elem?-some, get_elem?-append_left,
  get_elem?-append_right, get_elem?-inside, get_elem?-replicate, get_elem?-take, take-append_length,
  drop-append_length, take-append_left, take_all, length-take, length-drop, length-replicate, All,
  All-append, All-get_elem?, All-set, All-replicate, get_elem?-at, set-at, Bytes, u8, u16, has,
}
use usbproxy.Result.{Result, ok, ◌>>=◌}
use usbproxy.Packet.{CtrlRequest, Packet, SetupPacket}
use usbproxy.Filter.{PacketFilter, test_packet, test_setup_packet}

-- A filter with its two virtual methods.
pub record Plugin (World : Type 0) : Type 0 where
  pub base : PacketFilter
  pub filter_packet : World → Packet → World × Packet
  pub filter_setup_packet : World → SetupPacket → Bool → World × SetupPacket

-- What `control_request` of the device proxy does: whether the return code is not negative, the
-- value stored through `nbytes`, if any, and the data.
pub record Reply : Type 0 where
  pub success : Bool
  pub nbytes : Option ℕ
  pub reply_bytes : Option Bytes

-- What becomes of a setup packet: it is dropped, or it goes to the send queue, with the argument
-- of `Manager::setConfig` if that is called.
pub data Outcome : Type 0 where
  dropped : Outcome
  replied : SetupPacket → Option ℕ → Outcome

abbrev pub is_set_configuration : CtrlRequest → Bool
is_set_configuration r = r.request == 9 && r.request_type == 0

module _ {World : Type 0} where
  -- The filter loop of `relay_write`.
  unfoldable pub filter_all : List (Plugin World) → World → Packet → Result (World × Packet)
  filter_all [] w p = ok (w, p)
  filter_all (f ∷ fs) w p = do
    hit ← test_packet f.base p
    let r = if hit then f.filter_packet w p else (w, p)
    filter_all fs r.0 r.1

  -- What `relay_write` does with a packet that it has taken: `some` is a `send_data`.
  unfoldable pub write_packet :
      List (Plugin World) → World → Packet → Result (World × Option Packet)
  unfolding filter_all
  write_packet fs w p = do
    r ← if p.filter then filter_all fs w p else ok (w, p)
    ok (r.0, if r.1.transmit then some r.1 else none)

  -- The first filter loop of `relay_write_setup`, with the filters that it has not come to.
  unfoldable pub filter_out_all :
      List (Plugin World) → World → SetupPacket → Result (World × SetupPacket × List (Plugin World))
  filter_out_all [] w s = ok (w, s, [])
  filter_out_all (f ∷ fs) w s =
      let rest = (do
        hit ← test_setup_packet f.base s true
        let r = if hit then f.filter_setup_packet w s true else (w, s)
        filter_out_all fs r.0 r.1) in
      if s.filter_out then rest else ok (w, s, f ∷ fs)

  -- The second, from where `j` stands.
  unfoldable pub filter_in_all :
      List (Plugin World) → World → SetupPacket → Result (World × SetupPacket)
  filter_in_all [] w s = ok (w, s)
  filter_in_all (f ∷ fs) w s =
      let rest = (do
        hit ← test_setup_packet f.base s false
        let r = if hit then f.filter_setup_packet w s false else (w, s)
        filter_in_all fs r.0 r.1) in
      if s.filter_in then rest else ok (w, s)

  -- The request to the device; `length` is the variable that lives across the rounds. The last
  -- component is the position `j` of the second loop.
  unfoldable pub transfer :
      (World → CtrlRequest → Option Bytes → World × Reply)
      → List (Plugin World)
      → List (Plugin World)
      → World
      → ℕ
      → SetupPacket
      → World × ℕ × SetupPacket × Option ℕ × List (Plugin World)
  transfer control fs rest w len s =
      let r = s.ctrl_req in
      if has r.request_type 0x80
      then (let a = control w r (some []) in
          let len' : ℕ = elim a.1.nbytes [ none ↦ len | some n ↦ n ] in
          (
            a.0,
            len',
            record s {
              data_bytes = a.1.reply_bytes;
              transmit_in = a.1.success;
              ctrl_req = record r { length = u16 len' };
            },
            none,
            fs,
          ))
      else (let a = control w r s.data_bytes in
          let len' : ℕ = elim a.1.nbytes [ none ↦ r.length | some n ↦ n ] in
          (
            a.0,
            len',
            record s { transmit_in = a.1.success; ctrl_req = record r { length = 0 } },
            if is_set_configuration r then some (u8 r.value) else none,
            rest,
          ))

  -- One round of `relay_write_setup`, on a setup packet.
  unfoldable pub write_setup :
      (World → CtrlRequest → Option Bytes → World × Reply)
      → List (Plugin World)
      → World
      → ℕ
      → SetupPacket
      → Result (World × ℕ × Outcome)
  unfolding filter_out_all filter_in_all transfer
  write_setup control fs w len s = do
    o ← if s.filter then filter_out_all fs w s else ok (w, s, fs)
    if not o.1.transmit_out || not o.1.transmit
        then ok (o.0, len, dropped)
        else (let t = transfer control fs o.2 o.0 len o.1 in
            (do
              i ← if t.2.filter then filter_in_all t.4 t.0 t.2 else ok (t.0, t.2)
              ok (i.0, t.1, replied i.1 t.3)))
