-- ===== src/Relay/Writer/Replies.antt =====
-- Which filters see the reply to a control request.
use usbproxy.Base.{
  ℕ, ◌≡◌, sym, subst, inl, inr, true, false, Option, List, [], ◌∷◌, arith, Bool-cases, Bytes, has,
}
use usbproxy.Result.{bind-ok}
use usbproxy.Packet.{CtrlRequest, SetupPacket}
use usbproxy.Filter.{test_setup_packet}
use usbproxy.Relay.Writer.{
  ok, Plugin, Reply, replied, filter_out_all, filter_in_all, transfer, write_setup,
}

module _ {World : Type 0} where
  -- The loop leaves no filter behind while the packet still asks for filters.
  filter_out_all-rest :
      (fs : List (Plugin World)) (w w' : World) (s s' : SetupPacket) (rest : List (Plugin World))
      → filter_out_all fs w s ≡ ok (w', s', rest)
      → s'.filter_out ≡ true
      → rest ≡ []
  unfolding filter_out_all test_setup_packet
  filter_out_all-rest [] w w' s s' rest e o = cc
  filter_out_all-rest (f ∷ fs) w w' s s' rest e o = elim (Bool-cases s.filter_out) [
    | inr off ↦ ground arith
    | inl on ↦
        let (hit, t, e') =
          bind-ok (test_setup_packet f.base s true) _ (w', s', rest) (rw on at e) in
        filter_out_all-rest fs _ w' _ s' rest e' o
  ]

  out_reply :
      (control : World → CtrlRequest → Option Bytes → World × Reply) (fs : List (Plugin World))
      (w w' : World) (len : ℕ) (s s' : SetupPacket)
      → s.filter ≡ true
      → filter_out_all fs w s ≡ ok (w', s', [])
      → s'.transmit_out ≡ true
      → s'.transmit ≡ true
      → has s'.ctrl_req.request_type 0x80 ≡ false
      → let t = transfer control fs [] w' len s' in
        write_setup control fs w len s ≡ ok (t.0, t.1, replied t.2 t.3)
  unfolding write_setup transfer filter_in_all
  out_reply control fs w w' len s s' on e sends keeps out =
      rw (e, on, sends, keeps, out) (ground arith)

  -- Where the packet is an OUT request after the filters, and still asks for filters, the reply
  -- is sent back as the transfer left it: no filter sees it.
  pub write_setup-out_reply :
      (control : World → CtrlRequest → Option Bytes → World × Reply) (fs : List (Plugin World))
      (w w' : World) (len : ℕ) (s s' : SetupPacket) (rest : List (Plugin World))
      → s.filter ≡ true
      → filter_out_all fs w s ≡ ok (w', s', rest)
      → s'.filter_out ≡ true
      → s'.transmit_out ≡ true
      → s'.transmit ≡ true
      → has s'.ctrl_req.request_type 0x80 ≡ false
      → let t = transfer control fs rest w' len s' in
        write_setup control fs w len s ≡ ok (t.0, t.1, replied t.2 t.3)
  write_setup-out_reply control fs w w' len s s' rest on e o sends keeps out =
      let none_left : rest ≡ [] = filter_out_all-rest fs w w' s s' rest e o in
      subst
        (λ r.
          let t = transfer control fs r w' len s' in
          write_setup control fs w len s ≡ ok (t.0, t.1, replied t.2 t.3))
        (sym none_left) (out_reply control fs w w' len s s' on (rw none_left at e) sends keeps out)
