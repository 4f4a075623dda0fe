-- ===== src/Manager/Relaying/Ends.antt =====
-- What holds when the start of relaying returns, whatever other threads do to the status.
use usbproxy.Base.{
  ℕ, suc, ◌+◌, ◌≡◌, refl, sym, ap, subst, ◌∙◌, Bool, true, false, not, Option, none, some, List, [],
  ◌∷◌, ◌++◌, append-nil, arith, ◌==◌, if◌then◌else◌, length,
}
use usbproxy.Result.{Result, ok, fault, exits, spins}
use usbproxy.Device.{Device}
use usbproxy.Manager.Filters.{PluggedIn}
use usbproxy.Manager.Filters.Selected.{chosen, behind}
use usbproxy.Manager.Relaying.{
  Status, idle, setup, relaying, setup_abort, stopping, reset, Call, Manager, Outcome, returns,
  exited, crashed, waits, on_interfaces, stop_relaying, stop_by, stop_all, stop_eps, exit_with,
  ending, release_interface,
}
use usbproxy.Manager.Relaying.Start.{
  relay, write_on, with_reader, with_writer, add_thread, add_injector, start_injectors,
  start_threads, attach_injectors, add_filter, Run, observe, is_setup, unless_stopped, connect,
  is_for_control, attach_filters,
}

-- If a method returns, then in such a state.
abbrev pub Ends : (Manager → Type 0) → Outcome → Type 0
Ends P (returns m) = P m
Ends P (exited m) = Unit
Ends P crashed = Unit
Ends P waits = Unit

observe-manager :
    (m : Manager) (os : List (Option Status))
    → (observe m os).manager ≡ record m { status = (observe m os).manager.status }
observe-manager m [] = refl
observe-manager m (none ∷ os) = refl
observe-manager m (some s ∷ os) = refl

module _ (P : Manager → Type 0) where
  pub if-Ends :
      (b : Bool) (x y : Outcome)
      → (b ≡ true → Ends P x)
      → (b ≡ false → Ends P y)
      → Ends P (if b then x else y)
  if-Ends true x y h k = h refl
  if-Ends false x y h k = k refl

  pub ending-Ends :
      (r : Result (List Call)) (next : List Call → Outcome)
      → ((calls : List Call) → r ≡ ok calls → Ends P (next calls))
      → Ends P (ending r next)
  ending-Ends (ok calls) next h = h calls refl
  ending-Ends fault next h = tt
  ending-Ends exits next h = tt
  ending-Ends spins next h = tt

  exit_with-Ends : (d : Option Device) (m : Manager) → Ends P (exit_with d m)
  unfolding exit_with
  exit_with-Ends none m = tt
  exit_with-Ends (some d) m = ending-Ends (on_interfaces release_interface d) _ (λ calls e. tt)

  stop_eps-Ends : (start : ℕ) (m : Manager) → Ends P (stop_eps start m)
  unfolding stop_eps
  stop_eps-Ends start m = exit_with-Ends m.device _

  stop_all-Ends : (m : Manager) → Ends P (stop_all m)
  unfolding stop_all
  stop_all-Ends m = stop_eps-Ends 0 _

  -- Out of the setup `stop_relaying` does not return.
  stop_by-Ends : (s : Status) (m : Manager) → is_setup s ≡ false → Ends P (stop_by s m)
  unfolding stop_by
  stop_by-Ends idle m h = stop_all-Ends m
  stop_by-Ends setup m h = cc
  stop_by-Ends relaying m h = stop_all-Ends (record m { status = stopping })
  stop_by-Ends stopping m h = stop_all-Ends m
  stop_by-Ends setup_abort m h = stop_all-Ends (record m { status = stopping })
  stop_by-Ends reset m h = stop_all-Ends (record m { status = stopping })

  pub stop_relaying-Ends : (m : Manager) → is_setup m.status ≡ false → Ends P (stop_relaying m)
  unfolding stop_relaying
  stop_relaying-Ends m h = stop_by-Ends m.status m h

  pub unless_stopped-Ends :
      (r : Run) (next : Run → Outcome)
      → ((s : Run) → s.manager ≡ record r.manager { status = s.manager.status } → Ends P (next s))
      → Ends P (unless_stopped r next)
  unfolding unless_stopped
  unless_stopped-Ends r next h =
      let s = observe r.manager r.others in
      if-Ends (is_setup s.manager.status) (next s) (stop_relaying s.manager)
        (λ _. h s (observe-manager r.manager r.others)) (λ out. stop_relaying-Ends s.manager out)

  pub connect-Ends :
      (again : ℕ → Bool) (codes : List ℕ) (r : Run) (next : ℕ → Run → Outcome)
      → ((code : ℕ) (s : Run)
          → s.manager ≡ record r.manager { status = s.manager.status }
          → Ends P (next code s))
      → Ends P (connect again codes r next)
  unfolding connect
  connect-Ends again [] r next h = tt
  connect-Ends again (code ∷ codes) r next h =
      let s = observe r.manager r.others in
      let e = observe-manager r.manager r.others in
      if-Ends (again code)
        (if is_setup s.manager.status then connect again codes s next else next code s)
        (next code r)
        (λ _.
          if-Ends (is_setup s.manager.status) (connect again codes s next) (next code s)
            (λ _.
              connect-Ends again codes s next (λ c t f.
                h c t (f ∙ ap (λ (q : Manager). record q { status = t.manager.status }) e)))
            (λ _. h code s e))
        (λ _. h code r refl)

  pub attach_filters-Ends :
      (d : Device) (fs : List PluggedIn) (r : Run) (next : Run → Outcome)
      → ((s : Run)
          → s.manager ≡ record r.manager {
            control_filters = r.manager.control_filters ++ chosen (is_for_control d) fs;
            status = s.manager.status;
          }
          → Ends P (next s))
      → Ends P (attach_filters d fs r next)
  unfolding attach_filters
  attach_filters-Ends d [] r next h = h r (
      ap (λ l. record r.manager { control_filters = l })
        (sym (append-nil r.manager.control_filters)))
  attach_filters-Ends d (f ∷ fs) r next h =
      unless_stopped-Ends r (λ s. attach_filters d fs (add_filter d f s) next)
        λ s e. attach_filters-Ends d fs (add_filter d f s) next λ t g. h t (
          g
          ∙ ap
              (λ (q : Manager). record q {
                control_filters =
                    (if is_for_control d f
                      then q.control_filters ++ (f ∷ [])
                      else q.control_filters)
                    ++ chosen (is_for_control d) fs;
                status = t.manager.status;
              })
              e
          ∙ ap (λ l. record r.manager { control_filters = l; status = t.manager.status })
              (behind r.manager.control_filters f (chosen (is_for_control d) fs)
                (is_for_control d f)))

  pub attach_injectors-Ends :
      (d : Device) (fs : List PluggedIn) (r : Run) (next : Run → Outcome)
      → ((s : Run)
          → s.manager ≡ record r.manager {
            control_injectors = r.manager.control_injectors ++ chosen (is_for_control d) fs;
            status = s.manager.status;
          }
          → Ends P (next s))
      → Ends P (attach_injectors d fs r next)
  unfolding attach_injectors
  attach_injectors-Ends d [] r next h = h r (
      ap (λ l. record r.manager { control_injectors = l })
        (sym (append-nil r.manager.control_injectors)))
  attach_injectors-Ends d (f ∷ fs) r next h =
      unless_stopped-Ends r (λ s. attach_injectors d fs (add_injector d f s) next)
        λ s e. attach_injectors-Ends d fs (add_injector d f s) next λ t g. h t (
          g
          ∙ ap
              (λ (q : Manager). record q {
                control_injectors =
                    (if is_for_control d f
                      then q.control_injectors ++ (f ∷ [])
                      else q.control_injectors)
                    ++ chosen (is_for_control d) fs;
                status = t.manager.status;
              })
              e
          ∙ ap (λ l. record r.manager { control_injectors = l; status = t.manager.status })
              (behind r.manager.control_injectors f (chosen (is_for_control d) fs)
                (is_for_control d f)))

  pub start_injectors-Ends :
      (fs : List PluggedIn) (r : Run) (next : Run → Outcome)
      → ((s : Run)
          → s.manager ≡ record r.manager {
            injector_threads = r.manager.injector_threads + length fs;
            status = s.manager.status;
          }
          → Ends P (next s))
      → Ends P (start_injectors fs r next)
  unfolding start_injectors
  start_injectors-Ends [] r next h =
      let none_more : r.manager.injector_threads ≡ r.manager.injector_threads + 0 = omega arith in
      h r (ap (λ n. record r.manager { injector_threads = n }) none_more)
  start_injectors-Ends (f ∷ fs) r next h =
      unless_stopped-Ends r (λ s. start_injectors fs (add_thread s) next)
        λ s e. start_injectors-Ends fs (add_thread s) next λ t g.
          let sum : r.manager.injector_threads + 1 + length fs
              ≡ r.manager.injector_threads + suc (length fs) =
            omega arith in
          h t (
            g
            ∙ ap
                (λ (q : Manager). record q {
                  injector_threads = q.injector_threads + 1 + length fs;
                  status = t.manager.status;
                })
                e
            ∙ ap (λ n. record r.manager { injector_threads = n; status = t.manager.status }) sum)

  pub start_threads-Ends :
      (code : ℕ) (r : Run)
      → P (record (with_writer (with_reader r.manager)) { status = relaying })
      → Ends P (start_threads code r)
  unfolding start_threads
  start_threads-Ends code r h =
      let s = observe (with_reader r.manager) r.others in
      let e = observe-manager (with_reader r.manager) r.others in
      if-Ends (not (code == 0)) (stop_relaying (record r.manager { status = setup_abort }))
        (if not (is_setup s.manager.status)
          then stop_relaying (record s.manager { status = setup_abort })
          else unless_stopped (write_on s) relay)
        (λ _. stop_relaying-Ends (record r.manager { status = setup_abort }) refl)
        (λ _.
          if-Ends (not (is_setup s.manager.status))
            (stop_relaying (record s.manager { status = setup_abort }))
            (unless_stopped (write_on s) relay)
            (λ _. stop_relaying-Ends (record s.manager { status = setup_abort }) refl)
            (λ _. unless_stopped-Ends (write_on s) relay λ t g.
              let whole : record (with_writer (with_reader r.manager)) { status = relaying }
                  ≡ record t.manager { status = relaying } =
                sym (
                  ap (λ (q : Manager). record q { status = relaying }) g
                  ∙ ap (λ (q : Manager). record (with_writer q) { status = relaying }) e) in
              subst P whole h))
