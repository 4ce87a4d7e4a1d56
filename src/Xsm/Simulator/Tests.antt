-- ===== src/Xsm/Simulator/Tests.antt =====
-- Command lines.
use myexpos.Prelude.{List, ◌≡◌, refl, [], ◌∷◌, codes, arith}
use myexpos.Prelude.Int.{pos, ◌+ℤ◌, wrap32}
use myexpos.Libc.{atoi}
use myexpos.Xsm.Simulator.{
  simulator_parse_args, parsed, exits, no_value, failure, flag_of, set_option, default_options,
}
use myexpos.Xsm.Simulator.Settings.{
  Setting, debugging, timer_after, disk_after, spelled, settled, simulator_parse_args-spelled,
}

timer_option :
    (simulator_parse_args
        (codes "xsm" ∷ codes "--timer" ∷ codes "0" ∷ codes "--disk" ∷ codes "20" ∷ [])
      ≡ parsed (record default_options { timer = pos 0; disk = pos 21 }))
    × (simulator_parse_args (codes "xsm" ∷ codes "--disk" ∷ codes "19" ∷ []) ≡ exits)
    × (simulator_parse_args (codes "xsm" ∷ codes "--debug" ∷ codes "--disk" ∷ []) ≡ no_value)
    × (simulator_parse_args (codes "xsm" ∷ codes "--help" ∷ []) ≡ failure)
unfolding simulator_parse_args flag_of atoi wrap32 ◌+ℤ◌ set_option
timer_option = (refl, refl, refl, refl)

-- A timer that is off, a slow disk, and the debugger.
abbrev three_settings : List Setting
three_settings = timer_after 0 ∷ disk_after 1024 ∷ debugging ∷ []

simulator_parse_args-spelled_example :
    simulator_parse_args (codes "xsm" ∷ spelled three_settings)
    ≡ settled three_settings default_options
simulator_parse_args-spelled_example =
    simulator_parse_args-spelled (codes "xsm") three_settings (omega arith, (omega arith, (tt, tt)))
