-- ===== src/Script/Vm/Bounds.antt =====
-- Every instruction keeps the program, the counters and the bounds of the stacks, provided that the
-- instructions on devices do.
use Prim.Native.Nat.{bit_and, bit_or, bit_xor}
use c64stream.Base.{ℕ, false, not, Option, none, some}
use c64stream.Script.Floats.{Floats}
use c64stream.Script.Opcode.{Opcode}
use c64stream.Script.Value.{Value}
use c64stream.Script.State.{M}
use c64stream.Script.Runtime.{get_var}
use c64stream.Script.Compute.{is_eq, is_lt, is_gt}
use c64stream.Script.Containers.{constant_at}
use c64stream.Script.Execute.{
  Devices, quiet, push_found, push_const, push_var, pop_var, wait, stop, trace_off,
  execute_instruction,
}
use c64stream.Script.Vm.Store.{set_var-IsSound}
use c64stream.Script.Vm.Frame.{
  Plan, IsSound, sound, pure-IsSound, fail-IsSound, bind-IsSound, if-IsSound, push-IsSound,
  pop-IsSound,
}
use c64stream.Script.Vm.Values.{
  require_number-IsSound, binary-IsSound, unary-IsSound, constant_name-IsSound, calculate-IsSound,
  divide-IsSound, op_add_values-IsSound, negate-IsSound, relate-IsSound, bitwise-IsSound,
  complement-IsSound,
}
use c64stream.Script.Vm.Tables.{
  dim_array-IsSound, array_get_op-IsSound, array_set_op-IsSound, map_get_op-IsSound,
  map_set_op-IsSound,
}
use c64stream.Script.Vm.Flow.{
  jump-IsSound, call_function-IsSound, jump_if_false-IsSound, gosub-IsSound, return_op-IsSound,
  for_init-IsSound, for_check-IsSound, for_incr-IsSound,
}

module _ {F : Type 0} {p : Plan} (N : Floats F) where
  push_found-IsSound : (v : Option (Value F)) → (dev : Devices F) → IsSound p (push_found N dev v)
  push_found-IsSound none dev = fail-IsSound _
  push_found-IsSound (some v) dev = push-IsSound v

-- The instructions that go to a device keep the bounds.
pub record IsSafe {F : Type 0} (p : Plan) (dev : Devices F) : Type 0 where
  pub device-IsSound : (op : Opcode) (i : ℕ) → IsSound p (dev.device op i)

module _ {F : Type 0} {p : Plan} (N : Floats F) (dev : Devices F) where
  quiet-IsSound : {m : M F (Unit {0})} → IsSound p m → IsSound p (quiet N dev m)
  quiet-IsSound h = bind-IsSound h λ _. pure-IsSound false

  push_const-IsSound : (i : ℕ) → IsSound p (push_const N dev i)
  unfolding push_const
  push_const-IsSound i =
      sound λ r o. (push_found-IsSound N (constant_at r.constants i) dev).keeps r o

  push_var-IsSound : (i : ℕ) → IsSound p (push_var N dev i)
  unfolding push_var
  push_var-IsSound i =
      bind-IsSound (constant_name-IsSound i)
        λ name. sound λ r o. (push-IsSound (get_var N name r)).keeps r o

  pop_var-IsSound : (i : ℕ) → IsSound p (pop_var N dev i)
  unfolding pop_var
  pop_var-IsSound i =
      bind-IsSound (constant_name-IsSound i)
        λ name. bind-IsSound pop-IsSound λ v. set_var-IsSound N name v

  wait-IsSound : (i : ℕ) → IsSound p (wait N dev i)
  unfolding wait
  wait-IsSound i = bind-IsSound pop-IsSound λ v.
      bind-IsSound (require_number-IsSound v) λ x. if-IsSound _ (pure-IsSound tt) (fail-IsSound _)

  stop-IsSound : IsSound p (stop N dev)
  stop-IsSound = sound λ r o. o

  trace_off-IsSound : IsSound p (trace_off N dev)
  trace_off-IsSound = sound λ r o. o

  pub execute_instruction-IsSound :
      IsSafe p dev → (op : Opcode) (i : ℕ) → IsSound p (execute_instruction N dev op i)
  unfolding execute_instruction
  execute_instruction-IsSound safe Opcode.op_nop i = pure-IsSound false
  execute_instruction-IsSound safe Opcode.op_push_const i = quiet-IsSound (push_const-IsSound i)
  execute_instruction-IsSound safe Opcode.op_push_num i = quiet-IsSound (push-IsSound _)
  execute_instruction-IsSound safe Opcode.op_push_var i = quiet-IsSound (push_var-IsSound i)
  execute_instruction-IsSound safe Opcode.op_pop_var i = quiet-IsSound (pop_var-IsSound i)
  execute_instruction-IsSound safe Opcode.op_pop i =
      quiet-IsSound (unary-IsSound _ λ _. pure-IsSound tt)
  execute_instruction-IsSound safe Opcode.op_add i =
      quiet-IsSound (binary-IsSound _ (op_add_values-IsSound N))
  execute_instruction-IsSound safe Opcode.op_subtract i =
      quiet-IsSound (binary-IsSound _ (calculate-IsSound N N.sub))
  execute_instruction-IsSound safe Opcode.op_multiply i =
      quiet-IsSound (binary-IsSound _ (calculate-IsSound N N.mul))
  execute_instruction-IsSound safe Opcode.op_divide i =
      quiet-IsSound (binary-IsSound _ (divide-IsSound N))
  execute_instruction-IsSound safe Opcode.op_negate i =
      quiet-IsSound (unary-IsSound _ (negate-IsSound N))
  execute_instruction-IsSound safe Opcode.op_eq i =
      quiet-IsSound (binary-IsSound _ (relate-IsSound N is_eq))
  execute_instruction-IsSound safe Opcode.op_ne i =
      quiet-IsSound (binary-IsSound _ (relate-IsSound N (λ c. not (is_eq c))))
  execute_instruction-IsSound safe Opcode.op_lt i =
      quiet-IsSound (binary-IsSound _ (relate-IsSound N is_lt))
  execute_instruction-IsSound safe Opcode.op_le i =
      quiet-IsSound (binary-IsSound _ (relate-IsSound N (λ c. not (is_gt c))))
  execute_instruction-IsSound safe Opcode.op_gt i =
      quiet-IsSound (binary-IsSound _ (relate-IsSound N is_gt))
  execute_instruction-IsSound safe Opcode.op_ge i =
      quiet-IsSound (binary-IsSound _ (relate-IsSound N (λ c. not (is_lt c))))
  execute_instruction-IsSound safe Opcode.op_not i =
      quiet-IsSound (unary-IsSound _ (complement-IsSound N))
  execute_instruction-IsSound safe Opcode.op_and i =
      quiet-IsSound (binary-IsSound _ (bitwise-IsSound N bit_and))
  execute_instruction-IsSound safe Opcode.op_xor i =
      quiet-IsSound (binary-IsSound _ (bitwise-IsSound N bit_xor))
  execute_instruction-IsSound safe Opcode.op_or i =
      quiet-IsSound (binary-IsSound _ (bitwise-IsSound N bit_or))
  execute_instruction-IsSound safe Opcode.op_jump i = quiet-IsSound (jump-IsSound i)
  execute_instruction-IsSound safe Opcode.op_jump_if_false i =
      quiet-IsSound (jump_if_false-IsSound N i)
  execute_instruction-IsSound safe Opcode.op_call i = quiet-IsSound (gosub-IsSound N i)
  execute_instruction-IsSound safe Opcode.op_return i = return_op-IsSound N _
  execute_instruction-IsSound safe Opcode.op_call_function i = call_function-IsSound i
  execute_instruction-IsSound safe Opcode.op_return_value i = return_op-IsSound N _
  execute_instruction-IsSound safe Opcode.op_dim_array i = quiet-IsSound (dim_array-IsSound N i)
  execute_instruction-IsSound safe Opcode.op_array_get i = quiet-IsSound (array_get_op-IsSound N i)
  execute_instruction-IsSound safe Opcode.op_array_set i = quiet-IsSound (array_set_op-IsSound N i)
  execute_instruction-IsSound safe Opcode.op_map_get i = quiet-IsSound (map_get_op-IsSound N i)
  execute_instruction-IsSound safe Opcode.op_map_set i = quiet-IsSound (map_set_op-IsSound N i)
  execute_instruction-IsSound safe Opcode.op_enter_scope i = pure-IsSound false
  execute_instruction-IsSound safe Opcode.op_exit_scope i = pure-IsSound false
  execute_instruction-IsSound safe Opcode.op_for_init i = quiet-IsSound (for_init-IsSound N i)
  execute_instruction-IsSound safe Opcode.op_for_check i = quiet-IsSound (for_check-IsSound N i)
  execute_instruction-IsSound safe Opcode.op_for_incr i = quiet-IsSound (for_incr-IsSound N)
  execute_instruction-IsSound safe Opcode.op_while_check i =
      quiet-IsSound (jump_if_false-IsSound N i)
  execute_instruction-IsSound safe Opcode.op_wait i = quiet-IsSound (wait-IsSound i)
  execute_instruction-IsSound safe Opcode.op_wait_mem i =
      quiet-IsSound (safe.device-IsSound Opcode.op_wait_mem i)
  execute_instruction-IsSound safe Opcode.op_wait_until i =
      quiet-IsSound (safe.device-IsSound Opcode.op_wait_until i)
  execute_instruction-IsSound safe Opcode.op_obs_screenshot i =
      quiet-IsSound (safe.device-IsSound Opcode.op_obs_screenshot i)
  execute_instruction-IsSound safe Opcode.op_obs_recording_start i =
      quiet-IsSound (safe.device-IsSound Opcode.op_obs_recording_start i)
  execute_instruction-IsSound safe Opcode.op_obs_recording_stop i =
      quiet-IsSound (safe.device-IsSound Opcode.op_obs_recording_stop i)
  execute_instruction-IsSound safe Opcode.op_obs_wait_frames i =
      quiet-IsSound (safe.device-IsSound Opcode.op_obs_wait_frames i)
  execute_instruction-IsSound safe Opcode.op_assert_image_equals i =
      quiet-IsSound (safe.device-IsSound Opcode.op_assert_image_equals i)
  execute_instruction-IsSound safe Opcode.op_call_peek i =
      quiet-IsSound (safe.device-IsSound Opcode.op_call_peek i)
  execute_instruction-IsSound safe Opcode.op_call_str i =
      quiet-IsSound (safe.device-IsSound Opcode.op_call_str i)
  execute_instruction-IsSound safe Opcode.op_call_builtin i =
      quiet-IsSound (safe.device-IsSound Opcode.op_call_builtin i)
  execute_instruction-IsSound safe Opcode.op_effect i =
      quiet-IsSound (safe.device-IsSound Opcode.op_effect i)
  execute_instruction-IsSound safe Opcode.op_effectparam i =
      quiet-IsSound (safe.device-IsSound Opcode.op_effectparam i)
  execute_instruction-IsSound safe Opcode.op_palette i =
      quiet-IsSound (safe.device-IsSound Opcode.op_palette i)
  execute_instruction-IsSound safe Opcode.op_palettecolor i =
      quiet-IsSound (safe.device-IsSound Opcode.op_palettecolor i)
  execute_instruction-IsSound safe Opcode.op_playsid i =
      quiet-IsSound (safe.device-IsSound Opcode.op_playsid i)
  execute_instruction-IsSound safe Opcode.op_runprg i =
      quiet-IsSound (safe.device-IsSound Opcode.op_runprg i)
  execute_instruction-IsSound safe Opcode.op_runlocal i =
      quiet-IsSound (safe.device-IsSound Opcode.op_runlocal i)
  execute_instruction-IsSound safe Opcode.op_mountdisk i =
      quiet-IsSound (safe.device-IsSound Opcode.op_mountdisk i)
  execute_instruction-IsSound safe Opcode.op_autostart i =
      quiet-IsSound (safe.device-IsSound Opcode.op_autostart i)
  execute_instruction-IsSound safe Opcode.op_switch_device i =
      quiet-IsSound (safe.device-IsSound Opcode.op_switch_device i)
  execute_instruction-IsSound safe Opcode.op_discover_devices i =
      quiet-IsSound (safe.device-IsSound Opcode.op_discover_devices i)
  execute_instruction-IsSound safe Opcode.op_reset i =
      quiet-IsSound (safe.device-IsSound Opcode.op_reset i)
  execute_instruction-IsSound safe Opcode.op_reboot i =
      quiet-IsSound (safe.device-IsSound Opcode.op_reboot i)
  execute_instruction-IsSound safe Opcode.op_pause i =
      quiet-IsSound (safe.device-IsSound Opcode.op_pause i)
  execute_instruction-IsSound safe Opcode.op_resume i =
      quiet-IsSound (safe.device-IsSound Opcode.op_resume i)
  execute_instruction-IsSound safe Opcode.op_poweroff i =
      quiet-IsSound (safe.device-IsSound Opcode.op_poweroff i)
  execute_instruction-IsSound safe Opcode.op_cfg_set i =
      quiet-IsSound (safe.device-IsSound Opcode.op_cfg_set i)
  execute_instruction-IsSound safe Opcode.op_cfg_save i =
      quiet-IsSound (safe.device-IsSound Opcode.op_cfg_save i)
  execute_instruction-IsSound safe Opcode.op_cfg_load i =
      quiet-IsSound (safe.device-IsSound Opcode.op_cfg_load i)
  execute_instruction-IsSound safe Opcode.op_cfg_reset i =
      quiet-IsSound (safe.device-IsSound Opcode.op_cfg_reset i)
  execute_instruction-IsSound safe Opcode.op_cfg_get i =
      quiet-IsSound (safe.device-IsSound Opcode.op_cfg_get i)
  execute_instruction-IsSound safe Opcode.op_cfg_item i =
      quiet-IsSound (safe.device-IsSound Opcode.op_cfg_item i)
  execute_instruction-IsSound safe Opcode.op_cfg_options i =
      quiet-IsSound (safe.device-IsSound Opcode.op_cfg_options i)
  execute_instruction-IsSound safe Opcode.op_sid_model i =
      quiet-IsSound (safe.device-IsSound Opcode.op_sid_model i)
  execute_instruction-IsSound safe Opcode.op_sid_enable i =
      quiet-IsSound (safe.device-IsSound Opcode.op_sid_enable i)
  execute_instruction-IsSound safe Opcode.op_sid_vol i =
      quiet-IsSound (safe.device-IsSound Opcode.op_sid_vol i)
  execute_instruction-IsSound safe Opcode.op_sid_filter_curve i =
      quiet-IsSound (safe.device-IsSound Opcode.op_sid_filter_curve i)
  execute_instruction-IsSound safe Opcode.op_sid_resonance i =
      quiet-IsSound (safe.device-IsSound Opcode.op_sid_resonance i)
  execute_instruction-IsSound safe Opcode.op_sid_combined i =
      quiet-IsSound (safe.device-IsSound Opcode.op_sid_combined i)
  execute_instruction-IsSound safe Opcode.op_sid_digis i =
      quiet-IsSound (safe.device-IsSound Opcode.op_sid_digis i)
  execute_instruction-IsSound safe Opcode.op_vic_mode i =
      quiet-IsSound (safe.device-IsSound Opcode.op_vic_mode i)
  execute_instruction-IsSound safe Opcode.op_cpu_speed i =
      quiet-IsSound (safe.device-IsSound Opcode.op_cpu_speed i)
  execute_instruction-IsSound safe Opcode.op_drive_get i =
      quiet-IsSound (safe.device-IsSound Opcode.op_drive_get i)
  execute_instruction-IsSound safe Opcode.op_drive_mount i =
      quiet-IsSound (safe.device-IsSound Opcode.op_drive_mount i)
  execute_instruction-IsSound safe Opcode.op_drive_unmount i =
      quiet-IsSound (safe.device-IsSound Opcode.op_drive_unmount i)
  execute_instruction-IsSound safe Opcode.op_drive_reset i =
      quiet-IsSound (safe.device-IsSound Opcode.op_drive_reset i)
  execute_instruction-IsSound safe Opcode.op_drive_on i =
      quiet-IsSound (safe.device-IsSound Opcode.op_drive_on i)
  execute_instruction-IsSound safe Opcode.op_drive_off i =
      quiet-IsSound (safe.device-IsSound Opcode.op_drive_off i)
  execute_instruction-IsSound safe Opcode.op_drive_rom i =
      quiet-IsSound (safe.device-IsSound Opcode.op_drive_rom i)
  execute_instruction-IsSound safe Opcode.op_drive_mode i =
      quiet-IsSound (safe.device-IsSound Opcode.op_drive_mode i)
  execute_instruction-IsSound safe Opcode.op_drive_bus_id i =
      quiet-IsSound (safe.device-IsSound Opcode.op_drive_bus_id i)
  execute_instruction-IsSound safe Opcode.op_load i =
      quiet-IsSound (safe.device-IsSound Opcode.op_load i)
  execute_instruction-IsSound safe Opcode.op_run i =
      quiet-IsSound (safe.device-IsSound Opcode.op_run i)
  execute_instruction-IsSound safe Opcode.op_sys i =
      quiet-IsSound (safe.device-IsSound Opcode.op_sys i)
  execute_instruction-IsSound safe Opcode.op_type i =
      quiet-IsSound (safe.device-IsSound Opcode.op_type i)
  execute_instruction-IsSound safe Opcode.op_key i =
      quiet-IsSound (safe.device-IsSound Opcode.op_key i)
  execute_instruction-IsSound safe Opcode.op_poke_single i =
      quiet-IsSound (safe.device-IsSound Opcode.op_poke_single i)
  execute_instruction-IsSound safe Opcode.op_poke_array i =
      quiet-IsSound (safe.device-IsSound Opcode.op_poke_array i)
  execute_instruction-IsSound safe Opcode.op_log i =
      quiet-IsSound (safe.device-IsSound Opcode.op_log i)
  execute_instruction-IsSound safe Opcode.op_print i =
      quiet-IsSound (safe.device-IsSound Opcode.op_print i)
  execute_instruction-IsSound safe Opcode.op_logfile i =
      quiet-IsSound (safe.device-IsSound Opcode.op_logfile i)
  execute_instruction-IsSound safe Opcode.op_tron i =
      quiet-IsSound (safe.device-IsSound Opcode.op_tron i)
  execute_instruction-IsSound safe Opcode.op_troff i = quiet-IsSound trace_off-IsSound
  execute_instruction-IsSound safe Opcode.op_readfile i =
      quiet-IsSound (safe.device-IsSound Opcode.op_readfile i)
  execute_instruction-IsSound safe Opcode.op_writefile_append i =
      quiet-IsSound (safe.device-IsSound Opcode.op_writefile_append i)
  execute_instruction-IsSound safe Opcode.op_writefile_truncate i =
      quiet-IsSound (safe.device-IsSound Opcode.op_writefile_truncate i)
  execute_instruction-IsSound safe Opcode.op_http i =
      quiet-IsSound (safe.device-IsSound Opcode.op_http i)
  execute_instruction-IsSound safe Opcode.op_stop i = quiet-IsSound stop-IsSound
  execute_instruction-IsSound safe Opcode.op_halt i = quiet-IsSound stop-IsSound
