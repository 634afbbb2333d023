-- ===== src/Script/Opcode.antt =====
-- src/script/c64-script.h: the instructions of the machine.
use c64stream.Base.{ℕ}

-- c64script_opcode_t
pub data Opcode : Type 0 where
  op_nop op_push_const op_push_num op_push_var op_pop_var op_pop op_add op_subtract : Opcode
  op_multiply op_divide op_negate op_eq op_ne op_lt op_le op_gt op_ge op_not op_and : Opcode
  op_xor op_or op_jump op_jump_if_false op_call op_return op_call_function : Opcode
  op_return_value op_dim_array op_array_get op_array_set op_map_get op_map_set : Opcode
  op_enter_scope op_exit_scope op_for_init op_for_check op_for_incr op_while_check : Opcode
  op_wait op_wait_mem op_wait_until op_obs_screenshot op_obs_recording_start : Opcode
  op_obs_recording_stop op_obs_wait_frames op_assert_image_equals op_call_peek : Opcode
  op_call_str op_call_builtin op_effect op_effectparam op_palette op_palettecolor : Opcode
  op_playsid op_runprg op_runlocal op_mountdisk op_autostart op_switch_device : Opcode
  op_discover_devices op_reset op_reboot op_pause op_resume op_poweroff op_cfg_set : Opcode
  op_cfg_save op_cfg_load op_cfg_reset op_cfg_get op_cfg_item op_cfg_options : Opcode
  op_sid_model op_sid_enable op_sid_vol op_sid_filter_curve op_sid_resonance : Opcode
  op_sid_combined op_sid_digis op_vic_mode op_cpu_speed op_drive_get op_drive_mount : Opcode
  op_drive_unmount op_drive_reset op_drive_on op_drive_off op_drive_rom op_drive_mode : Opcode
  op_drive_bus_id op_load op_run op_sys op_type op_key op_poke_single op_poke_array : Opcode
  op_log op_print op_logfile op_tron op_troff op_readfile op_writefile_append : Opcode
  op_writefile_truncate op_http op_stop op_halt : Opcode

pub record Instruction : Type 0 where
  pub opcode : Opcode
  pub operand : ℕ
  pub source_line : ℕ
