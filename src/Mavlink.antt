-- ===== src/Mavlink.antt =====
-- src/mavlink_utils.rs: the target of a message. Of a message of the `mavlink` crate only the
-- variants and the fields that the source names are kept; `other` is any further variant.
use mavrouter.Prelude.{ℕ, nat_eq}

pub data MavlinkVersion : Type 0 where
  v1 : MavlinkVersion
  v2 : MavlinkVersion

-- `mavlink::MavHeader`.
pub record MavHeader : Type 0 where
  pub system_id : ℕ
  pub component_id : ℕ
  pub sequence : ℕ

-- The target fields of a message that has both.
pub record Fields : Type 0 where
  pub target_system : ℕ
  pub target_component : ℕ

pub data MavMessage : Type 0 where
  command_int : Fields → MavMessage
  command_long : Fields → MavMessage
  command_ack : MavMessage
  command_cancel : Fields → MavMessage
  mission_request_list : Fields → MavMessage
  mission_count : Fields → MavMessage
  mission_request : Fields → MavMessage
  mission_request_int : Fields → MavMessage
  mission_item : Fields → MavMessage
  mission_item_int : Fields → MavMessage
  mission_ack : Fields → MavMessage
  mission_clear_all : Fields → MavMessage
  mission_item_reached : MavMessage
  mission_current : MavMessage
  mission_set_current : Fields → MavMessage
  param_request_read : Fields → MavMessage
  param_request_list : Fields → MavMessage
  param_set : Fields → MavMessage
  param_value : MavMessage
  set_mode : (target_system : ℕ) → MavMessage
  set_position_target_local_ned : (target_system : ℕ) → MavMessage
  set_position_target_global_int : (target_system : ℕ) → MavMessage
  set_attitude_target : (target_system : ℕ) → MavMessage
  request_data_stream : Fields → MavMessage
  ping : Fields → MavMessage
  change_operator_control : (target_system : ℕ) → MavMessage
  change_operator_control_ack : (gcs_system_id : ℕ) → MavMessage
  log_request_list : Fields → MavMessage
  log_request_data : Fields → MavMessage
  log_erase : Fields → MavMessage
  log_request_end : Fields → MavMessage
  file_transfer_protocol : Fields → MavMessage
  mission_request_partial_list : Fields → MavMessage
  mission_write_partial_list : Fields → MavMessage
  param_map_rc : Fields → MavMessage
  safety_set_allowed_area : Fields → MavMessage
  rc_channels_override : Fields → MavMessage
  gps_inject_data : Fields → MavMessage
  set_gps_global_origin : (target_system : ℕ) → MavMessage
  param_ext_set : Fields → MavMessage
  param_ext_request_read : Fields → MavMessage
  param_ext_request_list : Fields → MavMessage
  logging_data : Fields → MavMessage
  logging_data_acked : Fields → MavMessage
  play_tune : Fields → MavMessage
  play_tune_v2 : Fields → MavMessage
  tunnel : Fields → MavMessage
  setup_signing : Fields → MavMessage
  gimbal_manager_set_attitude : Fields → MavMessage
  gimbal_manager_set_pitchyaw : Fields → MavMessage
  other : (id : ℕ) → MavMessage

pub record MessageTarget : Type 0 where
  pub system_id : ℕ
  pub component_id : ℕ

abbrev targeted : Fields → MessageTarget
targeted m = record { system_id = m.target_system; component_id = m.target_component }

abbrev to_system : ℕ → MessageTarget
to_system system = record { system_id = system; component_id = 0 }

abbrev pub broadcast : MessageTarget
broadcast = record { system_id = 0; component_id = 0 }

unfoldable pub extract_target : MavMessage → MessageTarget
extract_target (command_int m) = targeted m
extract_target (command_long m) = targeted m
extract_target command_ack = broadcast
extract_target (command_cancel m) = targeted m
extract_target (mission_request_list m) = targeted m
extract_target (mission_count m) = targeted m
extract_target (mission_request m) = targeted m
extract_target (mission_request_int m) = targeted m
extract_target (mission_item m) = targeted m
extract_target (mission_item_int m) = targeted m
extract_target (mission_ack m) = targeted m
extract_target (mission_clear_all m) = targeted m
extract_target mission_item_reached = broadcast
extract_target mission_current = broadcast
extract_target (mission_set_current m) = targeted m
extract_target (param_request_read m) = targeted m
extract_target (param_request_list m) = targeted m
extract_target (param_set m) = targeted m
extract_target param_value = broadcast
extract_target (set_mode target_system) = to_system target_system
extract_target (set_position_target_local_ned target_system) = to_system target_system
extract_target (set_position_target_global_int target_system) = to_system target_system
extract_target (set_attitude_target target_system) = to_system target_system
extract_target (request_data_stream m) = targeted m
extract_target (ping m) = targeted m
extract_target (change_operator_control target_system) = to_system target_system
extract_target (change_operator_control_ack gcs_system_id) = to_system gcs_system_id
extract_target (log_request_list m) = targeted m
extract_target (log_request_data m) = targeted m
extract_target (log_erase m) = targeted m
extract_target (log_request_end m) = targeted m
extract_target (file_transfer_protocol m) = targeted m
extract_target (mission_request_partial_list m) = targeted m
extract_target (mission_write_partial_list m) = targeted m
extract_target (param_map_rc m) = targeted m
extract_target (safety_set_allowed_area m) = targeted m
extract_target (rc_channels_override m) = targeted m
extract_target (gps_inject_data m) = targeted m
extract_target (set_gps_global_origin target_system) = to_system target_system
extract_target (param_ext_set m) = targeted m
extract_target (param_ext_request_read m) = targeted m
extract_target (param_ext_request_list m) = targeted m
extract_target (logging_data m) = targeted m
extract_target (logging_data_acked m) = targeted m
extract_target (play_tune m) = targeted m
extract_target (play_tune_v2 m) = targeted m
extract_target (tunnel m) = targeted m
extract_target (setup_signing m) = targeted m
extract_target (gimbal_manager_set_attitude m) = targeted m
extract_target (gimbal_manager_set_pitchyaw m) = targeted m
extract_target (other id) = broadcast
