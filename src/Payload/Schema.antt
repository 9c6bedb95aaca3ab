-- ===== src/Payload/Schema.antt =====
-- The dataclasses of types.py and replay.py that an episode is made of: their fields in order, with
-- the type hints. What `importlib` finds under another path of the two modules is left out.
use alpagym.Base.{String, List, [], ◌∷◌, if◌then◌else◌}
use alpagym.Base.Texts.{same_text}
use alpagym.Payload.{
  Hint, optional, tuple_of, mapping, dataclass_hint, any, plain, Class, absent, fields_of,
}

abbrev pub vec3_path : String
vec3_path = "alpagym_runtime.types.Vec3"

abbrev pub quaternion_path : String
quaternion_path = "alpagym_runtime.types.Quaternion"

abbrev pub pose_path : String
pose_path = "alpagym_runtime.types.Pose"

abbrev pub ego_pose_path : String
ego_pose_path = "alpagym_runtime.types.EgoPose"

abbrev pub trajectory_path : String
trajectory_path = "alpagym_runtime.types.Trajectory"

abbrev pub route_waypoint_path : String
route_waypoint_path = "alpagym_runtime.types.RouteWaypoint"

abbrev pub policy_output_path : String
policy_output_path = "alpagym_runtime.types.PolicyOutput"

abbrev pub episode_metrics_path : String
episode_metrics_path = "alpagym_runtime.types.EpisodeMetrics"

abbrev pub reward_result_path : String
reward_result_path = "alpagym_runtime.types.RewardResult"

abbrev pub episode_output_path : String
episode_output_path = "alpagym_runtime.types.EpisodeOutput"

abbrev pub action_selection_path : String
action_selection_path = "alpagym_runtime.replay.ActionSelection"

abbrev pub policy_replay_data_path : String
policy_replay_data_path = "alpagym_runtime.replay.PolicyReplayData"

abbrev pub vec3_fields : List (String × Hint)
vec3_fields = ("x", plain) ∷ ("y", plain) ∷ ("z", plain) ∷ []

abbrev pub quaternion_fields : List (String × Hint)
quaternion_fields = ("w", plain) ∷ ("x", plain) ∷ ("y", plain) ∷ ("z", plain) ∷ []

abbrev pub pose_fields : List (String × Hint)
pose_fields = ("vec", dataclass_hint vec3_path) ∷ ("quat", dataclass_hint quaternion_path) ∷ []

abbrev pub ego_pose_fields : List (String × Hint)
ego_pose_fields = ("timestamp_us", plain) ∷ ("pose", dataclass_hint pose_path) ∷ []

abbrev pub trajectory_fields : List (String × Hint)
trajectory_fields = ("poses", tuple_of (dataclass_hint ego_pose_path)) ∷ []

abbrev pub route_waypoint_fields : List (String × Hint)
route_waypoint_fields = ("x", plain) ∷ ("y", plain) ∷ ("z", plain) ∷ []

abbrev pub policy_output_fields : List (String × Hint)
policy_output_fields =
    ("chosen_xyz", plain)
    ∷ ("chosen_quat", plain)
    ∷ ("chosen_dt_us", plain)
    ∷ ("chosen_logprob", optional plain)
    ∷ ("replay_data", optional (dataclass_hint policy_replay_data_path))
    ∷ ("all_pred_xyz", optional plain)
    ∷ ("all_pred_quat", optional plain)
    ∷ ("model_extra", optional (mapping any))
    ∷ []

abbrev pub episode_metrics_fields : List (String × Hint)
episode_metrics_fields = ("aggregated", mapping plain) ∷ ("dense", mapping any) ∷ []

abbrev pub reward_result_fields : List (String × Hint)
reward_result_fields = ("total", plain) ∷ ("report_metrics", mapping plain) ∷ []

abbrev pub episode_output_fields : List (String × Hint)
episode_output_fields =
    ("scene_id", plain)
    ∷ ("session_uuid", plain)
    ∷ ("num_steps", plain)
    ∷ ("policy_outputs", tuple_of (dataclass_hint policy_output_path))
    ∷ ("executed_ego_trajectory", dataclass_hint trajectory_path)
    ∷ ("route_waypoints", tuple_of (dataclass_hint route_waypoint_path))
    ∷ ("metrics", optional (dataclass_hint episode_metrics_path))
    ∷ ("reward", optional (dataclass_hint reward_result_path))
    ∷ ("is_valid", plain)
    ∷ []

abbrev pub action_selection_fields : List (String × Hint)
action_selection_fields = ("set_ix", plain) ∷ ("sample_ix", plain) ∷ []

abbrev pub policy_replay_data_fields : List (String × Hint)
policy_replay_data_fields =
    ("replay_schema_version", plain)
    ∷ ("payload_schema", plain)
    ∷ ("payload_schema_version", plain)
    ∷ ("model_family", plain)
    ∷ ("action_selection", dataclass_hint action_selection_path)
    ∷ ("old_logprob", optional plain)
    ∷ ("payload", mapping any)
    ∷ []

abbrev pub episode_classes : String → Class
episode_classes c =
    if same_text c vec3_path
    then fields_of vec3_fields
    else if same_text c quaternion_path
    then fields_of quaternion_fields
    else if same_text c pose_path
    then fields_of pose_fields
    else if same_text c ego_pose_path
    then fields_of ego_pose_fields
    else if same_text c trajectory_path
    then fields_of trajectory_fields
    else if same_text c route_waypoint_path
    then fields_of route_waypoint_fields
    else if same_text c policy_output_path
    then fields_of policy_output_fields
    else if same_text c episode_metrics_path
    then fields_of episode_metrics_fields
    else if same_text c reward_result_path
    then fields_of reward_result_fields
    else if same_text c episode_output_path
    then fields_of episode_output_fields
    else if same_text c action_selection_path
    then fields_of action_selection_fields
    else if same_text c policy_replay_data_path
    then fields_of policy_replay_data_fields
    else absent
