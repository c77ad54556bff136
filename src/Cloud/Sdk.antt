-- ===== src/Cloud/Sdk.antt =====
-- The requests that pkg/iaas/provider/alibaba sends through the clients of the Alibaba SDK, which is
-- not part of the repository: one constructor for each kind of request, with the fields that the code
-- fills in. The region of the configuration, which all of them carry, is left out.
use ooc.Base.{ℕ, ℤ, String, Bool, List}

pub data SdkCall : Type 0 where
  -- ECS
  describe_instance start_instance delete_instance : String → SdkCall
  -- StopInstance, with ForceStop
  stop_instance : String → Bool → SdkCall
  describe_instances : List String → SdkCall
  modify_userdata replace_disk : String → String → SdkCall
  attach_key_pair : String → List String → SdkCall
  untag_resources : String → List String → SdkCall
  tag_resources : String → List (String × String) → SdkCall
  describe_invocations : String → SdkCall
  run_script describe_results : String → String → SdkCall
  describe_vswitches : String → SdkCall
  -- ESS
  describe_groups describe_groups_by_name : String → SdkCall
  create_group : String → String → ℕ → SdkCall
  describe_configurations : String → String → SdkCall
  create_configuration : String → String → String → String → String → SdkCall
  enable_group modify_configuration : String → String → SdkCall
  delete_group : String → SdkCall
  modify_group : String → ℕ → SdkCall
  describe_rule describe_group_rules : String → SdkCall
  create_rule modify_rule : String → ℤ → SdkCall
  execute_rule : String → SdkCall
  describe_activities describe_members : String → SdkCall
  remove_instances : String → String → SdkCall
  -- ROS
  get_stack delete_stack list_stack_resources : String → SdkCall
  list_stacks : String → SdkCall
  create_stack : String → String → SdkCall
