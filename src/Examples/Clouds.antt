-- ===== src/Examples/Clouds.antt =====
-- The theorems on the Alibaba provider at concrete inputs.
use ooc.Base.{
  ◌+◌, ◌*◌, ◌/◌, ◌≡◌, refl, true, false, none, some, List, [], ◌∷◌, arith, length, str_eq, concat,
  contains, if◌then◌else◌,
}
use ooc.Cloud.{Instance, BindId, text}
use ooc.Cloud.Exec.{ok, answer}
use ooc.Alibaba.{Sdk, Machine, wait_ecs}
use ooc.Alibaba.Instances.{replace_system_disk}
use ooc.Alibaba.Scaling.{scale_master_group, scale_node_group, remove_scaling_group_ecs}
use ooc.Alibaba.Stacks.{wait_desired_cnt}
use ooc.Alibaba.Waits.{IsWithin, wait_ecs-IsWithin}
use ooc.Alibaba.Disks.{IsGuarded, replace_system_disk-IsGuarded}
use ooc.Alibaba.Idle.{IsCalm, scaling-IsCalm}
use ooc.Alibaba.Outcomes.{Copies, reported, wait_desired_cnt-Copies}

abbrev pub machine1 : Machine
machine1 = record {
  instance_id = "i-1";
  status = "Stopped";
  image_id = "centos_7";
  key_pair_name = "";
  creation_time = "2021-08-01T12:00Z";
  ip_addresses = "192.168.0.103" ∷ [];
  tags = [];
}

-- One stopped machine in one group; every request succeeds.
abbrev pub fleet : Sdk
fleet = record {
  refusal = λ t c. none;
  status_of = λ t id. answer "Stopped";
  machines = λ t ids. answer (machine1 ∷ []);
  invocations = λ t id. answer (0, []);
  invoke = λ t id cmd. answer "t-1";
  results = λ t id invoke. answer ("Success", []);
  vswitches = λ t id. answer ("cn-hangzhou-k" ∷ []);
  groups = λ t id. answer (record { group_id = id; vpc_id = "vpc-1" } ∷ []);
  named_groups = λ t name. answer [];
  new_group_id = λ t name. answer "asg-2";
  configurations = λ t gid name. answer [];
  new_configuration_id = λ t gid. answer "asc-2";
  rules = λ t id. answer [];
  group_rules = λ t gid. answer [];
  new_rule = λ t gid. answer ("asr-1", "ari:asr-1");
  activities = λ t gid. answer 0;
  group_members = λ t gid. answer ("i-1" ∷ []);
  stack_status = λ t id. answer ("CREATE_COMPLETE", "");
  stacks = λ t name. answer [];
  stack_outputs = λ t id. answer [];
  stack_resources = λ t id. answer [];
  new_stack_id = λ t name. answer "stack-2";
  template_file = λ t. answer "{}";
  stack_template = λ t tpl. answer tpl;
  decode = λ s. answer s;
  templates = λ t category. answer "#!/bin/sh";
  stack = some (("k8s_master_sg", "asg-1") ∷ []);
  boot = some (record { resource_id = "stack-1" });
  uid_of = λ np. np.name;
  print_int = λ n. "n";
  region = "cn-hangzhou";
  attempts = λ interval timeout. 24;
}

wait_ecs-IsWithin_example :
    IsWithin ((120 + 4) / 5) (5 * ((120 + 4) / 5)) [] (wait_ecs fleet "i-1" "Running" 120 [])
wait_ecs-IsWithin_example = wait_ecs-IsWithin fleet "i-1" "Running" 120 [] (omega arith)

replace_system_disk-IsGuarded_example : IsGuarded fleet (replace_system_disk fleet "i-1" "" []).1
replace_system_disk-IsGuarded_example = replace_system_disk-IsGuarded fleet "i-1" "" [] tt

scaling-IsCalm_example :
    IsCalm fleet (scale_master_group fleet (ooc.Base.pos 1) []).1
    × IsCalm fleet (scale_node_group fleet "asg-1" (ooc.Base.pos 1) []).1
    × IsCalm fleet (remove_scaling_group_ecs fleet "i-1" []).1
scaling-IsCalm_example = scaling-IsCalm fleet "asg-1" "i-1" (ooc.Base.pos 1) [] tt

-- The cloud refuses to delete a group that has machines.
abbrev refusing : Sdk
refusing = record fleet { refusal = λ t c. some (text "IncorrectScalingGroupStatus") }

abbrev pub bind1 : BindId
bind1 = record { scaling_group_id = "asg-1"; configuration_id = "asc-1" }

wait_desired_cnt-Copies_example :
    (l : List Instance) × ((wait_desired_cnt fleet "asg-1" 3 []).0 ≡ ok l)
    × Copies (reported machine1) 3 l
wait_desired_cnt-Copies_example =
    wait_desired_cnt-Copies fleet "asg-1" "i-1" machine1 (λ t. refl) (λ t. refl) 3 [] refl
      (omega arith) (omega arith)
