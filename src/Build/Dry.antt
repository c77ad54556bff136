-- ===== src/Build/Dry.antt =====
-- The dry run of the command `wdrip build` (cmd/wdrip/build/build.go).
use ooc.Base.{String, ◌≡◌, Bool, true, false, ◌||◌, List, ◌∷◌, str_eq}
use ooc.Cloud.Exec.{Call, make_dir, command}
use ooc.Cloud.Exec.Emits.{Emits}

-- `ossutil` lists the buckets of a region, or makes one
abbrev pub is_bucket_command : List String → Bool
is_bucket_command (tool ∷ flag ∷ endpoint ∷ verb ∷ rest) = str_eq verb "ls" || str_eq verb "mb"
is_bucket_command args = false

-- a call that makes a directory, or lists or makes a bucket
abbrev pub IsDryCall : Call → Type 0
IsDryCall (make_dir path) = Unit {0}
IsDryCall (command args) = is_bucket_command args ≡ true
IsDryCall c = ⊥
