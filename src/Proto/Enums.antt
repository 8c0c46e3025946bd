-- ===== src/Proto/Enums.antt =====
-- apps/proto-definition/instance_manager.proto: the enums and their conversions from and to `i32`.
use tzafon_way_point.Prelude.{ℕ, ◌≡◌, refl, Option, none, some, ◌==◌, if◌then◌else◌}

pub data InstanceType : Type 0 where
  default_instance_type chrome_browser virtual_machine warmpool_chrome_proxy : InstanceType
  fake_instance instance_manager vllm browser_backend agent : InstanceType

pub data KillReason : Type 0 where
  default_kill_reason killed timeout health_check_failed parent_dead : KillReason

-- `as i32`
abbrev pub type_code : InstanceType → ℕ
type_code default_instance_type = 0
type_code chrome_browser = 1
type_code virtual_machine = 2
type_code warmpool_chrome_proxy = 3
type_code fake_instance = 4
type_code instance_manager = 5
type_code vllm = 6
type_code browser_backend = 7
type_code agent = 8

-- `InstanceType::try_from`
unfoldable pub type_of_code : ℕ → Option InstanceType
type_of_code n =
    if n == 0
    then some default_instance_type
    else if n == 1
    then some chrome_browser
    else if n == 2
    then some virtual_machine
    else if n == 3
    then some warmpool_chrome_proxy
    else if n == 4
    then some fake_instance
    else if n == 5
    then some instance_manager
    else if n == 6
    then some vllm
    else if n == 7
    then some browser_backend
    else if n == 8
    then some agent
    else none

abbrev pub reason_code : KillReason → ℕ
reason_code default_kill_reason = 0
reason_code killed = 1
reason_code timeout = 2
reason_code health_check_failed = 3
reason_code parent_dead = 4

-- `KillReason::try_from`
unfoldable pub reason_of_code : ℕ → Option KillReason
reason_of_code n =
    if n == 0
    then some default_kill_reason
    else if n == 1
    then some killed
    else if n == 2
    then some timeout
    else if n == 3
    then some health_check_failed
    else if n == 4
    then some parent_dead
    else none

pub type_of_code-type_code : (t : InstanceType) → type_of_code (type_code t) ≡ some t
unfolding type_of_code
type_of_code-type_code agent = refl
type_of_code-type_code _ = refl

pub reason_of_code-reason_code : (r : KillReason) → reason_of_code (reason_code r) ≡ some r
unfolding reason_of_code
reason_of_code-reason_code parent_dead = refl
reason_of_code-reason_code _ = refl
