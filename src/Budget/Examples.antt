-- ===== src/Budget/Examples.antt =====
-- The budgets of three machines.
use ai_lab.Common.{true, some}
use ai_lab.Budget.{Pool, Kind, unified, Card, Host}

abbrev machine : Pool
machine = record {
  name = "machine";
  kind = unified;
  total_mb = 64000;
  used_mb = 20000;
  used_by_models_mb = 12000;
  reserve_mb = 8192;
  ceiling_mb = 30000;
}

abbrev card : Kind → Card
card kind = record {
  is_available = true;
  memory_kind = kind;
  memory_total_mb = 24000;
  memory_used_mb = 5000;
}

abbrev host : Kind → Host
host kind = record { accelerator = some (card kind); system_memory = some (20000, 64000) }
