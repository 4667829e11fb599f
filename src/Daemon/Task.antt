-- ===== src/Daemon/Task.antt =====
-- What a task is classified by, and who may run it (product.rs).
use crust_core.Prelude.{ℕ, ◌==◌, leb, Bool}

pub data RiskTier : Type 0 where
  low standard high critical : RiskTier

-- The derived order of `RiskTier`.
unfoldable pub rank : RiskTier → ℕ
rank low = 0
rank standard = 1
rank high = 2
rank critical = 3

-- `risk >= tier`
abbrev pub at_least : RiskTier → RiskTier → Bool
at_least risk tier = leb (rank tier) (rank risk)

pub data ExecutorKind : Type 0 where
  native codex claude_code local_model external_command mcp_tool : ExecutorKind

-- The derived equality of `ExecutorKind`, by the place of the constructor.
abbrev pub kind_place : ExecutorKind → ℕ
kind_place native = 0
kind_place codex = 1
kind_place claude_code = 2
kind_place local_model = 3
kind_place external_command = 4
kind_place mcp_tool = 5

abbrev pub kind_eq : ExecutorKind → ExecutorKind → Bool
kind_eq a b = kind_place a == kind_place b

pub data TaskShape : Type 0 where
  unknown bug_fix feature ui_change dependency_change docs_only : TaskShape
  workflow_change security_sensitive : TaskShape
