-- ===== src/Roles.antt =====
-- The four credential classes of a serving host (shared/admission/server.py, shared/serving/gateway.py).
use lario_llms.Prelude.{Bool, true, false}

pub data Role : Type 0 where
  interactive fleet auxiliary management : Role

-- `role in ("interactive", "fleet", "auxiliary")`
abbrev pub can_infer : Role → Bool
can_infer management = false
can_infer _ = true

abbrev pub is_interactive : Role → Bool
is_interactive interactive = true
is_interactive _ = false

abbrev pub is_auxiliary : Role → Bool
is_auxiliary auxiliary = true
is_auxiliary _ = false
