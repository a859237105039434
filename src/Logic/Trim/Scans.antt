-- ===== src/Logic/Trim/Scans.antt =====
-- The trim line over its scans, with what the loader copies to it before each. The registers that the line
-- counts in keep their values between two scans: no client writes them.
use v_plc_runtime.Shared.{ℕ, ◌≡◌, Bool, some, if◌then◌else◌}
use v_plc_runtime.Logic.Double.{Double}
use v_plc_runtime.Logic.Trim.{TrimState, config_init, config_run}

-- What a scan reads from outside: the mode, two registers, the coils of manual mode, and two sensors, of
-- which the loader copies `ix0_7` and leaves `ix0_5`; here both may have any value.
pub record Inputs : Type 0 where
  pub auto : Bool
  pub curtain : Bool
  pub glue_low : Bool
  pub target : ℕ
  pub bypass : ℕ
  pub coils : ℕ → Bool

module _ {F : Type 0} ⦃d : Double F⦄ where
  -- The copies of the loader: the coils only in manual mode.
  unfoldable pub read_inputs : Inputs → TrimState F → TrimState F
  read_inputs i s = record s {
    ix0_0 = i.auto;
    ix0_5 = i.curtain;
    ix0_7 = i.glue_low;
    mw3 = i.target;
    mw4 = i.bypass;
    qx0_0 = if i.auto then s.qx0_0 else i.coils 0;
    qx0_1 = if i.auto then s.qx0_1 else i.coils 1;
    qx0_2 = if i.auto then s.qx0_2 else i.coils 2;
    qx0_3 = if i.auto then s.qx0_3 else i.coils 3;
    qx0_4 = if i.auto then s.qx0_4 else i.coils 4;
  }

  -- A scan, with inputs and a tick of any value.
  pub data Scan (s t : TrimState F) : Type 0 where
    scan : (i : Inputs) (tick : ℕ) → config_run tick (read_inputs i s) ≡ some t → Scan s t

  -- The states that the line reaches from its start.
  pub data Reach : TrimState F → Type 0 where
    start : Reach config_init
    next : {s t : TrimState F} → Reach s → Scan s t → Reach t
