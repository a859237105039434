-- ===== src/Tests/Devices.antt =====
-- The theorems on the loader and the S7 buffers, applied.
use v_plc_runtime.Shared.{ℕ, ◌≡◌, refl, List, [], ◌∷◌, replicate, codes, length-replicate}
use v_plc_runtime.Memory.{bits, words, coils_area, holding_registers_area}
use v_plc_runtime.Loader.{
  VarBinding, coil, holding_register, discrete_input, load_inputs, store_outputs,
}
use v_plc_runtime.Loader.Copies.{manual_copies}
use v_plc_runtime.S7.{Buffers, sync_before_cycle, sync_after_cycle}
use v_plc_runtime.S7.Quiet.{IsSized, sync_before_cycle_quiet}
use v_plc_runtime.Tests.{tiny}

abbrev bindings : List VarBinding
bindings =
    record { type = discrete_input; plc_address = 0; value = 1; name = codes "__IX0_0" }
    ∷ record { type = coil; plc_address = 0; value = 0; name = codes "__QX0_0" }
    ∷ record { type = holding_register; plc_address = 1; value = 8; name = codes "__MW1" }
    ∷ []

manual_copies_example :
    (bits (store_outputs tiny (load_inputs tiny bindings)) coils_area ≡ bits tiny coils_area)
    × (words (store_outputs tiny (load_inputs tiny bindings)) holding_registers_area
        ≡ words tiny holding_registers_area)
manual_copies_example = manual_copies tiny bindings (unfold bits in refl)

abbrev buffers : Buffers
buffers = record {
  pe = replicate 256 0;
  pa = replicate 256 0;
  db1 = replicate 2048 0;
  db1_shadow = replicate 2048 1;
  db2 = replicate 2048 0;
  db2_shadow = replicate 2048 0;
}

buffers-IsSized : IsSized buffers
buffers-IsSized = record {
  db1 = length-replicate {A = ℕ} 2048 0;
  db1_shadow = length-replicate {A = ℕ} 2048 1;
  db2 = length-replicate {A = ℕ} 2048 0;
  db2_shadow = length-replicate {A = ℕ} 2048 0;
}

sync_before_cycle_quiet_example :
    sync_before_cycle tiny (sync_after_cycle tiny buffers) ≡ (tiny, sync_after_cycle tiny buffers)
sync_before_cycle_quiet_example = sync_before_cycle_quiet tiny buffers buffers-IsSized
